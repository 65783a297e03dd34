-- ===== src/Runtime/Sessions/Closing.antt =====
-- Closing every session.
use shark_socket.Base.{
  ℕ, ◌≡◌, refl, sym, ap, subst, ◌∙◌, Option, none, some, List, [], ◌∷◌, arith, ltb, if◌then◌else◌,
  length, All,
}
use shark_socket.Runtime.Sessions.{
  Session, SessionManager, CallEnd, safe_session_call, first_error, unregister, get, snapshot,
  close_each, close_all,
}
use shark_socket.Runtime.Sessions.Registered.{Inv, unregister-Inv}
use shark_socket.Runtime.Sessions.Listed.{times, snapshot-Faithful}
use shark_socket.Runtime.Sessions.Table.{get-unregister}

module _ {E : Type 0} (handler_panic : E) (close : Session → CallEnd E) where
  -- The first error among the closes of these sessions, in order, behind an earlier one.
  pub first_close_error : List Session → Option E → Option E
  first_close_error [] first = first
  first_close_error (s ∷ sessions) first =
      first_close_error sessions (first_error first (safe_session_call handler_panic (close s)))

  close_each-error :
      (sessions : List Session) (first : Option E) (m : SessionManager)
      → (close_each handler_panic close sessions first m).1 ≡ first_close_error sessions first
  unfolding close_each first_close_error
  close_each-error [] first m = refl
  close_each-error (s ∷ sessions) first m = close_each-error sessions _ _

  close_each-Inv :
      (sessions : List Session) (first : Option E) (m : SessionManager)
      → Inv m
      → Inv (close_each handler_panic close sessions first m).0
  unfolding close_each
  close_each-Inv [] first m v = v
  close_each-Inv (s ∷ sessions) first m v =
      close_each-Inv sessions _ (unregister s.id m).0 (unregister-Inv s.id m v)

  get-close_each :
      (sessions : List Session) (first : Option E) (m : SessionManager) (id : ℕ)
      → get id (close_each handler_panic close sessions first m).0
        ≡ (if ltb 0 (times id sessions) then none else get id m)
  unfolding close_each times
  get-close_each [] first m id = refl
  get-close_each (s ∷ sessions) first m id = ground (
    arith,
    get-close_each sessions (first_error first (safe_session_call handler_panic (close s)))
        (unregister s.id m).0 id,
    get-unregister s.id m id,
  )

  -- A list of sessions that are all registered is empty when none is.
  none_listed :
      (m : SessionManager) (sessions : List Session)
      → All (λ s. get s.id m ≡ some s) sessions
      → ((id : ℕ) → get id m ≡ none)
      → sessions ≡ []
  none_listed m [] a h = refl
  none_listed m (s ∷ sessions) (here, a) h = absurd (ground (arith, here, h s.id))

  emptied :
      (m : SessionManager) (first : Option E)
      → Inv m
      → (id : ℕ) → get id (close_each handler_panic close (snapshot m) first m).0 ≡ none
  emptied m first v id =
      get-close_each (snapshot m) first m id ∙ ground (arith, (snapshot-Faithful m v).once id)

  -- A snapshot that is empty shows an empty manager.
  empty_manager :
      (m : SessionManager)
      → Inv m
      → snapshot m ≡ []
      → (snapshot m ≡ []) × (m.count ≡ 0) × ((id : ℕ) → get id m ≡ none)
  unfolding times
  empty_manager m v e = (
    e,
    sym (snapshot-Faithful m v).as_many ∙ ap (λ xs. length xs) e,
    λ id. ground (arith, sym ((snapshot-Faithful m v).once id) ∙ ap (λ xs. times id xs) e),
  )

  closed-snapshot :
      (m : SessionManager) (first : Option E)
      → Inv m
      → snapshot (close_each handler_panic close (snapshot m) first m).0 ≡ []
  closed-snapshot m first v =
      none_listed _ _ (snapshot-Faithful _ (close_each-Inv (snapshot m) first m v)).registered
        (emptied m first v)

  -- What `CloseAll` leaves, by the snapshot of its first round.
  close_all-from :
      (m : SessionManager) (sessions : List Session)
      → Inv m
      → snapshot m ≡ sessions
      → (m' : SessionManager) × (close_all handler_panic 2 close none m
          ≡ some (m', first_close_error sessions none))
        × (snapshot m' ≡ [])
        × (m'.count ≡ 0)
        × ((id : ℕ) → get id m' ≡ none)
  unfolding close_all
  close_all-from m [] v e =
      (m, rw (e, close_all) (unfold first_close_error in refl), empty.0, empty.1, empty.2)
    where
      empty : (snapshot m ≡ []) × (m.count ≡ 0) × ((id : ℕ) → get id m ≡ none)
      empty = empty_manager m v e
  close_all-from m (s ∷ sessions) v e = (
    m',
    rw (e, close_all)
        (rw (left, close_all)
          (ap (λ first. some (m', first)) (close_each-error (s ∷ sessions) none m))),
    empty.0,
    empty.1,
    empty.2,
  )
    where
      m' : SessionManager
      m' = (close_each handler_panic close (s ∷ sessions) none m).0

      left : snapshot m' ≡ []
      left =
          subst (λ xs. snapshot (close_each handler_panic close xs none m).0 ≡ []) e
            (closed-snapshot m none v)

      empty : (snapshot m' ≡ []) × (m'.count ≡ 0) × ((id : ℕ) → get id m' ≡ none)
      empty = empty_manager m' (close_each-Inv (s ∷ sessions) none m v) left

  -- With a context that is not cancelled, and no session registered meanwhile, `CloseAll` ends in its
  -- second round at the latest: no session is left, the counter is 0, and the error is the first one
  -- of the closes, in the snapshot's order, whichever of them failed or panicked.
  pub close_all-ends :
      (m : SessionManager)
      → Inv m
      → (m' : SessionManager) × (close_all handler_panic 2 close none m
          ≡ some (m', first_close_error (snapshot m) none))
        × (snapshot m' ≡ [])
        × (m'.count ≡ 0)
        × ((id : ℕ) → get id m' ≡ none)
  close_all-ends m v = close_all-from m (snapshot m) v refl
