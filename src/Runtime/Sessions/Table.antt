-- ===== src/Runtime/Sessions/Table.antt =====
-- The manager against a manager with one table and no separate counter.
use shark_socket.Base.{
  ℕ, ◌+◌, ◌-◌, ◌%◌, ◌≡◌, refl, sym, subst, ap, ◌∙◌, ◌⊎◌, inl, inr, Bool, true, false, ◌&&◌, Option,
  none, some, List, [], ◌∷◌, arith, ltb, leb, ◌==◌, if◌then◌else◌, length, ok, err, Option-cases,
  Bool-cases,
}
use shark_socket.Base.Maps.{
  lookup, insert, erase, nat_eq, lookup-insert, lookup-erase, Distinct, insert-Distinct,
  erase-Distinct, length-insert_fresh, length-erase_present, erase-fresh,
}
use shark_socket.Base.Shards.{update}
use shark_socket.Runtime.Sessions.{
  Session, SessionManager, RegisterError, invalid_argument, duplicate_session, session_capacity,
  new, shard, session_shards, register, unregister, get,
}

-- What a caller can ask, and what it is told.
pub data Call : Type 0 where
  registers : Option Session → Call
  unregisters : ℕ → Call
  gets : ℕ → Call
  counts : Call

pub data Reply : Type 0 where
  accepted : Reply
  rejected : RegisterError → Reply
  was_present : Bool → Reply
  found : Option Session → Reply
  counted : ℕ → Reply

unfoldable pub answer : SessionManager → Call → SessionManager × Reply
answer m (registers s) = elim (register s m) [ ok m' ↦ (m', accepted) | err e ↦ (m, rejected e) ]
answer m (unregisters id) = ((unregister id m).0, was_present (unregister id m).1)
answer m (gets id) = (m, found (get id m))
answer m counts = (m, counted m.count)

unfoldable pub replies : SessionManager → List Call → List Reply
replies m [] = []
replies m (c ∷ cs) = (answer m c).1 ∷ replies (answer m c).0 cs

-- The manager with a single table of sessions under their IDs.
pub record Single : Type 0 where
  pub ceiling : ℕ
  pub table : List (ℕ × Session)

single_register : Session → Single → Single × Reply
single_register s t = elim (lookup s.id t.table) [
  | some present ↦ (t, rejected duplicate_session)
  | none ↦
      if ltb 0 t.ceiling && leb t.ceiling (length t.table)
      then (t, rejected session_capacity)
      else (record t { table = insert s.id s t.table }, accepted)
]

single_unregister : ℕ → Single → Single × Reply
single_unregister id t = elim (lookup id t.table) [
  | some present ↦ (record t { table = erase id t.table }, was_present true)
  | none ↦ (t, was_present false)
]

single_answer : Single → Call → Single × Reply
single_answer t (registers none) = (t, rejected invalid_argument)
single_answer t (registers (some s)) = single_register s t
single_answer t (unregisters id) = single_unregister id t
single_answer t (gets id) = (t, found (lookup id t.table))
single_answer t counts = (t, counted (length t.table))

pub single_replies : Single → List Call → List Reply
single_replies t [] = []
single_replies t (c ∷ cs) = (single_answer t c).1 ∷ single_replies (single_answer t c).0 cs

record Implements (m : SessionManager) (t : Single) : Type 0 where
  same_ceiling : m.max_sessions ≡ t.ceiling
  same_count : m.count ≡ length t.table
  same_table : (id : ℕ) → get id m ≡ lookup id t.table
  distinct : Distinct t.table

-- A shard that is replaced is seen by the IDs that it holds, and by no other.
get-update :
    (m : SessionManager) (id j : ℕ) (entries : List (ℕ × Session)) (n : ℕ) (own : Option Session)
    → ((k : ℕ)
        → lookup k entries ≡ (if id == k then own else lookup k (m.shards (id % session_shards))))
    → get j (record m { count = n; shards = update (id % session_shards) entries m.shards })
      ≡ (if id == j then own else get j m)
unfolding get shard
get-update m id j entries n own h = ground (arith, h j, ap (λ k. k % session_shards), ap m.shards)

-- Whether the ceiling is reached.
abbrev full : SessionManager → Bool
full m = ltb 0 m.max_sessions && leb m.max_sessions m.count

-- The manager with the session's entry.
unfoldable pub with_session : Session → SessionManager → SessionManager
with_session s m = record m {
  count = m.count + 1;
  shards = update (s.id % session_shards) (insert s.id s (shard m s.id)) m.shards;
}

pub register-cases :
    (s : Session) (m : SessionManager)
    → ((w : Session) × (get s.id m ≡ some w) × (register (some s) m ≡ err duplicate_session))
      ⊎ ((get s.id m ≡ none) × (full m ≡ true) × (register (some s) m ≡ err session_capacity))
      ⊎ ((get s.id m ≡ none) × (full m ≡ false) × (register (some s) m ≡ ok (with_session s m)))
unfolding get with_session register
register-cases s m = elim (Option-cases (lookup s.id (shard m s.id))) [
  | inr (w, present) ↦ inl (w, present, rw (present, register))
  | inl fresh ↦ elim (Bool-cases (full m)) [
    | inl yes_ ↦ inr (inl (fresh, yes_, rw (fresh, register) (rw yes_)))
    | inr no_ ↦ inr (inr (fresh, no_, rw (fresh, register) (rw no_)))
  ]
]

pub get-with_session :
    (s : Session) (m : SessionManager) (j : ℕ)
    → get j (with_session s m) ≡ (if s.id == j then some s else get j m)
unfolding with_session shard
get-with_session s m j =
    get-update m s.id j (insert s.id s (shard m s.id)) (m.count + 1) (some s)
      λ k. lookup-insert s.id k s (shard m s.id)

pub get-unregister :
    (id : ℕ) (m : SessionManager) (j : ℕ)
    → get j (unregister id m).0 ≡ (if id == j then none else get j m)
unfolding unregister shard
get-unregister id m j = elim (Option-cases (lookup id (m.shards (id % session_shards)))) [
  | inl fresh ↦
      rw (fresh, unregister)
        (get-update m id j (erase id (shard m id)) m.count none λ k. lookup-erase id k (shard m id))
  | inr (w, present) ↦
      rw (present, unregister)
        (get-update m id j (erase id (shard m id)) (m.count - 1) none
          λ k. lookup-erase id k (shard m id))
]

unregister-ceiling :
    (id : ℕ) (m : SessionManager) → (unregister id m).0.max_sessions ≡ m.max_sessions
unfolding unregister
unregister-ceiling id m = elim (Option-cases (lookup id (shard m id))) [
  | inl fresh ↦ rw (fresh, unregister)
  | inr (w, present) ↦ rw (present, unregister)
]

-- The reply and the count of `unregister`.
pub unregister-cases :
    (id : ℕ) (m : SessionManager)
    → ((w : Session) × (get id m ≡ some w)
        × ((unregister id m).1 ≡ true)
        × ((unregister id m).0.count ≡ m.count - 1))
      ⊎ ((get id m ≡ none) × ((unregister id m).1 ≡ false) × ((unregister id m).0.count ≡ m.count))
unfolding get unregister
unregister-cases id m = elim (Option-cases (lookup id (shard m id))) [
  | inl fresh ↦ inr (fresh, rw (fresh, unregister), rw (fresh, unregister))
  | inr (w, present) ↦ inl (w, present, rw (present, unregister), rw (present, unregister))
]

module _ (m : SessionManager) (t : Single) (r : Implements m t) where
  same_full : full m ≡ (ltb 0 t.ceiling && leb t.ceiling (length t.table))
  same_full = rw (r.same_ceiling, r.same_count)

  with_session-Implements :
      (s : Session)
      → lookup s.id t.table ≡ none
      → Implements (with_session s m) (record t { table = insert s.id s t.table })
  with_session-Implements s fresh = record {
    same_ceiling = unfold with_session in r.same_ceiling;
    same_count = unfold with_session in omega (arith, r, length-insert_fresh s.id s t.table fresh);
    same_table = λ j.
        get-with_session s m j
        ∙ ap (λ v. if s.id == j then some s else v) (r.same_table j)
        ∙ sym (lookup-insert s.id j s t.table);
    distinct = insert-Distinct s.id s t.table r.distinct;
  }

  unregister-Implements :
      (id : ℕ)
      → (unregister id m).0.count ≡ length (erase id t.table)
      → Implements (unregister id m).0 (record t { table = erase id t.table })
  unregister-Implements id e = record {
    same_ceiling = unregister-ceiling id m ∙ r.same_ceiling;
    same_count = e;
    same_table = λ j.
        get-unregister id m j
        ∙ ap (λ v. if id == j then none else v) (r.same_table j)
        ∙ sym (lookup-erase id j t.table);
    distinct = erase-Distinct id t.table r.distinct;
  }

  register-Implements :
      (s : Session)
      → ((answer m (registers (some s))).1 ≡ (single_register s t).1)
        × Implements (answer m (registers (some s))).0 (single_register s t).0
  unfolding answer single_register
  register-Implements s = elim (register-cases s m) [
    | inl (w, present, e) ↦
        rw (e, answer, sym (r.same_table s.id) ∙ present, single_register) (refl, r)
    | inr (inl (fresh, stop, e)) ↦
        rw (e, answer, sym (r.same_table s.id) ∙ fresh, sym same_full ∙ stop, single_register)
          (refl, r)
    | inr (inr (fresh, go, e)) ↦
        rw (e, answer, sym (r.same_table s.id) ∙ fresh, sym same_full ∙ go, single_register)
          (refl, with_session-Implements s (sym (r.same_table s.id) ∙ fresh))
  ]

  unregisters-Implements :
      (id : ℕ)
      → (was_present (unregister id m).1 ≡ (single_unregister id t).1)
        × Implements (unregister id m).0 (single_unregister id t).0
  unfolding single_unregister
  unregisters-Implements id = elim (unregister-cases id m) [
    | inl (w, present, flag, n) ↦
        let here : lookup id t.table ≡ some w = sym (r.same_table id) ∙ present in
        rw (flag, here, single_unregister)
          (
            refl,
            unregister-Implements id
                (omega (arith, n, r, length-erase_present id w t.table r.distinct here)),
          )
    | inr (fresh, flag, n) ↦
        let gone : lookup id t.table ≡ none = sym (r.same_table id) ∙ fresh in
        let same : erase id t.table ≡ t.table = erase-fresh id t.table gone in
        rw (flag, gone, single_unregister)
          (
            refl,
            subst (λ table. Implements (unregister id m).0 (record t { table = table })) same
                (unregister-Implements id (omega (arith, n, r, ap (λ table. length table) same))),
          )
  ]

answer-Implements :
    (m : SessionManager) (t : Single) (c : Call)
    → Implements m t
    → ((answer m c).1 ≡ (single_answer t c).1) × Implements (answer m c).0 (single_answer t c).0
unfolding answer single_answer
answer-Implements m t (registers none) r = unfold register in (refl, r)
answer-Implements m t (registers (some s)) r = register-Implements m t r s
answer-Implements m t (unregisters id) r = unregisters-Implements m t r id
answer-Implements m t (gets id) r = (ap found (r.same_table id), r)
answer-Implements m t counts r = (ap counted r.same_count, r)

replies-Implements :
    (cs : List Call) (m : SessionManager) (t : Single)
    → Implements m t
    → replies m cs ≡ single_replies t cs
unfolding replies single_replies
replies-Implements [] m t r = refl
replies-Implements (c ∷ cs) m t r = rw ((answer-Implements m t c r).0) (
    ap (◌∷◌ (single_answer t c).1)
      (replies-Implements cs (answer m c).0 (single_answer t c).0 (answer-Implements m t c r).1))

-- Whatever is registered, unregistered and asked for, the manager with its 64 tables and its counter
-- replies as a manager with a single table does, which counts its entries: a duplicate is reported
-- before the ceiling, and the ceiling is never passed.
pub replies-single_replies :
    (ceiling : ℕ) (cs : List Call)
    → replies (new ceiling) cs ≡ single_replies (record { ceiling = ceiling; table = [] }) cs
replies-single_replies ceiling cs = replies-Implements cs (new ceiling) _ (record {
  same_ceiling = unfold new in refl;
  same_count = unfold new in refl;
  same_table = λ id. unfold get new shard in refl;
  distinct = tt;
})
