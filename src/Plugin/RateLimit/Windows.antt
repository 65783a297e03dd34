-- ===== src/Plugin/RateLimit/Windows.antt =====
-- The limiter against one that remembers every message it ever passed on.
use shark_socket.Base.{
  ℕ, ◌+◌, ◌≤◌, ◌<◌, ◌≡◌, refl, sym, ap, ◌∙◌, inl, inr, Bool, true, false, not, ◌&&◌, List, [], ◌∷◌,
  ◌++◌, arith, ltb, if◌then◌else◌, length, All, All-append, Bool-cases,
}
use shark_socket.Base.Maps.{Eq, Distinct, lookup}
use shark_socket.Plugin.RateLimit.{
  RateLimit, prune, sweep, counters, on_message, new_rate_limit, set_limit,
}
use shark_socket.Plugin.RateLimit.Stamps.{
  prune-prune, prune-All, length-prune_append, store, counters-store, store-Distinct,
  on_message-store, sweep-Distinct, counters-sweep,
}

pub data Event {ℓ} (K : Type ℓ) : Type ℓ where
  message : ℕ → K → Event K
  sweeps : ℕ → Event K

module _ {ℓ} {K : Type ℓ} where
  abbrev pub instant : Event K → ℕ
  instant (message now key) = now
  instant (sweeps now) = now

  -- The clock does not go back.
  abbrev pub Ordered : ℕ → List (Event K) → Type 0
  Ordered last [] = Unit {0}
  Ordered last (ev ∷ evs) = (last ≤ instant ev) × Ordered (instant ev) evs

module _ {ℓ} {K : Type ℓ} ⦃e : Eq K⦄ where
  -- The messages of a key in the history that are within the window at `now`.
  unfoldable pub recent : ℕ → ℕ → K → List (K × ℕ) → ℕ
  recent window now key [] = 0
  recent window now key ((j, t) ∷ history) =
      (if e.beq j key && not (ltb (t + window) now) then 1 else 0) + recent window now key history

  -- Passes a message on iff fewer than `rate` of the key were passed on within the window.
  pub reference : ℕ → ℕ → List (K × ℕ) → List (Event K) → List Bool
  reference rate window history [] = []
  reference rate window history (sweeps now ∷ evs) = reference rate window history evs
  reference rate window history (message now key ∷ evs) =
      let passed = ltb (recent window now key history) rate in
      passed ∷ reference rate window (if passed then (key, now) ∷ history else history) evs

  module _ (hash : K → ℕ) where
    -- What the limiter decides, message by message.
    unfoldable pub decisions : RateLimit K → List (Event K) → List Bool
    decisions p [] = []
    decisions p (sweeps now ∷ evs) = decisions (sweep now p) evs
    decisions p (message now key ∷ evs) =
        (on_message hash now key p).1 ∷ decisions (on_message hash now key p).0 evs

    pub record Remembers (rate window last : ℕ) (p : RateLimit K) (history : List (K × ℕ))
        : Type ℓ where
      pub same_rate : p.rate ≡ rate
      pub same_window : p.window ≡ window
      pub distinct : (i : ℕ) → Distinct (p.shards i)
      pub not_later : (key : K) → All (λ t. t ≤ last) (counters hash key p)
      pub exact :
          (key : K) (now : ℕ)
          → last ≤ now
          → length (prune window now (counters hash key p)) ≡ recent window now key history

    All-later :
        (last now : ℕ) (stamps : List ℕ)
        → last ≤ now
        → All (λ t. t ≤ last) stamps
        → All (λ t. t ≤ now) stamps
    All-later last now [] h a = tt
    All-later last now (t ∷ stamps) h (b, a) = (omega arith, All-later last now stamps h a)

    module _ (rate window last now : ℕ) (p : RateLimit K) (history : List (K × ℕ))
        (r : Remembers rate window last p history) (h : last ≤ now) where
      -- The pruned stamps of a key, with nothing later than `now`.
      pruned_not_later : (key : K) → All (λ t. t ≤ now) (prune window now (counters hash key p))
      pruned_not_later key =
          prune-All now window now _ (All-later last now (counters hash key p) h (r.not_later key))

      pruned_exact :
          (key : K) (later : ℕ)
          → now ≤ later
          → length (prune window later (prune window now (counters hash key p)))
            ≡ recent window later key history
      pruned_exact key later l =
          rw (prune-prune window now later (counters hash key p) l)
            (r.exact key later (omega arith))

      swept : (key : K) → counters hash key (sweep now p) ≡ prune window now (counters hash key p)
      swept key =
          counters-sweep hash now p key r.distinct
          ∙ ap (λ w. prune w now (counters hash key p)) r.same_window

      pub sweep-Remembers : Remembers rate window now (sweep now p) history
      sweep-Remembers = record {
        same_rate = unfold sweep in r.same_rate;
        same_window = unfold sweep in r.same_window;
        distinct = sweep-Distinct hash now p r.distinct;
        not_later = λ key. rw (swept key) (pruned_not_later key);
        exact = λ key later l. rw (swept key) (pruned_exact key later l);
      }

      -- The limiter with other stamps for a key remembers a history that agrees on the other keys.
      store-Remembers :
          (key : K) (kept : List ℕ) (history' : List (K × ℕ))
          → All (λ t. t ≤ now) kept
          → ((later : ℕ)
              → now ≤ later
              → length (prune window later kept) ≡ recent window later key history')
          → ((j : K) (later : ℕ)
              → e.beq key j ≡ false
              → recent window later j history' ≡ recent window later j history)
          → Remembers rate window now (store hash key kept p) history'
      store-Remembers key kept history' late own others = record {
        same_rate = unfold store in r.same_rate;
        same_window = unfold store in r.same_window;
        distinct = store-Distinct hash key kept p r.distinct;
        not_later = λ j. elim (Bool-cases (e.beq key j)) [
          | inl same ↦ rw (counters-store hash key j kept p, same) late
          | inr other ↦
              rw (counters-store hash key j kept p, other) (All-later last now _ h (r.not_later j))
        ];
        exact = λ j later l. elim (Bool-cases (e.beq key j)) [
          | inl same ↦
              rw (counters-store hash key j kept p, same)
                (own later l ∙ ap (λ k. recent window later k history') ((e.beq_iff key j).0 same))
          | inr other ↦
              rw (counters-store hash key j kept p, other)
                (r.exact j later (omega arith) ∙ sym (others j later other))
        ];
      }

      stored-Remembers :
          (key : K)
          → Remembers rate window now
              (store hash key (prune window now (counters hash key p)) p)
              history
      stored-Remembers key =
          store-Remembers key _ history (pruned_not_later key) (pruned_exact key)
            λ j later other. refl

      passed-Remembers :
          (key : K)
          → Remembers rate window now
              (store hash key (prune window now (counters hash key p) ++ now ∷ []) p)
              ((key, now) ∷ history)
      passed-Remembers key =
          store-Remembers key _ ((key, now) ∷ history)
            (All-append (λ t. t ≤ now) _ (now ∷ []) (pruned_not_later key) (omega arith))
            (λ later l. rw (length-prune_append window later now _ (pruned_not_later key)) (
              unfold recent in
              ground (arith, pruned_exact key later l, (e.beq_iff key key).1 refl)))
            (λ j later other. unfold recent in ground (arith, other))

      -- A message is passed on iff the history allows it.
      on_message-recent :
          (key : K)
          → let stamps = prune window now (counters hash key p) in
            on_message hash now key p ≡ (
              if ltb (recent window now key history) rate
              then (store hash key (stamps ++ now ∷ []) p, true)
              else (store hash key stamps p, false))
      on_message-recent key =
          rw (← r.exact key now h, ← r.same_window, ← r.same_rate) (on_message-store hash now key p)

      pub on_message-Remembers :
          (key : K)
          → ((on_message hash now key p).1 ≡ ltb (recent window now key history) rate)
            × Remembers rate window now
                (on_message hash now key p).0
                (if ltb (recent window now key history) rate then (key, now) ∷ history else history)
      on_message-Remembers key = elim (Bool-cases (ltb (recent window now key history) rate)) [
        | inl yes_ ↦ rw (on_message-recent key, yes_) (refl, passed-Remembers key)
        | inr no_ ↦ rw (on_message-recent key, no_) (refl, stored-Remembers key)
      ]

    decisions-from :
        (evs : List (Event K)) (rate window last : ℕ) (p : RateLimit K) (history : List (K × ℕ))
        → Remembers rate window last p history
        → Ordered last evs
        → decisions p evs ≡ reference rate window history evs
    unfolding decisions reference
    decisions-from [] rate window last p history r o = refl
    decisions-from (sweeps now ∷ evs) rate window last p history r (h, o) =
        decisions-from evs rate window now (sweep now p) history
          (sweep-Remembers rate window last now p history r h) o
    decisions-from (message now key ∷ evs) rate window last p history r (h, o) =
        let next = on_message-Remembers rate window last now p history r h key in
        rw (next.0) (
          ap (◌∷◌ (ltb (recent window now key history) rate))
            (decisions-from evs rate window now (on_message hash now key p).0 _ next.1 o))

    pub new_rate_limit-Remembers :
        (rate window : ℕ)
        → 0 < rate
        → 0 < window
        → Remembers rate window 0 (new_rate_limit rate window) []
    unfolding new_rate_limit set_limit lookup
    new_rate_limit-Remembers rate window hr hw = record {
      same_rate = ground arith;
      same_window = ground arith;
      distinct = λ i. tt;
      not_later = λ key. unfold counters in tt;
      exact = λ key now l. unfold counters prune recent in refl;
    }

    -- Under a clock that does not go back, the limiter passes on exactly the messages that a limiter
    -- would pass on that remembers all it ever passed on: those of a key with fewer than `rate`
    -- passed on in the last `window`. Sweeps at any instants, the hash and the other keys make no
    -- difference.
    pub decisions-reference :
        (rate window : ℕ) (evs : List (Event K))
        → 0 < rate
        → 0 < window
        → Ordered 0 evs
        → decisions (new_rate_limit rate window) evs ≡ reference rate window [] evs
    decisions-reference rate window evs hr hw o =
        decisions-from evs rate window 0 _ [] (new_rate_limit-Remembers rate window hr hw) o
