-- ===== src/Runtime/Sessions/Registered.antt =====
-- The 64 tables of a manager, the counter, and what a snapshot of them has.
use shark_socket.Base.{
  ℕ, ◌+◌, ◌%◌, ◌≤◌, ◌<◌, ◌≡◌, refl, ap, subst, inl, inr, none, some, List, [], ◌∷◌, arith, ◌==◌,
  length, All, Option-cases, Bool-cases,
}
use shark_socket.Base.Maps.{
  lookup, insert, erase, nat_eq, Distinct, insert-Distinct, erase-Distinct, length-insert_fresh,
  length-erase_present, erase-fresh,
}
use shark_socket.Base.Shards.{update, total, total-update}
use shark_socket.Runtime.Sessions.{
  Session, SessionManager, new, shard, session_shards, register, unregister, get,
}
use shark_socket.Runtime.Sessions.Table.{
  Call, registers, unregisters, gets, counts, answer, with_session, register-cases,
}

-- The entry is under its session's ID, in the shard `i`.
abbrev pub Placed : ℕ → ℕ × Session → Type 0
Placed i (id, s) = (id ≡ s.id) × (id % session_shards ≡ i)

pub record Inv (m : SessionManager) : Type 0 where
  pub distinct : (i : ℕ) → Distinct (m.shards i)
  pub placed : (i : ℕ) → All (Placed i) (m.shards i)
  pub counts_entries : m.count ≡ total session_shards m.shards
  pub capped : 0 < m.max_sessions → m.count ≤ m.max_sessions

insert-Placed :
    (i : ℕ) (s : Session) (entries : List (ℕ × Session))
    → s.id % session_shards ≡ i
    → All (Placed i) entries
    → All (Placed i) (insert s.id s entries)
unfolding insert
insert-Placed i s [] h a = ((refl, h), tt)
insert-Placed i s ((k, v) ∷ entries) h (p, a) = elim (Bool-cases (k == s.id)) [
  | inl same ↦ rw same ((refl, h), a)
  | inr other ↦ rw other (p, insert-Placed i s entries h a)
]

erase-Placed :
    (i id : ℕ) (entries : List (ℕ × Session))
    → All (Placed i) entries
    → All (Placed i) (erase id entries)
unfolding erase
erase-Placed i id [] a = tt
erase-Placed i id ((k, v) ∷ entries) (p, a) = elim (Bool-cases (k == id)) [
  | inl same ↦ rw same (erase-Placed i id entries a)
  | inr other ↦ rw other (p, erase-Placed i id entries a)
]

-- Replacing one shard keeps what holds of every shard.
update-keeps :
    (P : ℕ → List (ℕ × Session) → Type 0) (i : ℕ) (entries : List (ℕ × Session))
    (shards : ℕ → List (ℕ × Session))
    → ((j : ℕ) → P j (shards j))
    → P i entries
    → (j : ℕ) → P j (update i entries shards j)
update-keeps P i entries shards all_ new_ j = elim (Bool-cases (i == j)) [
  | inl same ↦ rw same (subst (λ k. P k entries) (ground (arith, same)) new_)
  | inr other ↦ rw other (all_ j)
]

pub new-Inv : (max_sessions : ℕ) → Inv (new max_sessions)
unfolding new total
new-Inv max_sessions = record {
  distinct = λ i. tt;
  placed = λ i. tt;
  counts_entries = refl;
  capped = λ h. omega arith;
}

shard_below : (id : ℕ) → id % session_shards < session_shards
shard_below id = omega arith

with_session-Inv :
    (s : Session) (m : SessionManager)
    → Inv m
    → get s.id m ≡ none
    → (0 < m.max_sessions → m.count < m.max_sessions)
    → Inv (with_session s m)
unfolding with_session get shard
with_session-Inv s m v fresh room = record {
  distinct =
      update-keeps (λ i. Distinct) (s.id % session_shards) _ m.shards v.distinct
        (insert-Distinct s.id s _ (v.distinct (s.id % session_shards)));
  placed =
      update-keeps (λ i. All (Placed i)) (s.id % session_shards) _ m.shards v.placed
        (insert-Placed (s.id % session_shards) s _ refl (v.placed (s.id % session_shards)));
  counts_entries = omega (
    arith,
    v.counts_entries,
    total-update session_shards (s.id % session_shards)
        (insert s.id s (m.shards (s.id % session_shards))) m.shards (shard_below s.id),
    length-insert_fresh s.id s (m.shards (s.id % session_shards)) fresh,
  );
  capped = λ h. omega (arith, room h);
}

pub unregister-Inv : (id : ℕ) (m : SessionManager) → Inv m → Inv (unregister id m).0
unfolding unregister shard
unregister-Inv id m v = elim (Option-cases (lookup id (m.shards (id % session_shards)))) [
  | inr (w, present) ↦
      rw (present, unregister)
        (record {
          distinct = distinct_;
          placed = placed_;
          counts_entries = omega (
            arith,
            v.counts_entries,
            moved,
            length-erase_present id w entries (v.distinct i) present,
          );
          capped = λ h. omega (arith, v.capped h);
        })
  | inl fresh ↦
      rw (fresh, unregister)
        (record {
          distinct = distinct_;
          placed = placed_;
          counts_entries =
              omega
                (arith, v.counts_entries, moved, ap (λ t. length t) (erase-fresh id entries fresh));
          capped = v.capped;
        })
]
  where
    i : ℕ
    i = id % session_shards

    entries : List (ℕ × Session)
    entries = m.shards i

    distinct_ : (j : ℕ) → Distinct (update i (erase id entries) m.shards j)
    distinct_ =
        update-keeps (λ i. Distinct) i _ m.shards v.distinct (erase-Distinct id _ (v.distinct i))

    placed_ : (j : ℕ) → All (Placed j) (update i (erase id entries) m.shards j)
    placed_ =
        update-keeps (λ i. All (Placed i)) i _ m.shards v.placed (erase-Placed i id _ (v.placed i))

    moved :
        total session_shards (update i (erase id entries) m.shards) + length entries
        ≡ total session_shards m.shards + length (erase id entries)
    moved = total-update session_shards i (erase id entries) m.shards (shard_below id)

pub answer-Inv : (m : SessionManager) (c : Call) → Inv m → Inv (answer m c).0
unfolding answer
answer-Inv m (registers none) v = unfold register in v
answer-Inv m (registers (some s)) v = elim (register-cases s m) [
  | inl (w, present, e) ↦ rw (e, answer) v
  | inr (inl (fresh, stop, e)) ↦ rw (e, answer) v
  | inr (inr (fresh, go, e)) ↦ rw (e, answer) (with_session-Inv s m v fresh λ h. ground arith)
]
answer-Inv m (unregisters id) v = unregister-Inv id m v
answer-Inv m (gets id) v = v
answer-Inv m counts v = v
