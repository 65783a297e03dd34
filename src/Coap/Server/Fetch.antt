-- ===== src/Coap/Server/Fetch.antt =====
-- A body that a client fetches block by block, as RFC 7959 has it do.
use shark_socket.Base.{
  ℕ, zero, suc, ◌+◌, ◌*◌, ◌/◌, ◌^◌, ◌≤◌, ◌<◌, ◌≡◌, refl, ap, ◌∙◌, Bool, true, false, List, [], ◌∷◌,
  ◌++◌, arith, ◌==◌, ltb, if◌then◌else◌, length, ok, err, some, none, Option, take, drop,
  take-append-drop, take-all, length-drop, min,
}
use native.Mathlib.Nat.{min-eq_left, min-eq_right, pow-le-pow_right, mul-div_left, one-le-pow}
use native.Mathlib.Decide.{dec_le}
use shark_socket.Base.Maps.{lookup, nat_eq}
use shark_socket.Coap.Message.{Message}
use shark_socket.Coap.Server.{apply_block2}
use shark_socket.Coap.Block.{
  BlockOption, block2_option, marshal_block, parse_block_option, size_exp_of,
}
use shark_socket.Coap.Block.Codec.{IsBlock, parse_block_option-marshal_block, size_cases}
use shark_socket.Coap.Block.Transfer.{block_for-negotiate_block2, drop-eq, drop-add, two_pos}

-- The Block2 option of a request for the block `num`.
abbrev asked : ℕ → ℕ → BlockOption
asked num size_exp = record { num = num; more = false; size_exp = size_exp }

-- A request for that block.
abbrev request : ℕ → ℕ → Message
request num size_exp = record {
  type = 0;
  code = 1;
  message_id = 0;
  token = [];
  options = (block2_option, marshal_block (asked num size_exp)) ∷ [];
  payload = [];
}

-- The slice of the body that the server answers with, and the option that it echoes.
unfoldable pub block_answer : ℕ → ℕ → List ℕ → ℕ → Option (List ℕ × Option BlockOption)
block_answer num size_exp body limit = apply_block2 limit (request num size_exp) body

-- The body that the client puts together: it reads the option that the server echoes, and asks for
-- the block after it in the size that it says, until a block comes that no other follows. `none` if
-- a block is refused or the fuel runs out.
unfoldable pub fetch : ℕ → ℕ → ℕ → List ℕ → ℕ → Option (List ℕ)
fetch zero num size_exp body limit = none
fetch (suc fuel) num size_exp body limit = elim (block_answer num size_exp body limit) [
  | none ↦ none
  | some (chunk, none) ↦ some chunk
  | some (chunk, some b) ↦ elim (parse_block_option (marshal_block b)) [
    | err e ↦ none
    | ok echoed ↦
        if echoed.more
        then elim (fetch fuel (echoed.num + 1) echoed.size_exp body limit) [
          | none ↦ none
          | some rest ↦ some (chunk ++ rest)
        ]
        else some chunk
  ]
]

ltb-true : {a b : ℕ} → a < b → ltb a b ≡ true
ltb-true h = ground arith

ltb-false : {a b : ℕ} → b ≤ a → ltb a b ≡ false
ltb-false h = ground arith

zero_times : (n : ℕ) → 0 * n ≡ 0
zero_times n = omega arith

module _ (body : List ℕ) (k : ℕ) (hk : k ≤ 6) (fits : length body < 2 ^ 32) where
  -- The answer to a block of any size.
  block_answer-asked :
      (num e : ℕ)
      → e ≤ 6
      → num < 2 ^ 20
      → let w = min (2 ^ (k + 4)) (2 ^ (e + 4)) in
        let offset = num * 2 ^ (e + 4) in
        block_answer num e body (2 ^ (k + 4)) ≡ (
          if ltb offset (length body)
          then some (
            take w (drop offset body),
            some (record {
              num = offset / w;
              more = ltb (offset + w) (length body);
              size_exp = size_exp_of w;
            }),
          )
          else none)
  unfolding block_answer apply_block2
  block_answer-asked num e he hn =
      let positive : (2 ^ (k + 4) == 0) ≡ false =
        ground (arith, one-le-pow (k + 4) 2 (omega arith)) in
      let b : IsBlock (asked num e) = record { num_fits = hn; size_exp_fits = he } in
      let (req, negotiated, exact, served) =
        block_for-negotiate_block2 ((block2_option, marshal_block (asked num e)) ∷ [])
          (marshal_block (asked num e)) body (asked num e) k hk b (unfold lookup in refl)
          (parse_block_option-marshal_block (asked num e) b) fits in
      rw (positive, negotiated, block_answer) served

  -- The answer to a block in a size that the server takes.
  block_answer_in_size :
      (num e : ℕ)
      → e ≤ k
      → num < 2 ^ 20
      → let w = 2 ^ (e + 4) in
        block_answer num e body (2 ^ (k + 4)) ≡ (
          if ltb (num * w) (length body)
          then some (
            take w (drop (num * w) body),
            some (record { num = num; more = ltb (num * w + w) (length body); size_exp = e }),
          )
          else none)
  block_answer_in_size num e he hn =
      rw
        (
          block_answer-asked num e (omega arith) hn,
          min-eq_right (pow-le-pow_right two_pos {i = e + 4} {j = k + 4} (omega arith)),
          mul-div_left num (one-le-pow (e + 4) 2 (omega arith)),
          size_cases e (omega arith),
        )
        refl

  -- The first block of a size above the server's comes in the server's size.
  block_answer_first :
      (e : ℕ)
      → k ≤ e
      → e ≤ 6
      → block_answer 0 e body (2 ^ (k + 4)) ≡ block_answer 0 k body (2 ^ (k + 4))
  block_answer_first e h he =
      rw
        (
          block_answer-asked 0 e he (omega arith),
          block_answer-asked 0 k hk (omega arith),
          min-eq_left (pow-le-pow_right two_pos {i = k + 4} {j = e + 4} (omega arith)),
          min-eq_left (pow-le-pow_right two_pos {i = k + 4} {j = k + 4} (omega arith)),
          zero_times (2 ^ (e + 4)),
          zero_times (2 ^ (k + 4)),
        )
        refl

  num_fits : (num w : ℕ) → num * w < length body → length body ≤ 2 ^ 20 * w → num < 2 ^ 20
  num_fits num w lt le = grind arith

  fetch-drop :
      (fuel num e : ℕ)
      → e ≤ k
      → let w = 2 ^ (e + 4) in
        length body ≤ 2 ^ 20 * w
        → num * w < length body
        → length body ≤ num * w + fuel * w
        → fetch fuel num e body (2 ^ (k + 4)) ≡ some (drop (num * w) body)
  unfolding fetch
  fetch-drop zero num e he all lt le = absurd (omega arith)
  fetch-drop (suc fuel) num e he all lt le = elim (dec_le (length body) (num * w + w)) [
    | yes last ↦
        rw (served, here, ltb-false last, echo false, fetch)
          (ap some (take-all w (drop (num * w) body) (omega (arith, length-drop (num * w) body))))
    | no inner ↦
        rw
          (
            served,
            here,
            ltb-true {a = num * w + w} {b = length body} (omega arith),
            echo true,
            fetch-drop fuel (num + 1) e he all (omega arith) (omega arith),
            next,
            fetch,
          )
          (ap some (take-append-drop w (drop (num * w) body)))
  ]
    where
      w : ℕ
      w = 2 ^ (e + 4)

      served : block_answer num e body (2 ^ (k + 4)) ≡ (
          if ltb (num * w) (length body)
          then some (
            take w (drop (num * w) body),
            some (record { num = num; more = ltb (num * w + w) (length body); size_exp = e }),
          )
          else none)
      served = block_answer_in_size num e he (num_fits num w lt all)

      echo :
          (more : Bool)
          → let b : BlockOption = record { num = num; more = more; size_exp = e } in
            parse_block_option (marshal_block b) ≡ ok b
      echo more =
          parse_block_option-marshal_block (record { num = num; more = more; size_exp = e })
            (record { num_fits = num_fits num w lt all; size_exp_fits = omega arith })

      here : ltb (num * w) (length body) ≡ true
      here = ltb-true lt

      next : drop ((num + 1) * w) body ≡ drop w (drop (num * w) body)
      next = drop-eq ((num + 1) * w) (num * w + w) body (omega arith) ∙ drop-add (num * w) w body

  fetch_small :
      (e : ℕ)
      → e ≤ k
      → 0 < length body
      → length body ≤ 2 ^ 20 * 2 ^ (e + 4)
      → fetch (length body) 0 e body (2 ^ (k + 4)) ≡ some body
  fetch_small e he ne all =
      fetch-drop (length body) 0 e he all (omega arith) enough
      ∙ ap some (drop-eq (0 * 2 ^ (e + 4)) 0 body (zero_times (2 ^ (e + 4))))
    where
      enough : length body ≤ 0 * 2 ^ (e + 4) + length body * 2 ^ (e + 4)
      enough = grind (arith, one-le-pow (e + 4) 2 (omega arith))

  fetch_large :
      (fuel e : ℕ)
      → k ≤ e
      → e ≤ 6
      → 0 < fuel
      → fetch fuel 0 e body (2 ^ (k + 4)) ≡ fetch fuel 0 k body (2 ^ (k + 4))
  unfolding fetch
  fetch_large zero e h he pos = absurd (omega arith)
  fetch_large (suc fuel) e h he pos = rw (block_answer_first e h he, fetch)

block_small : (e : ℕ) → e ≤ 6 → 2 ^ (e + 4) ≤ 1024
block_small e he = pow-le-pow_right two_pos {i = e + 4} {j = 10} (omega arith)

-- A client that asks for a body of at least one byte block by block gets it, whole and in order,
-- over the Block2 options that it sends and the server echoes. It starts with any block size, the
-- server's limit is any block size, and the body has at most 2 ^ 20 blocks of the smaller of the two,
-- which is what a block number can name.
pub fetch_whole :
    (body : List ℕ) (k e : ℕ)
    → k ≤ 6
    → e ≤ 6
    → 0 < length body
    → length body ≤ 2 ^ 20 * 2 ^ (min k e + 4)
    → fetch (length body) 0 e body (2 ^ (k + 4)) ≡ some body
fetch_whole body k e hk he ne all = elim (dec_le e k) [
  | yes small ↦
      let size : length body ≤ 2 ^ 20 * 2 ^ (e + 4) = rw (min-eq_right small) at all in
      fetch_small body k hk (omega (arith, size, block_small e he)) e small ne size
  | no large ↦
      let above : k ≤ e = omega arith in
      let size : length body ≤ 2 ^ 20 * 2 ^ (k + 4) = rw (min-eq_left above) at all in
      let fits : length body < 2 ^ 32 = omega (arith, size, block_small k hk) in
      fetch_large body k hk fits (length body) e above he ne
      ∙ fetch_small body k hk fits k (omega arith) ne size
]
