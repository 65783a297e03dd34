-- ===== src/Coap/Block.antt =====
-- Block-wise transfer: internal/transport/coap/blockwise.go. A body is a list of bytes.
pub mod Codec
pub mod Transfer
mod Tests
use shark_socket.Base.{
  ℕ, zero, suc, ◌+◌, ◌-◌, ◌*◌, ◌/◌, ◌%◌, ◌^◌, Bool, true, false, not, ◌&&◌, ◌||◌, Option, none,
  some, List, [], ◌∷◌, bit_and, bit_or, ltb, leb, ◌==◌, if◌then◌else◌, length, take, drop, Result,
  ok, err,
}
use shark_socket.Base.Maps.{lookup, nat_eq}
use shark_socket.Coap.Message.{Options}

abbrev pub block2_option : ℕ
block2_option = 23

abbrev pub max_block_size_exp : ℕ
max_block_size_exp = 6

pub data BlockError : Type 0 where
  invalid_block_option : BlockError

pub record BlockOption : Type 0 where
  pub num : ℕ  -- uint32
  pub more : Bool
  pub size_exp : ℕ  -- uint8

-- `1 << (SizeExp + 4)`
pub size : BlockOption → ℕ
size b = 2 ^ ((b.size_exp + 4) % 256)

-- The three bytes with the leading zeros dropped, but the last byte kept.
drop_zeros : List ℕ → List ℕ
drop_zeros (a ∷ b ∷ rest) = if a == 0 then drop_zeros (b ∷ rest) else a ∷ b ∷ rest
drop_zeros (a ∷ []) = a ∷ []
drop_zeros [] = []

block_bytes : ℕ → List ℕ
block_bytes raw =
    if raw == 0 then [] else drop_zeros ((raw / 65536 % 256) ∷ (raw / 256 % 256) ∷ (raw % 256) ∷ [])

pub marshal_block : BlockOption → List ℕ
unfolding block_bytes drop_zeros
marshal_block b =
    let raw = bit_or (b.num * 16 % 2 ^ 32) b.size_exp in
    block_bytes (if b.more then bit_or raw 0x08 else raw)

-- The loop over the value's bytes.
read_raw : ℕ → List ℕ → ℕ
read_raw raw [] = raw
read_raw raw (c ∷ v) = read_raw (bit_or (raw * 256 % 2 ^ 32) c) v

pub parse_block_option : List ℕ → Result BlockError BlockOption
unfolding read_raw
parse_block_option v =
    let raw = read_raw 0 v in
    if ltb 3 (length v)
    then err invalid_block_option
    else if ltb max_block_size_exp (bit_and raw 0x07)
    then err invalid_block_option
    else ok
        (record { num = raw / 16; more = not (bit_and raw 0x08 == 0); size_exp = bit_and raw 0x07 })

-- The loop of `sizeExp` from `exp` on, with `left` rounds to go.
size_exp_from : ℕ → ℕ → ℕ → ℕ
size_exp_from zero exp s = max_block_size_exp
size_exp_from (suc left) exp s =
    let rest = size_exp_from left (exp + 1) s in if 2 ^ (exp + 4) == s then exp else rest

pub size_exp_of : ℕ → ℕ
unfolding size_exp_from
size_exp_of s = size_exp_from 7 0 s

-- The chunk and whether anything follows it; `none` is `ok == false`. Offsets are uint64.
pub slice_block : List ℕ → ℕ → ℕ → Option (List ℕ × Bool)
slice_block body num s =
    let offset = num * s % 2 ^ 64 in
    let end = (offset + s) % 2 ^ 64 in
    if leb (length body) offset
    then none
    else if leb (length body) end
    then some (drop offset body, false)
    else some (take (end - offset) (drop offset body), true)

pub record BlockRequest : Type 0 where
  pub present : Bool
  pub offset : ℕ  -- uint64
  pub req_size : ℕ

pub negotiate_block2 : Options → ℕ → Result BlockError BlockRequest
negotiate_block2 values max_size = elim (lookup block2_option values) [
  | none ↦ ok (record { present = false; offset = 0; req_size = max_size })
  | some v ↦ elim (parse_block_option v) [
    | err e ↦ err e
    | ok opt ↦ ok (record {
      present = true;
      offset = opt.num * size opt % 2 ^ 64;
      req_size = if ltb max_size (size opt) then max_size else size opt;
    })
  ]
]

-- The chunk and the option to echo; `none` is `ok == false`.
pub block_for : List ℕ → BlockRequest → Option (List ℕ × Option BlockOption)
block_for body req =
    let num = req.offset / req.req_size % 2 ^ 32 in
    if not req.present && leb (length body) req.req_size
    then some (body, none)
    else elim (slice_block body num req.req_size) [
      | none ↦ none
      | some (chunk, more) ↦
          some
            (chunk, some (record { num = num; more = more; size_exp = size_exp_of req.req_size }))
    ]
