-- ===== src/Coap/Server/Sequence.antt =====
-- The sequence numbers of notifications on the wire.
use shark_socket.Base.{ℕ, ◌+◌, ◌*◌, ◌%◌, ◌^◌, ◌≤◌, ◌≡◌, List, [], ◌∷◌, arith, length}
use shark_socket.Coap.Server.{exchange_eq, encode_observe_seq}

-- A number of big-endian bytes.
abbrev pub big_endian : ℕ → List ℕ → ℕ
big_endian n [] = n
big_endian n (b ∷ bytes) = big_endian (n * 256 + b) bytes

-- The sequence number of a notification is read back modulo 2^24, from at most three bytes.
pub big_endian-encode_observe_seq :
    (seq : ℕ)
    → (big_endian 0 (encode_observe_seq seq) ≡ seq % 2 ^ 24) × (length (encode_observe_seq seq) ≤ 3)
unfolding encode_observe_seq
big_endian-encode_observe_seq seq = (ground arith, ground arith)
