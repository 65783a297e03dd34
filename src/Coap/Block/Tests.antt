-- ===== src/Coap/Block/Tests.antt =====
-- Runs of the block-wise functions, and the theorems at concrete inputs.
use shark_socket.Base.{ℕ, ◌≡◌, refl, List, [], ◌∷◌, arith, ok, true, false, replicate}
use shark_socket.Base.Maps.{nat_eq}
use shark_socket.Coap.Block.{BlockOption, marshal_block, parse_block_option}
use shark_socket.Coap.Block.Codec.{parse_block_option-marshal_block}

abbrev third : BlockOption
third = record { num = 300; more = true; size_exp = 5 }

third_bytes : marshal_block third ≡ 0x12 ∷ 0xcd ∷ []
unfolding marshal_block
third_bytes = refl

third_read : parse_block_option (0x12 ∷ 0xcd ∷ []) ≡ ok third
unfolding parse_block_option
third_read = refl

parse_block_option-marshal_block_example : parse_block_option (marshal_block third) ≡ ok third
parse_block_option-marshal_block_example = parse_block_option-marshal_block third (omega arith)

-- A value with a leading zero byte is accepted, and written back shorter.
padded_read : parse_block_option (0x00 ∷ 0x12 ∷ 0xcd ∷ []) ≡ ok third
unfolding parse_block_option
padded_read = refl

abbrev page : List ℕ
page = replicate 40 9

abbrev second_at_32 : BlockOption
second_at_32 = record { num = 1; more = false; size_exp = 1 }
