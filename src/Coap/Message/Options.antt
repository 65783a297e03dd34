-- ===== src/Coap/Message/Options.antt =====
-- The options of a message: the list of options that `Marshal` writes, and the loop of
-- `parseOptions` on what it wrote and on any input.
use shark_socket.Base.{
  ℕ, zero, suc, ◌+◌, ◌-◌, ◌%◌, ◌≤◌, ◌<◌, ◌≡◌, refl, ap, ◌∙◌, some, List, [], ◌∷◌, ◌++◌, arith,
  length, ok, append_assoc, append-nil, length-append,
}
use native.Mathlib.Nat.{mod-eq_of_lt}
use shark_socket.Base.Maps.{insert, nat_eq}
use shark_socket.Coap.Message.{
  Options, parse_option, parse_loop, encode_option, encode_options, value_of, put_payload,
}
use shark_socket.Coap.Message.Header.{
  header, extended, option_nibble-le, encode_option_header-header, parse_option-header,
}

-- The numbers rise from `prev` on and stay in 16 bits; each value is shorter than 2 ^ 16.
abbrev pub Rising : Options → ℕ → List ℕ → Type 0
Rising options prev [] = Unit {0}
Rising options prev (num ∷ nums) =
    (prev ≤ num) × (num < 65536) × (length (value_of options num) < 65536) × Rising options num nums

-- What `Marshal` writes for a list of numbers.
pub written : Options → List ℕ → ℕ → List ℕ
written options [] prev = []
written options (num ∷ nums) prev =
    header (num - prev) (length (value_of options num))
    ++ (value_of options num ++ written options nums num)

unfoldable pub insert_all : Options → List ℕ → Options → Options
insert_all options [] acc = acc
insert_all options (num ∷ nums) acc =
    insert_all options nums (insert num (value_of options num) acc)

encode_option-header :
    (delta : ℕ) (value : List ℕ)
    → delta < 65536
    → length value < 65536
    → encode_option delta value ≡ ok (header delta (length value) ++ value)
unfolding encode_option
encode_option-header delta value hd hl =
    rw (mod-eq_of_lt hl, encode_option_header-header delta (length value) hd hl)

-- `num - prev`, in 16 bits.
delta_of : (num prev : ℕ) → prev ≤ num → num < 65536 → (num + 65536 - prev) % 65536 ≡ num - prev
delta_of num prev le lt = omega arith

pub encode_options-written :
    (options : Options) (nums : List ℕ) (prev : ℕ) (out : List ℕ)
    → Rising options prev nums
    → encode_options options nums prev out ≡ ok (out ++ written options nums prev)
unfolding encode_options written
encode_options-written options [] prev out r = rw append-nil
encode_options-written options (num ∷ nums) prev out (le, lt, short, rest) =
    rw (delta_of num prev le lt, encode_option-header (num - prev) _ (omega arith) short)
      (encode_options-written options nums num _ rest ∙ ap ok (simp append_assoc))

-- A round of the loop on an option that can be read.
pub parse_loop_step :
    (fuel prev : ℕ) (acc : Options) (b num : ℕ) (rest val behind : List ℕ)
    → b < 255
    → parse_option prev (b ∷ rest) ≡ some (num, val, behind)
    → parse_loop (suc fuel) prev acc (b ∷ rest) ≡ parse_loop fuel num (insert num val acc) behind
unfolding parse_loop
parse_loop_step fuel prev acc b num rest val behind h e = ground (arith, e)

-- The loop on the payload behind the last option.
parse_loop-payload :
    (fuel prev : ℕ) (acc : Options) (payload : List ℕ)
    → length (put_payload payload) ≤ fuel
    → parse_loop fuel prev acc (put_payload payload) ≡ (acc, payload)
unfolding parse_loop
parse_loop-payload zero prev acc [] h = refl
parse_loop-payload (suc fuel) prev acc [] h = refl
parse_loop-payload zero prev acc (b ∷ bs) h = absurd (omega arith)
parse_loop-payload (suc fuel) prev acc (b ∷ bs) h = refl

parse_option-written :
    (prev num : ℕ) (value rest tail : List ℕ)
    → prev ≤ num
    → num < 65536
    → length value < 65536
    → parse_option prev (header (num - prev) (length value) ++ (value ++ rest) ++ tail)
      ≡ some (num, value, rest ++ tail)
parse_option-written prev num value rest tail le lt short = simp append_assoc (
    simp append_assoc at
      (parse_option-header prev (num - prev) value (rest ++ tail) (omega arith) short)
    ∙ ap (λ n. some (n, value, rest ++ tail)) (omega arith))

length-behind :
    (delta : ℕ) (value rest tail : List ℕ) (fuel : ℕ)
    → length (header delta (length value) ++ (value ++ rest) ++ tail) ≤ suc fuel
    → length (rest ++ tail) ≤ fuel
length-behind delta value rest tail fuel h =
    let front = extended delta ++ extended (length value) in
    omega (
      arith,
      length-append (front ++ (value ++ rest)) tail,
      length-append front (value ++ rest),
      length-append value rest,
      length-append rest tail,
    )

-- The last number of the list, or `prev` for none.
abbrev pub last_num : ℕ → List ℕ → ℕ
last_num prev [] = prev
last_num prev (num ∷ nums) = last_num num nums

-- The loop reads back the options that were written, one round for each, and goes on with the rest.
pub parse_loop-written_more :
    (options : Options) (nums : List ℕ) (prev : ℕ) (tail : List ℕ) (acc : Options) (fuel : ℕ)
    (r : Options × List ℕ)
    → Rising options prev nums
    → length (written options nums prev ++ tail) ≤ fuel
    → ((f : ℕ)
        → length tail ≤ f
        → parse_loop f (last_num prev nums) (insert_all options nums acc) tail ≡ r)
    → parse_loop fuel prev acc (written options nums prev ++ tail) ≡ r
unfolding written insert_all
parse_loop-written_more options [] prev tail acc fuel r w h k = k fuel h
parse_loop-written_more options (num ∷ nums) prev tail acc zero r (le, lt, short, rest) h k =
    absurd (omega arith)
parse_loop-written_more options (num ∷ nums) prev tail acc (suc fuel) r (le, lt, short, rest) h k =
    parse_loop_step fuel prev acc _ num _ _ _
      (omega
        (arith, option_nibble-le (num - prev), option_nibble-le (length (value_of options num))))
      (parse_option-written prev num (value_of options num) (written options nums num) _ le lt
        short)
    ∙ parse_loop-written_more options nums num tail _ fuel r rest
        (length-behind (num - prev) (value_of options num) (written options nums num) _ fuel h) k

pub parse_loop-written :
    (options : Options) (nums : List ℕ) (prev : ℕ) (payload : List ℕ) (acc : Options) (fuel : ℕ)
    → Rising options prev nums
    → length (written options nums prev ++ put_payload payload) ≤ fuel
    → parse_loop fuel prev acc (written options nums prev ++ put_payload payload)
      ≡ (insert_all options nums acc, payload)
parse_loop-written options nums prev payload acc fuel w h =
    parse_loop-written_more options nums prev (put_payload payload) acc fuel _ w h
      λ f hf. parse_loop-payload f _ _ payload hf
