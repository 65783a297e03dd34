-- ===== src/Coap/Message/Layout.antt =====
-- The bytes of an option, and of all options with what follows them, as `parseOptions` takes them.
use shark_socket.Base.{
  ℕ, zero, suc, ◌+◌, ◌/◌, ◌≤◌, ◌<◌, ◌≡◌, refl, ap, ◌∙◌, ◌≢◌, ◌⊎◌, List, [], ◌∷◌, ◌++◌, arith, false,
  ◌==◌, length, some, none, drop, bit_and, length-take, length-append, take-append-drop,
  take-append_length, drop-append_length, Option-cases, Bool-cases, inl, inr,
}
use shark_socket.Base.Maps.{insert, nat_eq}
use shark_socket.Coap.Message.{
  Options, decode_option_header, read_option_extended, parse_option, parse_loop,
}
use shark_socket.Coap.Message.Parsing.{
  Takes, parse_option-Takes, parse_loop_marker, parse_loop_stop, parse_loop_more,
}

-- The option `num` with the value `val` stands at the front of `d`, where the option before it had
-- the number `prev`: the nibbles of the first byte are not 15, the delta leads to `num`, and behind
-- the header there are all the bytes of value that the length announces.
pub record IsOption (prev : ℕ) (d : List ℕ) (num : ℕ) (val rest : List ℕ) : Type 0 where
  pub first : ℕ
  pub behind : List ℕ
  pub starts : d ≡ first ∷ behind
  pub delta_nibble : first / 16 ≤ 14
  pub length_nibble : bit_and first 0x0f ≤ 14
  pub delta : ℕ × ℕ
  pub delta_read : read_option_extended behind (first / 16) ≡ delta
  pub len : ℕ × ℕ
  pub length_read : read_option_extended (drop delta.1 behind) (bit_and first 0x0f) ≡ len
  pub rises : num ≡ prev + delta.0
  pub in_range : num < 65536
  pub announced : length val ≡ len.0
  pub lies : drop len.1 (drop delta.1 behind) ≡ val ++ rest

parse_option-IsOption :
    (prev : ℕ) (d : List ℕ) (num : ℕ) (val rest : List ℕ)
    → prev < 65536
    → parse_option prev d ≡ some (num, val, rest)
    → IsOption prev d num val rest
unfolding parse_option decode_option_header
parse_option-IsOption prev [] num val rest h e = absurd (ground arith)
parse_option-IsOption prev (b ∷ behind) num val rest h e =
    let x = read_option_extended behind (b / 16) in
    let y = read_option_extended (drop x.1 behind) (bit_and b 0x0f) in
    let d₃ = drop y.1 (drop x.1 behind) in
    record {
      first = b;
      behind = behind;
      starts = refl;
      delta_nibble = ground arith;
      length_nibble = ground arith;
      delta = x;
      delta_read = refl;
      len = y;
      length_read = refl;
      rises = ground arith;
      in_range = ground arith;
      announced = ground (arith, length-take y.0 d₃);
      lies = ground (arith, take-append-drop y.0 d₃);
    }

IsOption-parse_option :
    (prev : ℕ) (d : List ℕ) (num : ℕ) (val rest : List ℕ)
    → prev < 65536
    → IsOption prev d num val rest
    → parse_option prev d ≡ some (num, val, rest)
unfolding parse_option decode_option_header
IsOption-parse_option prev d num val rest h w =
    rw (w.starts, w.delta_read, w.length_read, w.lies, ← w.announced)
      (ground (
        arith,
        w,
        length-append val rest,
        take-append_length val rest,
        drop-append_length val rest,
      ))

-- Where the options end: at the payload marker, or, with no payload, where no option can be read.
abbrev Ends : ℕ → List ℕ → List ℕ → Type 0
Ends prev d payload =
    (d ≡ 0xff ∷ payload)
    ⊎ ((payload ≡ [])
        × ((rest : List ℕ) → d ≢ 0xff ∷ rest)
        × ((num : ℕ) (val rest : List ℕ) → ¬ IsOption prev d num val rest))

-- The options `found` stand at the front of `d`, one behind the other, and end before the payload.
pub AreOptions : ℕ → List ℕ → List (ℕ × List ℕ) → List ℕ → Type 0
AreOptions prev d [] payload = Ends prev d payload
AreOptions prev d ((num, val) ∷ found) payload =
    (rest : List ℕ) × IsOption prev d num val rest × AreOptions num rest found payload

-- An option that comes again replaces the one before it.
pub insert_each : List (ℕ × List ℕ) → Options → Options
insert_each [] acc = acc
insert_each ((num, val) ∷ found) acc = insert_each found (insert num val acc)

not_marker : (b : ℕ) (d rest : List ℕ) → (b == 0xff) ≡ false → b ∷ d ≢ 0xff ∷ rest
not_marker b d rest e same = ground (arith, same)

IsOption-no_marker :
    (prev b : ℕ) (d : List ℕ) (num : ℕ) (val rest : List ℕ)
    → IsOption prev (b ∷ d) num val rest
    → (b == 0xff) ≡ false
IsOption-no_marker prev b d num val rest w = ground (arith, w.starts, w.delta_nibble)

no-IsOption :
    (prev : ℕ) (d : List ℕ)
    → prev < 65536
    → parse_option prev d ≡ none
    → (num : ℕ) (val rest : List ℕ) → ¬ IsOption prev d num val rest
no-IsOption prev d h stop num val rest w = cc (stop, IsOption-parse_option prev d num val rest h w)

empty-Ends : (prev : ℕ) → Ends prev [] []
empty-Ends prev =
    inr (refl, (λ rest e. ground (arith, e)), λ num val rest is. absurd (ground (arith, is.starts)))

parse_loop_empty : (fuel prev : ℕ) (acc : Options) → parse_loop fuel prev acc [] ≡ (acc, [])
unfolding parse_loop
parse_loop_empty zero prev acc = refl
parse_loop_empty (suc fuel) prev acc = refl

pub parse_loop-AreOptions :
    (fuel prev : ℕ) (acc : Options) (d : List ℕ)
    → prev < 65536
    → length d ≤ fuel
    → (found : List (ℕ × List ℕ)) × AreOptions prev d found (parse_loop fuel prev acc d).1
      × ((parse_loop fuel prev acc d).0 ≡ insert_each found acc)
unfolding AreOptions insert_each
parse_loop-AreOptions fuel prev acc [] h hf =
    rw (parse_loop_empty fuel prev acc) ([], empty-Ends prev, refl)
parse_loop-AreOptions zero prev acc (b ∷ rest) h hf = absurd (omega arith)
parse_loop-AreOptions (suc fuel) prev acc (b ∷ d) h hf = elim (Bool-cases (b == 0xff)) [
  | inl marker ↦ rw (parse_loop_marker fuel prev b acc d marker) ([], inl (ground arith), refl)
  | inr option ↦ elim (Option-cases (parse_option prev (b ∷ d))) [
    | inl stop ↦
        rw (parse_loop_stop fuel prev b acc d option stop)
          ([], inr (refl, (λ rest. not_marker b d rest option), no-IsOption prev _ h stop), refl)
    | inr ((num, val, rest), more) ↦
        let t : Takes prev (b ∷ d) num val rest = parse_option-Takes prev _ num val rest h more in
        rw (parse_loop_more fuel prev b acc d num val rest option more) (
          let (found, are, same) =
            parse_loop-AreOptions fuel num (insert num val acc) rest t.in_range
              (omega (arith, t.behind_shorter)) in
          ((num, val) ∷ found, (rest, parse_option-IsOption prev _ num val rest h more, are), same))
  ]
]

pub AreOptions-parse_loop :
    (fuel prev : ℕ) (acc : Options) (d : List ℕ) (found : List (ℕ × List ℕ)) (payload : List ℕ)
    → prev < 65536
    → length d ≤ fuel
    → AreOptions prev d found payload
    → parse_loop fuel prev acc d ≡ (insert_each found acc, payload)
unfolding AreOptions insert_each
AreOptions-parse_loop fuel prev acc [] [] payload h hf (inl whole) = absurd (ground (arith, whole))
AreOptions-parse_loop fuel prev acc [] [] payload h hf (inr (bare, unmarked, unread)) =
    rw bare (parse_loop_empty fuel prev acc)
AreOptions-parse_loop fuel prev acc [] (o ∷ found) payload h hf (rest, is, are) =
    absurd (ground (arith, is.starts))
AreOptions-parse_loop zero prev acc (b ∷ d) found payload h hf are = absurd (omega arith)
AreOptions-parse_loop (suc fuel) prev acc (b ∷ d) [] payload h hf (inl whole) =
    parse_loop_marker fuel prev b acc d (ground (arith, whole))
    ∙ ap (λ left. (acc, left)) (ground (arith, whole))
AreOptions-parse_loop (suc fuel) prev acc (b ∷ d) [] payload h hf (inr (bare, unmarked, unread)) =
    elim (Bool-cases (b == 0xff)) [
      | inl marker ↦ absurd (unmarked d (ap (λ x. x ∷ d) (ground (arith, marker))))
      | inr option ↦ elim (Option-cases (parse_option prev (b ∷ d))) [
        | inl stop ↦ rw bare (parse_loop_stop fuel prev b acc d option stop)
        | inr ((num, val, rest), more) ↦
            absurd (unread num val rest (parse_option-IsOption prev _ num val rest h more))
      ]
    ]
AreOptions-parse_loop (suc fuel) prev acc (b ∷ d) ((num, val) ∷ found) payload h hf
      (rest, is, are) =
    let read : parse_option prev (b ∷ d) ≡ some (num, val, rest) =
      IsOption-parse_option prev (b ∷ d) num val rest h is in
    let t : Takes prev (b ∷ d) num val rest = parse_option-Takes prev _ num val rest h read in
    parse_loop_more fuel prev b acc d num val rest (IsOption-no_marker prev b d num val rest is)
      read
    ∙ AreOptions-parse_loop fuel num (insert num val acc) rest found payload is.in_range
        (omega (arith, t.behind_shorter)) are
