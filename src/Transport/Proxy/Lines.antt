-- ===== src/Transport/Proxy/Lines.antt =====
-- A line of version 1 that parses has at least twelve bytes, those that `Peek` waits for.
use shark_socket.Base.{
  ℕ, ◌+◌, ◌-◌, ◌≤◌, ◌≡◌, ◌≢◌, refl, ap, ◌&&◌, Bool, true, false, Option, List, [], ◌∷◌, arith, leb,
  ◌==◌, length, take, get_or, ok, guard, Bool-cases, length-take, inl, inr, bind_ok,
}
use shark_socket.Base.Maps.{text_beq, text_beq_iff}
use shark_socket.Transport.Proxy.{
  ProxyHeader, header_invalid, header_too_long, split, prepend, parse_pair, parse_fields,
  parse_line, proxy_v1_signature, unknown_family, tcp4_family, tcp6_family,
}

-- The pieces with a separator behind each.
abbrev sizes : List (List ℕ) → ℕ
sizes [] = 0
sizes (piece ∷ pieces) = length piece + 1 + sizes pieces

sizes-prepend :
    (b : ℕ) (pieces : List (List ℕ)) → pieces ≢ [] → sizes (prepend b pieces) ≡ sizes pieces + 1
unfolding prepend
sizes-prepend b [] h = absurd (h refl)
sizes-prepend b (piece ∷ pieces) h = omega arith

prepend_some : (b : ℕ) (pieces : List (List ℕ)) → prepend b pieces ≢ []
unfolding prepend
prepend_some b [] h = ground (arith, h)
prepend_some b (piece ∷ pieces) h = ground (arith, h)

split-sizes : (sep : ℕ) (s : List ℕ) → (sizes (split sep s) ≡ length s + 1) × (split sep s ≢ [])
unfolding split prepend
split-sizes sep [] = (omega arith, λ h. ground (arith, h))
split-sizes sep (b ∷ s) =
    let (inner, some_piece) = split-sizes sep s in
    elim (Bool-cases (b == sep)) [
      | inl same ↦ rw (same, split) (omega (arith, inner), λ h. ground (arith, h))
      | inr other ↦
          rw (other, split)
            (
              omega (arith, sizes-prepend b (split sep s) some_piece, inner),
              prepend_some b (split sep s),
            )
    ]

module _ (parse_ip : List ℕ → Option (List ℕ)) where
  parse_pair-sizes :
      (want : Bool) (fields : List (List ℕ)) (h : ProxyHeader)
      → parse_pair parse_ip want fields ≡ ok h
      → 4 ≤ sizes fields
  unfolding parse_pair
  parse_pair-sizes want (a ∷ b ∷ s ∷ d ∷ []) h e = omega arith
  parse_pair-sizes want [] h e = absurd (ground (arith, e))
  parse_pair-sizes want (a ∷ []) h e = absurd (ground (arith, e))
  parse_pair-sizes want (a ∷ b ∷ []) h e = absurd (ground (arith, e))
  parse_pair-sizes want (a ∷ b ∷ s ∷ []) h e = absurd (ground (arith, e))
  parse_pair-sizes want (a ∷ b ∷ s ∷ d ∷ c ∷ more) h e = absurd (ground (arith, e))

  parse_fields-sizes :
      (fields : List (List ℕ)) (h : ProxyHeader)
      → parse_fields parse_ip fields ≡ ok h
      → 14 ≤ sizes fields
  unfolding parse_fields
  parse_fields-sizes [] h e = absurd (ground (arith, e))
  parse_fields-sizes (word ∷ []) h e = absurd (ground (arith, e))
  parse_fields-sizes (word ∷ fam ∷ fields) h e =
      elim (Bool-cases (text_beq word (take 5 proxy_v1_signature))) [
        | inr differs ↦ absurd (ground (arith, e, differs))
        | inl agrees ↦
            let five : length word ≡ 5 =
              ap (λ t. length t) ((text_beq_iff word (take 5 proxy_v1_signature)).0 agrees) in
            elim (Bool-cases (text_beq fam unknown_family)) [
              | inl u ↦
                  omega (arith, five, ap (λ t. length t) ((text_beq_iff fam unknown_family).0 u))
              | inr no_u ↦ elim (Bool-cases (text_beq fam tcp4_family)) [
                | inl f ↦ omega (
                  arith,
                  five,
                  ap (λ t. length t) ((text_beq_iff fam tcp4_family).0 f),
                  parse_pair-sizes true fields h (ground (arith, e, agrees, no_u, f)),
                )
                | inr no_f ↦ elim (Bool-cases (text_beq fam tcp6_family)) [
                  | inl six ↦ omega (
                    arith,
                    five,
                    ap (λ t. length t) ((text_beq_iff fam tcp6_family).0 six),
                    parse_pair-sizes false fields h (ground (arith, e, agrees, no_u, no_f, six)),
                  )
                  | inr no_six ↦ absurd (ground (arith, e, agrees, no_u, no_f, no_six))
                ]
              ]
            ]
      ]

  pub parse_line_long :
      (line : List ℕ) (h : ProxyHeader) → parse_line parse_ip line ≡ ok h → 12 ≤ length line
  unfolding parse_line
  parse_line_long line h e =
      let (u, e₁, k₁) = bind_ok (guard (leb (length line) 107) header_too_long) _ _ e in
      let (u', e₂, k₂) =
        bind_ok
          (guard (leb 2 (length line) && get_or line (length line - 2) 0 == 0x0D) header_invalid) _
          _ k₁ in
      ground (
        arith,
        parse_fields-sizes (split 32 (take (length line - 2) line)) h k₂,
        (split-sizes 32 (take (length line - 2) line)).0,
        length-take (length line - 2) line,
      )
