-- ===== src/Transport/Proxy/Headers.antt =====
-- `readProxyHeader` in every mode: what it takes off the stream, and that it looks no further.
use shark_socket.Base.{
  ℕ, zero, suc, ◌≤◌, ◌≡◌, ◌≢◌, refl, sym, ap, ◌∙◌, ◌⊎◌, false, Option, List, [], ◌∷◌, ◌++◌, arith,
  ltb, length, take, ok, err, Bool-cases, length-append, append_assoc, inl, inr,
}
use shark_socket.Base.Maps.{text_beq}
use shark_socket.Transport.Proxy.{
  ProxyMode, off, v1, v2, auto, ProxyError, ProxyHeader, has_prefix, read_proxy_v2, read_proxy_v1,
  read_by_mode, peek_read, read_proxy_header, proxy_v1_signature, proxy_v2_signature, Read,
}
use shark_socket.Transport.Proxy.Fronts.{Front, read_proxy_v2-Front, read_proxy_v1-Front}

take-append_front : (n : ℕ) (a t : List ℕ) → n ≤ length a → take n (a ++ t) ≡ take n a
take-append_front zero a t h = refl
take-append_front (suc n) [] t h = absurd (omega arith)
take-append_front (suc n) (x ∷ a) t h = ap (◌∷◌ x) (take-append_front n a t (omega arith))

append_empty : (xs ys : List ℕ) → xs ++ ys ≡ [] → ys ≡ []
append_empty [] ys h = h
append_empty (x ∷ xs) ys h = absurd (ground (arith, h))

module _ (parse_ip : List ℕ → Option (List ℕ)) where
  -- The reader that the mode and the first bytes choose.
  read_by_mode-ok :
      (mode : ProxyMode) (head r rest : List ℕ) (h : ProxyHeader)
      → read_by_mode parse_ip mode head r ≡ ok (h, rest)
      → ((read_proxy_v1 parse_ip r ≡ ok (h, rest))
          × ((s : List ℕ) → read_by_mode parse_ip mode head s ≡ read_proxy_v1 parse_ip s))
        ⊎ ((read_proxy_v2 r ≡ ok (h, rest))
            × ((s : List ℕ) → read_by_mode parse_ip mode head s ≡ read_proxy_v2 s))
  unfolding read_by_mode
  read_by_mode-ok off head r rest h e = absurd (ground (arith, e))
  read_by_mode-ok v1 head r rest h e = elim (Bool-cases (has_prefix head proxy_v1_signature)) [
    | inl one ↦ inl (ground (arith, e, one), λ s. rw (one, read_by_mode) refl)
    | inr other ↦ absurd (ground (arith, e, other))
  ]
  read_by_mode-ok v2 head r rest h e = elim (Bool-cases (text_beq head proxy_v2_signature)) [
    | inl two ↦ inr (ground (arith, e, two), λ s. rw (two, read_by_mode) refl)
    | inr other ↦ absurd (ground (arith, e, other))
  ]
  read_by_mode-ok auto head r rest h e = elim (Bool-cases (has_prefix head proxy_v1_signature)) [
    | inl one ↦ inl (ground (arith, e, one), λ s. rw (one, read_by_mode) refl)
    | inr other ↦ elim (Bool-cases (text_beq head proxy_v2_signature)) [
      | inl two ↦ inr (ground (arith, e, other, two), λ s. rw (other, two, read_by_mode) refl)
      | inr neither ↦ absurd (ground (arith, e, other, neither))
    ]
  ]

  -- The same header read through `Peek`.
  peeked-Front :
      (mode : ProxyMode) (read : List ℕ → Read) (limit : ℕ) (h : ProxyHeader) (r rest : List ℕ)
      → limit ≤ 2064
      → (f : Front read limit h r rest)
      → ((s : List ℕ) → read_by_mode parse_ip mode (take 12 r) s ≡ read s)
      → Front (peek_read parse_ip mode) 2064 h r rest
  unfolding peek_read
  peeked-Front mode read limit h r rest small f chosen = record {
    header = f.header;
    whole = f.whole;
    bound = omega (arith, f.bound);
    long = f.long;
    again = λ t.
        let same : take 12 (f.header ++ t) ≡ take 12 r =
          take-append_front 12 f.header t f.long
          ∙ sym (take-append_front 12 f.header rest f.long)
          ∙ ap (λ s. take 12 s) (sym f.whole) in
        let enough : ltb (length (f.header ++ t)) 12 ≡ false =
          ground (arith, f.long, length-append f.header t) in
        rw (enough, same, peek_read) (chosen (f.header ++ t) ∙ f.again t);
  }

  peek_read-Front :
      (mode : ProxyMode) (h : ProxyHeader) (r rest : List ℕ)
      → peek_read parse_ip mode r ≡ ok (h, rest)
      → Front (peek_read parse_ip mode) 2064 h r rest
  unfolding peek_read
  peek_read-Front mode h r rest e = elim (Bool-cases (ltb (length r) 12)) [
    | inl short ↦ absurd (ground (arith, e, short))
    | inr enough ↦ elim (read_by_mode-ok mode (take 12 r) r rest h (ground (arith, e, enough))) [
      | inl (one, chosen) ↦
          peeked-Front mode (read_proxy_v1 parse_ip) 256 h r rest (omega arith)
            (read_proxy_v1-Front parse_ip h r rest one) chosen
      | inr (two, chosen) ↦
          peeked-Front mode read_proxy_v2 2064 h r rest (omega arith)
            (read_proxy_v2-Front h r rest two) chosen
    ]
  ]

  pub read_proxy_header-Front :
      (mode : ProxyMode) (h : ProxyHeader) (r rest : List ℕ)
      → read_proxy_header parse_ip mode r ≡ ok (h, rest)
      → Front (read_proxy_header parse_ip mode) 2064 h r rest
  unfolding read_proxy_header
  read_proxy_header-Front off h r rest e = absurd (ground (arith, e))
  read_proxy_header-Front v1 h r rest e = peek_read-Front v1 h r rest e
  read_proxy_header-Front v2 h r rest e = peek_read-Front v2 h r rest e
  read_proxy_header-Front auto h r rest e = peek_read-Front auto h r rest e

  -- A header that is cut short is none.
  pub read_proxy_header_cut :
      (mode : ProxyMode) (h : ProxyHeader) (cut more : List ℕ)
      → more ≢ []
      → read_proxy_header parse_ip mode (cut ++ more) ≡ ok (h, [])
      → (e : ProxyError) × (read_proxy_header parse_ip mode cut ≡ err e)
  read_proxy_header_cut mode h cut more some_more e = go (read_proxy_header parse_ip mode cut) refl
    where
      go :
          (a : Read)
          → read_proxy_header parse_ip mode cut ≡ a
          → (e : ProxyError) × (read_proxy_header parse_ip mode cut ≡ err e)
      go (err x) same = (x, same)
      go (ok (h', rest)) same =
          let f = read_proxy_header-Front mode h' cut rest same in
          let again : read_proxy_header parse_ip mode (cut ++ more) ≡ ok (h', rest ++ more) =
            ap (λ t. read_proxy_header parse_ip mode (t ++ more)) f.whole
            ∙ ap (λ t. read_proxy_header parse_ip mode t) (append_assoc f.header rest more)
            ∙ f.again (rest ++ more) in
          absurd (some_more (append_empty rest more (ground (arith, e, again))))
