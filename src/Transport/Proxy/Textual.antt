-- ===== src/Transport/Proxy/Textual.antt =====
-- What a proxy writes in version 1 is read back.
use shark_socket.Base.{
  ℕ, ◌+◌, ◌-◌, ◌<◌, ◌≤◌, ◌≡◌, ◌⊎◌, refl, sym, ap, subst, ◌∙◌, Bool, true, false, Option, some, List,
  [], ◌∷◌, ◌++◌, arith, leb, length, take, All, ok, length-append, append_assoc, inl, inr,
  take-append_length, pos, atoi,
}
use shark_socket.Base.Maps.{text_beq}
use shark_socket.Base.Streams.{found, read_slice}
use shark_socket.Transport.Proxy.{
  ProxyMode, v1, auto, ProxyHeader, split, is_v4, parse_proxy_ip, parse_proxy_port, parse_pair,
  parse_fields, parse_line, header_of, read_proxy_v1, peek_read, read_by_mode, read_proxy_header,
  proxy_v1_signature, has_prefix, tcp4_family, tcp6_family,
}
use shark_socket.Transport.Proxy.Words.{
  lacks, joined, split-joined, lacks-append, lacks-joined, read_slice-line, get_or-append,
}

module _ (parse_ip : List ℕ → Option (List ℕ)) where
  parse_line-text :
      (s : List ℕ)
      → length s + 2 ≤ 107
      → parse_line parse_ip (s ++ 0x0D ∷ 0x0A ∷ []) ≡ parse_fields parse_ip (split 32 s)
  unfolding parse_line
  parse_line-text s small =
      let line = s ++ 0x0D ∷ 0x0A ∷ [] in
      let at : length line - 2 ≡ length s = omega (arith, length-append s (0x0D ∷ 0x0A ∷ [])) in
      let fits : leb (length line) 107 ≡ true =
        ground (arith, length-append s (0x0D ∷ 0x0A ∷ [])) in
      let two : leb 2 (length line) ≡ true = ground (arith, length-append s (0x0D ∷ 0x0A ∷ [])) in
      rw
        (
          at,
          fits,
          two,
          get_or-append s (0x0D ∷ 0x0A ∷ []),
          take-append_length s (0x0D ∷ 0x0A ∷ []),
          parse_line,
        )
        refl

  parse_proxy_ip-some :
      (s ip : List ℕ) (want : Bool)
      → parse_ip s ≡ some ip
      → is_v4 ip ≡ want
      → parse_proxy_ip parse_ip s want ≡ ok ip
  unfolding parse_proxy_ip
  parse_proxy_ip-some s ip true e v = ground (arith, e, v)
  parse_proxy_ip-some s ip false e v = ground (arith, e, v)

  parse_proxy_port-some :
      (s : List ℕ) (port : ℕ)
      → atoi s ≡ some (pos port)
      → port < 65536
      → parse_proxy_port parse_ip s ≡ ok port
  unfolding parse_proxy_port
  parse_proxy_port-some s port e h = ground (arith, e)

  -- The family that is named for the addresses.
  abbrev pub family_name : Bool → List ℕ
  family_name true = tcp4_family
  family_name false = tcp6_family

  read_proxy_v1-text :
      (s r : List ℕ) (h : ProxyHeader)
      → lacks 0x0A s ≡ true
      → length s + 2 ≤ 107
      → parse_fields parse_ip (split 0x20 s) ≡ ok h
      → read_proxy_v1 parse_ip (s ++ (0x0D ∷ 0x0A ∷ r)) ≡ ok (h, r)
  unfolding read_proxy_v1 header_of
  read_proxy_v1-text s r h clean small parsed =
      let body = s ++ (0x0D ∷ []) in
      let sliced : read_slice 256 0x0A (s ++ (0x0D ∷ 0x0A ∷ r))
          ≡ found (s ++ (0x0D ∷ 0x0A ∷ [])) r =
        ap (λ t. read_slice 256 0x0A t) (sym (append_assoc s (0x0D ∷ []) (0x0A ∷ r)))
        ∙ read_slice-line 256 0x0A body r
            (lacks-append 0x0A s (0x0D ∷ []) clean (unfold lacks in refl))
            (omega (arith, length-append s (0x0D ∷ [])))
        ∙ ap (λ t. found t r) (append_assoc s (0x0D ∷ []) (0x0A ∷ [])) in
      rw (sliced, parse_line-text s small, parsed, read_proxy_v1, header_of) refl

  parse_pair-some :
      (want : Bool) (a b s d src dst : List ℕ) (sport dport : ℕ)
      → (parse_ip a ≡ some src) × (is_v4 src ≡ want)
      → (parse_ip b ≡ some dst) × (is_v4 dst ≡ want)
      → (atoi s ≡ some (pos sport)) × (sport < 65536)
      → (atoi d ≡ some (pos dport)) × (dport < 65536)
      → parse_pair parse_ip want (a ∷ b ∷ s ∷ d ∷ [])
        ≡ ok record {
          source = some record { ip = src; port = sport; dgram = false };
          dest = some record { ip = dst; port = dport; dgram = false };
        }
  unfolding parse_pair
  parse_pair-some want a b s d src dst sport dport ea eb es ed =
      rw
        (
          parse_proxy_ip-some a src want ea.0 ea.1,
          parse_proxy_ip-some b dst want eb.0 eb.1,
          parse_proxy_port-some s sport es.0 es.1,
          parse_proxy_port-some d dport ed.0 ed.1,
          parse_pair,
        )
        refl

  parse_fields-family_name :
      (want : Bool) (fields : List (List ℕ))
      → parse_fields parse_ip (take 5 proxy_v1_signature ∷ family_name want ∷ fields)
        ≡ parse_pair parse_ip want fields
  unfolding parse_fields text_beq
  parse_fields-family_name true fields = refl
  parse_fields-family_name false fields = refl

  -- The words that the header itself brings.
  words_clean :
      (want : Bool)
      → (length (family_name want) ≡ 4)
        × All
            (λ t. (lacks 0x20 t ≡ true) × (lacks 0x0A t ≡ true))
            (take 5 proxy_v1_signature ∷ family_name want ∷ [])
  unfolding lacks
  words_clean true = (refl, ((refl, refl), ((refl, refl), tt)))
  words_clean false = (refl, ((refl, refl), ((refl, refl), tt)))

  -- A long text that starts as version 1 does goes to its reader.
  read_proxy_header-v1 :
      (mode : ProxyMode) (t : List ℕ)
      → (mode ≡ v1) ⊎ (mode ≡ auto)
      → 6 ≤ length t
      → read_proxy_header parse_ip mode (proxy_v1_signature ++ t)
        ≡ read_proxy_v1 parse_ip (proxy_v1_signature ++ t)
  unfolding read_proxy_header peek_read read_by_mode has_prefix
  read_proxy_header-v1 mode t m long = elim m [
    | inl one ↦
        subst
          (λ k.
            read_proxy_header parse_ip k (proxy_v1_signature ++ t)
            ≡ read_proxy_v1 parse_ip (proxy_v1_signature ++ t))
          (sym one) (ground (arith, long))
    | inr either ↦
        subst
          (λ k.
            read_proxy_header parse_ip k (proxy_v1_signature ++ t)
            ≡ read_proxy_v1 parse_ip (proxy_v1_signature ++ t))
          (sym either) (ground (arith, long))
  ]

  pub read_proxy_header-joined :
      (mode : ProxyMode) (want : Bool) (a b s d src dst : List ℕ) (sport dport : ℕ) (r : List ℕ)
      → (mode ≡ v1) ⊎ (mode ≡ auto)
      → All (λ t. (lacks 0x20 t ≡ true) × (lacks 0x0A t ≡ true)) (a ∷ b ∷ s ∷ d ∷ [])
      → (parse_ip a ≡ some src) × (is_v4 src ≡ want)
      → (parse_ip b ≡ some dst) × (is_v4 dst ≡ want)
      → (atoi s ≡ some (pos sport)) × (sport < 65536)
      → (atoi d ≡ some (pos dport)) × (dport < 65536)
      → length (joined 0x20 (take 5 proxy_v1_signature ∷ family_name want ∷ a ∷ b ∷ s ∷ d ∷ [])) + 2
        ≤ 107
      → read_proxy_header parse_ip mode (
          joined 0x20 (take 5 proxy_v1_signature ∷ family_name want ∷ a ∷ b ∷ s ∷ d ∷ [])
          ++ (0x0D ∷ 0x0A ∷ r))
        ≡ ok (
          record {
            source = some record { ip = src; port = sport; dgram = false };
            dest = some record { ip = dst; port = dport; dgram = false };
          },
          r,
        )
  read_proxy_header-joined mode want a b s d src dst sport dport r m clean ea eb es ed small =
      let fields = take 5 proxy_v1_signature ∷ family_name want ∷ a ∷ b ∷ s ∷ d ∷ [] in
      let (four, (w, (f, none_more))) = words_clean want in
      let (ca, (cb, (cs, (cd, no_more)))) = clean in
      let tail = joined 0x20 (family_name want ∷ a ∷ b ∷ s ∷ d ∷ []) in
      read_proxy_header-v1 mode (tail ++ (0x0D ∷ 0x0A ∷ r)) m (
        omega (
          arith,
          length-append tail (0x0D ∷ 0x0A ∷ r),
          four,
          length-append (family_name want) (0x20 ∷ joined 0x20 (a ∷ b ∷ s ∷ d ∷ [])),
        ))
      ∙ read_proxy_v1-text (joined 0x20 fields) r _
          (lacks-joined 0x0A 0x20 fields refl (w.1, (f.1, (ca.1, (cb.1, (cs.1, (cd.1, tt)))))))
          small
          (ap (parse_fields parse_ip) (
              split-joined 0x20 (take 5 proxy_v1_signature) (family_name want ∷ a ∷ b ∷ s ∷ d ∷ [])
                (w.0, (f.0, (ca.0, (cb.0, (cs.0, (cd.0, tt)))))))
            ∙ parse_fields-family_name want (a ∷ b ∷ s ∷ d ∷ [])
            ∙ parse_pair-some want a b s d src dst sport dport ea eb es ed)
