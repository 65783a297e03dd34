-- ===== src/Transport/Proxy/Binary.antt =====
-- What a proxy writes in version 2 is read back.
use shark_socket.Base.{
  ℕ, suc, ◌+◌, ◌<◌, ◌≤◌, ◌≡◌, ◌⊎◌, refl, sym, ap, subst, ◌∙◌, Bool, true, Option, some, List, [],
  ◌∷◌, ◌++◌, arith, leb, length, take, drop, get_or, ok, length-append, inl, inr, put_uint16,
  uint16_of, take-append_length, drop-append_length,
}
use shark_socket.Base.Maps.{text_beq}
use shark_socket.Transport.Proxy.{
  ProxyMode, v2, auto, ProxyHeader, family, addresses, port_at, check_fixed, parse_payload,
  read_proxy_v2, peek_read, read_by_mode, read_proxy_header, proxy_v2_signature, has_prefix,
}
use shark_socket.Transport.Proxy.Fronts.{read_proxy_v2-append}

-- The payload and the whole of a header, as the protocol lays them out.
abbrev pub payload_of : List ℕ → List ℕ → ℕ → ℕ → List ℕ → List ℕ
payload_of src dst sport dport tlvs =
    src ++ (dst ++ (put_uint16 sport ++ (put_uint16 dport ++ tlvs)))

abbrev pub fixed_of : ℕ → ℕ → ℕ → List ℕ
fixed_of version_command fam size = proxy_v2_signature ++ (version_command ∷ fam ∷ put_uint16 size)

get_or-append : (a t : List ℕ) (i : ℕ) → get_or (a ++ t) (length a + i) 0 ≡ get_or t i 0
get_or-append [] t i = ap (λ k. get_or t k 0) {y = i} (omega arith)
get_or-append (x ∷ a) t i =
    ap (λ k. get_or (x ∷ (a ++ t)) k 0) {y = suc (length a + i)} (omega arith) ∙ get_or-append a t i

-- A place behind two addresses.
get_or-behind :
    (n k i : ℕ) (src dst t : List ℕ)
    → length src ≡ n
    → length dst ≡ n
    → k ≡ n + n + i
    → get_or (src ++ (dst ++ t)) k 0 ≡ get_or t i 0
get_or-behind n k i src dst t ls ld e =
    ap (λ j. get_or (src ++ (dst ++ t)) j 0) (omega (arith, e, ls, ld))
    ∙ get_or-append src (dst ++ t) (length dst + i)
    ∙ get_or-append dst t i

-- The ports stand behind the addresses.
addresses-payload_of :
    (dgram : Bool) (n : ℕ) (src dst tlvs : List ℕ) (sport dport : ℕ)
    → length src ≡ n
    → length dst ≡ n
    → sport < 65536
    → dport < 65536
    → addresses dgram n (payload_of src dst sport dport tlvs) ≡ record {
      source = some record { ip = src; port = sport; dgram = dgram };
      dest = some record { ip = dst; port = dport; dgram = dgram };
    }
unfolding addresses port_at
addresses-payload_of dgram n src dst tlvs sport dport ls ld hs hd =
    let ports = put_uint16 sport ++ (put_uint16 dport ++ tlvs) in
    let p = src ++ (dst ++ ports) in
    let e₁ : take n p ≡ src = subst (λ k. take k p ≡ src) ls (take-append_length src _) in
    let e₂ : drop n p ≡ dst ++ ports =
      subst (λ k. drop k p ≡ dst ++ ports) ls (drop-append_length src _) in
    let e₃ : take n (dst ++ ports) ≡ dst =
      subst (λ k. take k (dst ++ ports) ≡ dst) ld (take-append_length dst _) in
    let p₁ : uint16_of (get_or p (n + n) 0) (get_or p (n + n + 1) 0) ≡ sport = omega (
      arith,
      get_or-behind n (n + n) 0 src dst ports ls ld (omega arith),
      get_or-behind n (n + n + 1) 1 src dst ports ls ld refl,
    ) in
    let p₂ : uint16_of (get_or p (n + n + 2) 0) (get_or p (n + n + 2 + 1) 0) ≡ dport = omega (
      arith,
      get_or-behind n (n + n + 2) 2 src dst ports ls ld refl,
      get_or-behind n (n + n + 2 + 1) 3 src dst ports ls ld (omega arith),
    ) in
    rw (e₁, e₂, e₃, p₁, p₂) refl

parse_payload-payload_of :
    (fam : ℕ) (dgram : Bool) (n : ℕ) (src dst tlvs : List ℕ) (sport dport : ℕ)
    → family fam ≡ some (dgram, n)
    → length src ≡ n
    → length dst ≡ n
    → sport < 65536
    → dport < 65536
    → parse_payload 1 fam (payload_of src dst sport dport tlvs)
      ≡ ok record {
        source = some record { ip = src; port = sport; dgram = dgram };
        dest = some record { ip = dst; port = dport; dgram = dgram };
      }
unfolding parse_payload
parse_payload-payload_of fam dgram n src dst tlvs sport dport f ls ld hs hd =
    let enough : leb (n + n + 4) (length (payload_of src dst sport dport tlvs)) ≡ true = ground (
      arith,
      length-append src (dst ++ (put_uint16 sport ++ (put_uint16 dport ++ tlvs))),
      length-append dst (put_uint16 sport ++ (put_uint16 dport ++ tlvs)),
      ls,
      ld,
    ) in
    rw (f, enough, parse_payload)
      (ap ok (addresses-payload_of dgram n src dst tlvs sport dport ls ld hs hd))

check_fixed-fixed_of : (fam size : ℕ) → size ≤ 2048 → check_fixed (fixed_of 0x21 fam size) ≡ ok size
unfolding check_fixed text_beq
check_fixed-fixed_of fam size h = ground (arith, h)

module _ (parse_ip : List ℕ → Option (List ℕ)) where
  pub read_proxy_header-payload_of :
      (mode : ProxyMode) (fam : ℕ) (dgram : Bool) (n : ℕ) (src dst tlvs : List ℕ) (sport dport : ℕ)
      (r : List ℕ)
      → (mode ≡ v2) ⊎ (mode ≡ auto)
      → family fam ≡ some (dgram, n)
      → length src ≡ n
      → length dst ≡ n
      → sport < 65536
      → dport < 65536
      → length (payload_of src dst sport dport tlvs) ≤ 2048
      → read_proxy_header parse_ip mode (
          fixed_of 0x21 fam (length (payload_of src dst sport dport tlvs))
          ++ (payload_of src dst sport dport tlvs ++ r))
        ≡ ok (
          record {
            source = some record { ip = src; port = sport; dgram = dgram };
            dest = some record { ip = dst; port = dport; dgram = dgram };
          },
          r,
        )
  unfolding read_proxy_header peek_read read_by_mode text_beq has_prefix
  read_proxy_header-payload_of mode fam dgram n src dst tlvs sport dport r m f ls ld hs hd small =
      let p = payload_of src dst sport dport tlvs in
      let hdr : ProxyHeader = record {
        source = some record { ip = src; port = sport; dgram = dgram };
        dest = some record { ip = dst; port = dport; dgram = dgram };
      } in
      let read : read_proxy_v2 (fixed_of 0x21 fam (length p) ++ (p ++ r)) ≡ ok (hdr, r) =
        read_proxy_v2-append (fixed_of 0x21 fam (length p)) p (length p) _ refl
          (check_fixed-fixed_of fam (length p) small) refl
          (parse_payload-payload_of fam dgram n src dst tlvs sport dport f ls ld hs hd) r in
      elim m [
        | inl two ↦
            subst
              (λ k.
                read_proxy_header parse_ip k (fixed_of 0x21 fam (length p) ++ (p ++ r))
                ≡ ok (hdr, r))
              (sym two) (ground (arith, read))
        | inr either ↦
            subst
              (λ k.
                read_proxy_header parse_ip k (fixed_of 0x21 fam (length p) ++ (p ++ r))
                ≡ ok (hdr, r))
              (sym either) (ground (arith, read))
      ]
