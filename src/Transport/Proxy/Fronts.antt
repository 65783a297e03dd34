-- ===== src/Transport/Proxy/Fronts.antt =====
-- A header is the front of the stream, and nothing behind it is looked at.
use shark_socket.Base.{
  ℕ, ◌≤◌, ◌%◌, ◌≡◌, refl, sym, ap, subst, ◌∙◌, Option, List, ◌++◌, arith, length, get_or, ok,
  length-append, append_assoc, bind_ok,
}
use shark_socket.Base.Streams.{Slice, found, buffer_full, ended, read_slice}
use shark_socket.Transport.Proxy.{
  ProxyHeader, read_full, check_fixed, parse_payload, read_proxy_v2, parse_line, header_of,
  read_proxy_v1, Read,
}
use shark_socket.Transport.Proxy.Reading.{read_full-append, read_full_front, read_slice_front}
use shark_socket.Transport.Proxy.Lines.{parse_line_long}

-- A header of at most `limit` bytes is read off the front, the same before every continuation.
pub record Front (read : List ℕ → Read) (limit : ℕ) (h : ProxyHeader) (r rest : List ℕ)
    : Type 0 where
  pub header : List ℕ
  pub whole : r ≡ header ++ rest
  pub bound : length header ≤ limit
  pub long : 12 ≤ length header
  pub again : (t : List ℕ) → read (header ++ t) ≡ ok (h, t)

-- The fixed part and the payload, as the reader takes them.
pub read_proxy_v2-append :
    (fixed payload : List ℕ) (size : ℕ) (h : ProxyHeader)
    → length fixed ≡ 16
    → check_fixed fixed ≡ ok size
    → length payload ≡ size
    → parse_payload (get_or fixed 12 0 % 16) (get_or fixed 13 0) payload ≡ ok h
    → (t : List ℕ) → read_proxy_v2 (fixed ++ (payload ++ t)) ≡ ok (h, t)
unfolding read_proxy_v2
read_proxy_v2-append fixed payload size h sixteen checked long parsed t =
    let first : read_full 16 (fixed ++ (payload ++ t)) ≡ ok (fixed, payload ++ t) =
      subst (λ n. read_full n (fixed ++ (payload ++ t)) ≡ ok (fixed, payload ++ t)) sixteen
        (read_full-append fixed (payload ++ t)) in
    let second : read_full size (payload ++ t) ≡ ok (payload, t) =
      subst (λ n. read_full n (payload ++ t) ≡ ok (payload, t)) long (read_full-append payload t) in
    rw (first, checked, second, parsed, read_proxy_v2) refl

check_fixed_bound : (fixed : List ℕ) (size : ℕ) → check_fixed fixed ≡ ok size → size ≤ 2048
unfolding check_fixed
check_fixed_bound fixed size h = ground (arith, h)

pub read_proxy_v2-Front :
    (h : ProxyHeader) (r rest : List ℕ)
    → read_proxy_v2 r ≡ ok (h, rest)
    → Front read_proxy_v2 2064 h r rest
unfolding read_proxy_v2
read_proxy_v2-Front h r rest e =
    let ((fixed, r₁), e₁, k₁) = bind_ok (read_full 16 r) _ _ e in
    let (size, e₂, k₂) = bind_ok (check_fixed fixed) _ _ k₁ in
    let ((payload, r₂), e₃, k₃) = bind_ok (read_full size r₁) _ _ k₂ in
    let (h', e₄, k₄) =
      bind_ok (parse_payload (get_or fixed 12 0 % 16) (get_or fixed 13 0) payload) _ _ k₃ in
    let hs : h' ≡ h = ground (arith, k₄) in
    let rs : r₂ ≡ rest = ground (arith, k₄) in
    let (w₁, sixteen) = read_full_front 16 r fixed r₁ e₁ in
    let (w₂, long) = read_full_front size r₁ payload r₂ e₃ in
    record {
      header = fixed ++ payload;
      whole =
          w₁
          ∙ ap (λ t. fixed ++ t) w₂
          ∙ sym (append_assoc fixed payload r₂)
          ∙ ap (λ t. (fixed ++ payload) ++ t) rs;
      bound = omega (arith, length-append fixed payload, check_fixed_bound fixed size e₂);
      long = omega (arith, length-append fixed payload, sixteen);
      again = λ t.
          rw (append_assoc fixed payload t)
            (read_proxy_v2-append fixed payload size h sixteen e₂ long (ground (arith, e₄, hs)) t);
    }

module _ (parse_ip : List ℕ → Option (List ℕ)) where
  pub read_proxy_v1-Front :
      (h : ProxyHeader) (r rest : List ℕ)
      → read_proxy_v1 parse_ip r ≡ ok (h, rest)
      → Front (read_proxy_v1 parse_ip) 256 h r rest
  unfolding read_proxy_v1 header_of
  read_proxy_v1-Front h r rest e = go (read_slice 256 b'\n' r) refl e
    where
      go :
          (s : Slice)
          → read_slice 256 b'\n' r ≡ s
          → header_of parse_ip s ≡ ok (h, rest)
          → Front (read_proxy_v1 parse_ip) 256 h r rest
      go (found line r') same k =
          let (h', e₁, k₁) = bind_ok (parse_line parse_ip line) _ _ k in
          let hs : h' ≡ h = ground (arith, k₁) in
          let rs : r' ≡ rest = ground (arith, k₁) in
          let (whole, bound, again) = read_slice_front 256 b'\n' r line r' same in
          record {
            header = line;
            whole = whole ∙ ap (λ t. line ++ t) rs;
            bound = bound;
            long = parse_line_long parse_ip line h' e₁;
            again = λ t. rw (again t, e₁, hs, read_proxy_v1, header_of) refl;
          }
      go (buffer_full frag r') same k = absurd (ground (arith, k))
      go ended same k = absurd (ground (arith, k))
