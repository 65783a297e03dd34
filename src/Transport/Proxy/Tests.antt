-- ===== src/Transport/Proxy/Tests.antt =====
-- Runs of the PROXY protocol on small inputs, with two addresses that net.ParseIP knows.
use shark_socket.Base.{
  ℕ, ◌≡◌, refl, inl, inr, true, false, Option, none, some, List, [], ◌∷◌, ◌++◌, arith, take,
  if◌then◌else◌, ok, atoi,
}
use shark_socket.Base.Maps.{text_beq}
use shark_socket.Transport.Proxy.{
  v1, v2, auto, ProxyHeader, read_proxy_header, proxy_v1_signature, family, is_v4,
}
use shark_socket.Transport.Proxy.Fronts.{Front}
use shark_socket.Transport.Proxy.Headers.{read_proxy_header-Front}
use shark_socket.Transport.Proxy.Binary.{payload_of, fixed_of, read_proxy_header-payload_of}
use shark_socket.Transport.Proxy.Words.{lacks, joined}
use shark_socket.Transport.Proxy.Textual.{family_name, read_proxy_header-joined}

-- "1.2.3.4" and "5.6.7.8".
abbrev text_a : List ℕ
text_a = b'1' ∷ b'.' ∷ b'2' ∷ b'.' ∷ b'3' ∷ b'.' ∷ b'4' ∷ []

abbrev text_b : List ℕ
text_b = b'5' ∷ b'.' ∷ b'6' ∷ b'.' ∷ b'7' ∷ b'.' ∷ b'8' ∷ []

abbrev ip_a : List ℕ
ip_a = 1 ∷ 2 ∷ 3 ∷ 4 ∷ []

abbrev ip_b : List ℕ
ip_b = 5 ∷ 6 ∷ 7 ∷ 8 ∷ []

two_ips : List ℕ → Option (List ℕ)
two_ips s = if text_beq s text_a then some ip_a else if text_beq s text_b then some ip_b else none

-- A version 2 header with one TLV, and a byte behind it.
abbrev header_2 : List ℕ
header_2 = fixed_of 0x21 0x11 16 ++ payload_of ip_a ip_b 4660 443 (3 ∷ 0 ∷ 1 ∷ 9 ∷ [])

abbrev pair : ProxyHeader
pair = record {
  source = some record { ip = ip_a; port = 4660; dgram = false };
  dest = some record { ip = ip_b; port = 443; dgram = false };
}

read_proxy_header-payload_of_example :
    read_proxy_header two_ips auto (header_2 ++ (77 ∷ [])) ≡ ok (pair, 77 ∷ [])
unfolding family
read_proxy_header-payload_of_example =
    read_proxy_header-payload_of two_ips auto 0x11 false 4 ip_a ip_b (3 ∷ 0 ∷ 1 ∷ 9 ∷ []) 4660 443
      (77 ∷ []) (inr refl) refl refl refl (omega arith) (omega arith) (omega arith)

header_2_read : read_proxy_header two_ips v2 header_2 ≡ ok (pair, [])
unfolding family
header_2_read =
    read_proxy_header-payload_of two_ips v2 0x11 false 4 ip_a ip_b (3 ∷ 0 ∷ 1 ∷ 9 ∷ []) 4660 443 []
      (inl refl) refl refl refl (omega arith) (omega arith) (omega arith)

read_proxy_header-Front_example : Front (read_proxy_header two_ips v2) 2064 pair header_2 []
read_proxy_header-Front_example = read_proxy_header-Front two_ips v2 pair header_2 [] header_2_read

-- "PROXY TCP4 1.2.3.4 5.6.7.8 80 443", with its end of line, before a byte.
read_proxy_header-joined_example :
    read_proxy_header two_ips v1 (
      joined 0x20 (
        take 5 proxy_v1_signature
        ∷ family_name two_ips true
        ∷ text_a
        ∷ text_b
        ∷ (b'8' ∷ b'0' ∷ [])
        ∷ (b'4' ∷ b'4' ∷ b'3' ∷ [])
        ∷ [])
      ++ (0x0D ∷ 0x0A ∷ 77 ∷ []))
    ≡ ok (
      record {
        source = some record { ip = ip_a; port = 80; dgram = false };
        dest = some record { ip = ip_b; port = 443; dgram = false };
      },
      77 ∷ [],
    )
unfolding lacks two_ips text_beq is_v4 atoi
read_proxy_header-joined_example =
    read_proxy_header-joined two_ips v1 true text_a text_b (b'8' ∷ b'0' ∷ [])
      (b'4' ∷ b'4' ∷ b'3' ∷ []) ip_a ip_b 80 443 (77 ∷ []) (inl refl)
      ((refl, refl), ((refl, refl), ((refl, refl), ((refl, refl), tt)))) (refl, refl) (refl, refl)
      (refl, omega arith) (refl, omega arith) (omega arith)
