-- ===== src/Transport/Proxy.antt =====
-- The PROXY protocol: internal/transport/shared/proxyproto.go. What the peer sends before it stops is
-- a list of bytes; a reader answers with the header and with the bytes behind it. net.ParseIP
-- is a parameter of version 1; an IP is the bytes of the slice.
pub mod Reading
pub mod Lines
pub mod Fronts
pub mod Headers
pub mod Binary
pub mod Words
pub mod Textual
mod Tests
use shark_socket.Base.{
  ℕ, ◌+◌, ◌-◌, ◌/◌, ◌%◌, Bool, true, false, not, ◌&&◌, Option, none, some, List, [], ◌∷◌, ltb, leb,
  ◌==◌, if◌then◌else◌, length, take, drop, get_or, Result, ok, err, ◌>>=◌, ◌>>◌, guard, uint16_of,
  ℤ, pos, negsuc, atoi, bool_beq, ◌||◌, replicate, ◌++◌,
}
use shark_socket.Base.Maps.{text_beq}
use shark_socket.Base.Streams.{Slice, found, buffer_full, ended, read_slice}

abbrev pub proxy_v1_max_len : ℕ
proxy_v1_max_len = 107

abbrev pub proxy_header_buffer : ℕ
proxy_header_buffer = 256

abbrev pub proxy_v2_max_payload : ℕ
proxy_v2_max_payload = 2048

abbrev pub proxy_v1_signature : List ℕ
proxy_v1_signature = b'P' ∷ b'R' ∷ b'O' ∷ b'X' ∷ b'Y' ∷ b' ' ∷ []

abbrev pub proxy_v2_signature : List ℕ
proxy_v2_signature =
    0x0D ∷ 0x0A ∷ 0x0D ∷ 0x0A ∷ 0x00 ∷ 0x0D ∷ 0x0A ∷ 0x51 ∷ 0x55 ∷ 0x49 ∷ 0x54 ∷ 0x0A ∷ []

abbrev pub unknown_family : List ℕ
unknown_family = b'U' ∷ b'N' ∷ b'K' ∷ b'N' ∷ b'O' ∷ b'W' ∷ b'N' ∷ []

abbrev pub tcp4_family : List ℕ
tcp4_family = b'T' ∷ b'C' ∷ b'P' ∷ b'4' ∷ []

abbrev pub tcp6_family : List ℕ
tcp6_family = b'T' ∷ b'C' ∷ b'P' ∷ b'6' ∷ []

pub data ProxyMode : Type 0 where
  off v1 v2 auto : ProxyMode

pub data ProxyError : Type 0 where
  header_invalid header_version header_too_long no_header_mode : ProxyError

-- net.TCPAddr, or net.UDPAddr where `dgram` holds.
pub record Addr : Type 0 where
  pub ip : List ℕ
  pub port : ℕ
  pub dgram : Bool

-- `none` is a nil address.
pub record ProxyHeader : Type 0 where
  pub source : Option Addr
  pub dest : Option Addr

abbrev pub no_addresses : ProxyHeader
no_addresses = record { source = none; dest = none }

abbrev pub Read : Type 0
Read = Result ProxyError (ProxyHeader × List ℕ)

-- bytes.HasPrefix
unfoldable pub has_prefix : List ℕ → List ℕ → Bool
has_prefix s [] = true
has_prefix [] (c ∷ t) = false
has_prefix (b ∷ s) (c ∷ t) = let rest = has_prefix s t in if b == c then rest else false

-- io.ReadFull
pub read_full : ℕ → List ℕ → Result ProxyError (List ℕ × List ℕ)
read_full n r = if leb n (length r) then ok (take n r, drop n r) else err header_invalid

-- The family bytes: whether they are datagrams, and the length of an address.
pub family : ℕ → Option (Bool × ℕ)
family fam =
    if fam == 0x11
    then some (false, 4)
    else if fam == 0x12
    then some (true, 4)
    else if fam == 0x21
    then some (false, 16)
    else if fam == 0x22
    then some (true, 16)
    else none

-- The two bytes at a place of the payload.
pub port_at : ℕ → List ℕ → ℕ
port_at i payload = uint16_of (get_or payload i 0) (get_or payload (i + 1) 0)

-- The address block of `n` bytes an address.
pub addresses : Bool → ℕ → List ℕ → ProxyHeader
unfolding port_at
addresses dgram n payload = record {
  source = some record { ip = take n payload; port = port_at (n + n) payload; dgram = dgram };
  dest =
      some
        record { ip = take n (drop n payload); port = port_at (n + n + 2) payload; dgram = dgram };
}

-- What the payload says, for the command and the family.
pub parse_payload : ℕ → ℕ → List ℕ → Result ProxyError ProxyHeader
unfolding family addresses
parse_payload cmd fam payload = if not (cmd == 0x1) then ok no_addresses else elim (family fam) [
  | none ↦ ok no_addresses
  | some (dgram, n) ↦
      guard (leb (n + n + 4) (length payload)) header_invalid >> ok (addresses dgram n payload)
]

-- The checks of the fixed part, and the size of what follows it.
pub check_fixed : List ℕ → Result ProxyError ℕ
check_fixed fixed = do
  guard (text_beq (take 12 fixed) proxy_v2_signature) header_version
  guard (get_or fixed 12 0 / 16 == 0x2) header_version
  let size = uint16_of (get_or fixed 14 0) (get_or fixed 15 0)
  guard (leb size proxy_v2_max_payload) header_too_long
  ok size

pub read_proxy_v2 : List ℕ → Read
unfolding read_full parse_payload check_fixed
read_proxy_v2 r = do
  fixed ← read_full 16 r
  size ← check_fixed fixed.0
  payload ← read_full size fixed.1
  hdr ← parse_payload (get_or fixed.0 12 0 % 16) (get_or fixed.0 13 0) payload.0
  ok (hdr, payload.1)

-- A byte in front of the first piece.
pub prepend : ℕ → List (List ℕ) → List (List ℕ)
prepend b [] = (b ∷ []) ∷ []
prepend b (piece ∷ pieces) = (b ∷ piece) ∷ pieces

-- strings.Split
pub split : ℕ → List ℕ → List (List ℕ)
unfolding prepend
split sep [] = [] ∷ []
split sep (b ∷ s) = let rest = split sep s in if b == sep then [] ∷ rest else prepend b rest

-- `ip.To4() != nil`: four bytes, or sixteen of an IPv4 address within IPv6.
pub is_v4 : List ℕ → Bool
is_v4 ip =
    (length ip == 4)
    || ((length ip == 16) && text_beq (take 12 ip) (replicate 10 0 ++ 0xff ∷ 0xff ∷ []))

module _ (parse_ip : List ℕ → Option (List ℕ)) where
  pub parse_proxy_ip : List ℕ → Bool → Result ProxyError (List ℕ)
  parse_proxy_ip s want_v4 = elim (parse_ip s) [
    | none ↦ err header_invalid
    | some ip ↦ if bool_beq want_v4 (is_v4 ip) then ok ip else err header_invalid
  ]

  pub parse_proxy_port : List ℕ → Result ProxyError ℕ
  parse_proxy_port s = elim (atoi s) [
    | none ↦ err header_invalid
    | some (pos n) ↦ if ltb 65535 n then err header_invalid else ok n
    | some (negsuc n) ↦ err header_invalid
  ]

  -- The four fields behind the family.
  pub parse_pair : Bool → List (List ℕ) → Result ProxyError ProxyHeader
  unfolding parse_proxy_ip parse_proxy_port
  parse_pair want_v4 (a ∷ b ∷ s ∷ d ∷ []) = do
    src ← parse_proxy_ip a want_v4
    dst ← parse_proxy_ip b want_v4
    sport ← parse_proxy_port s
    dport ← parse_proxy_port d
    ok record {
      source = some record { ip = src; port = sport; dgram = false };
      dest = some record { ip = dst; port = dport; dgram = false };
    }
  parse_pair want_v4 fields = err header_invalid

  pub parse_fields : List (List ℕ) → Result ProxyError ProxyHeader
  unfolding parse_pair
  parse_fields (word ∷ fam ∷ fields) =
      if not (text_beq word (take 5 proxy_v1_signature))
      then err header_invalid
      else if text_beq fam unknown_family
      then ok no_addresses
      else if text_beq fam tcp4_family
      then parse_pair true fields
      else if text_beq fam tcp6_family
      then parse_pair false fields
      else err header_invalid
  parse_fields fields = err header_invalid

  -- A line of `ReadSlice`, with its delimiter.
  pub parse_line : List ℕ → Result ProxyError ProxyHeader
  unfolding parse_fields split
  parse_line line = do
    guard (leb (length line) proxy_v1_max_len) header_too_long
    guard (leb 2 (length line) && get_or line (length line - 2) 0 == 0x0D) header_invalid
    parse_fields (split b' ' (take (length line - 2) line))

  pub header_of : Slice → Read
  unfolding parse_line
  header_of ended = err header_invalid
  header_of (buffer_full frag rest) = err header_too_long
  header_of (found line rest) = do hdr ← parse_line line; ok (hdr, rest)

  pub read_proxy_v1 : List ℕ → Read
  unfolding header_of
  read_proxy_v1 r = header_of (read_slice proxy_header_buffer b'\n' r)

  -- `head` is what `Peek` gives.
  pub read_by_mode : ProxyMode → List ℕ → List ℕ → Read
  unfolding read_proxy_v1 read_proxy_v2
  read_by_mode off head r = err no_header_mode
  read_by_mode v1 head r =
      if has_prefix head proxy_v1_signature
      then read_proxy_v1 r
      else if text_beq head proxy_v2_signature
      then err header_version
      else err header_invalid
  read_by_mode v2 head r =
      if text_beq head proxy_v2_signature
      then read_proxy_v2 r
      else if has_prefix head proxy_v1_signature
      then err header_version
      else err header_invalid
  read_by_mode auto head r =
      if has_prefix head proxy_v1_signature
      then read_proxy_v1 r
      else if text_beq head proxy_v2_signature
      then read_proxy_v2 r
      else err header_invalid

  pub peek_read : ProxyMode → List ℕ → Read
  unfolding read_by_mode
  peek_read mode r =
      if ltb (length r) (length proxy_v2_signature)
      then err header_invalid
      else read_by_mode mode (take (length proxy_v2_signature) r) r

  pub read_proxy_header : ProxyMode → List ℕ → Read
  unfolding peek_read
  read_proxy_header off r = err no_header_mode
  read_proxy_header mode r = peek_read mode r

-- The address that `RemoteAddr` of the accepted connection reports, for that of the socket.
pub remote_of : Addr → ProxyHeader → Addr
remote_of socket hdr = elim hdr.source [ none ↦ socket | some a ↦ a ]

module _ (parse_ip : List ℕ → Option (List ℕ)) (mode : ProxyMode) where
  -- A connection: the address of the socket, and what the peer sends on it. The deadlines are set.
  pub handshake : Addr × List ℕ → Result ProxyError (Addr × List ℕ)
  unfolding remote_of
  handshake (socket, r) = do
    hdr ← read_proxy_header parse_ip mode r
    ok (remote_of socket hdr.0, hdr.1)

  -- The connections that come in: those that are rejected and closed, then the one that is handed on
  -- with the address that it reports and the bytes behind the header.
  pub accept : List (Addr × List ℕ) → List (Addr × ProxyError) × Option (Addr × List ℕ)
  unfolding handshake
  accept [] = ([], none)
  accept (conn ∷ conns) =
      let rest = accept conns in
      elim (handshake conn) [
        | ok wrapped ↦ ([], some wrapped)
        | err e ↦ ((conn.0, e) ∷ rest.0, rest.1)
      ]
