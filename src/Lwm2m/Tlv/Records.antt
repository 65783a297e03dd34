-- ===== src/Lwm2m/Tlv/Records.antt =====
-- A whole record in bytes, and the round of the decoder that reads it.
use shark_socket.Base.{
  ℕ, ◌/◌, ◌≤◌, ◌≡◌, refl, sym, ap, ◌∙◌, ◌⊎◌, inl, inr, List, [], ◌∷◌, ◌++◌, arith, bit_and, ◌==◌,
  length, take, drop, Result, ok, err, length-take, length-append, take-append-drop, if◌then◌else◌,
  take-append_length, drop-append_length, append_assoc,
}
use shark_socket.Lwm2m.Tlv.{ResourceType, TlvResource, read_id, read_length, decode_record}

-- The bytes of one whole record: the type byte, the identifier and the length, in as many bytes as
-- the type byte says, and then exactly as many bytes of value as the length announces.
pub record IsRecord (resolver : ℕ → ResourceType) (piece : List ℕ) (r : TlvResource) : Type 0 where
  pub type_byte : ℕ
  pub id_bytes : List ℕ
  pub length_bytes : List ℕ
  pub layout : piece ≡ type_byte ∷ (id_bytes ++ (length_bytes ++ r.value))
  pub is_resource : bit_and (type_byte / 64) 0x03 ≡ 3
  pub id_whole : read_id type_byte id_bytes ≡ ok (r.resource_id, [])
  pub length_whole : read_length type_byte length_bytes ≡ ok (length r.value, [])
  pub typed : r.type ≡ resolver r.resource_id

-- The input is the records one behind the other, with nothing between or behind them.
unfoldable pub AreRecords : (ℕ → ResourceType) → List ℕ → List TlvResource → Type 0
AreRecords resolver d [] = d ≡ []
AreRecords resolver d (r ∷ rs) =
    (piece : List ℕ) × (rest : List ℕ) × (d ≡ piece ++ rest)
    × IsRecord resolver piece r
    × AreRecords resolver rest rs

-- How many bytes the two fields have.
id_size : ℕ → ℕ
id_size b = let ii = bit_and (b / 8) 0x03 in if ii == 0 then 1 else if ii == 1 then 2 else 4

length_size : ℕ → ℕ
length_size b =
    let lll = bit_and b 0x07 in
    if lll == 1 then 1 else if lll == 2 then 2 else if lll == 3 then 3 else 4

-- A field that is read from the front of the input can be read alone.
read_id-front :
    (b : ℕ) (d : List ℕ) (id : ℕ) (rest : List ℕ)
    → read_id b d ≡ ok (id, rest)
    → (drop (id_size b) d ≡ rest) × (read_id b (take (id_size b) d) ≡ ok (id, []))
unfolding read_id id_size
read_id-front b [] id rest e = ground arith
read_id-front b (x ∷ []) id rest e = ground arith
read_id-front b (x ∷ y ∷ []) id rest e = ground arith
read_id-front b (x ∷ y ∷ z ∷ []) id rest e = ground arith
read_id-front b (x ∷ y ∷ z ∷ u ∷ d) id rest e = ground arith

read_length-front :
    (b : ℕ) (d : List ℕ) (n : ℕ) (rest : List ℕ)
    → read_length b d ≡ ok (n, rest)
    → (drop (length_size b) d ≡ rest) × (read_length b (take (length_size b) d) ≡ ok (n, []))
unfolding read_length length_size
read_length-front b [] n rest e = ground arith
read_length-front b (x ∷ []) n rest e = ground arith
read_length-front b (x ∷ y ∷ []) n rest e = ground arith
read_length-front b (x ∷ y ∷ z ∷ []) n rest e = ground arith
read_length-front b (x ∷ y ∷ z ∷ u ∷ d) n rest e = ground arith

-- Further bytes behind a field stay where they are.
read_id-append :
    (b : ℕ) (d more : List ℕ) (id : ℕ)
    → read_id b d ≡ ok (id, [])
    → read_id b (d ++ more) ≡ ok (id, more)
unfolding read_id
read_id-append b [] more id e = ground arith
read_id-append b (x ∷ []) more id e = ground arith
read_id-append b (x ∷ y ∷ []) more id e = ground arith
read_id-append b (x ∷ y ∷ z ∷ []) more id e = ground arith
read_id-append b (x ∷ y ∷ z ∷ u ∷ d) more id e = ground arith

read_length-append :
    (b : ℕ) (d more : List ℕ) (n : ℕ)
    → read_length b d ≡ ok (n, [])
    → read_length b (d ++ more) ≡ ok (n, more)
unfolding read_length
read_length-append b [] more n e = ground arith
read_length-append b (x ∷ []) more n e = ground arith
read_length-append b (x ∷ y ∷ []) more n e = ground arith
read_length-append b (x ∷ y ∷ z ∷ []) more n e = ground arith
read_length-append b (x ∷ y ∷ z ∷ u ∷ d) more n e = ground arith

pub Result-cases {ℓ κ} :
    {E : Type κ} {A : Type ℓ} (r : Result E A) → ((a : A) × (r ≡ ok a)) ⊎ ((e : E) × (r ≡ err e))
Result-cases (ok a) = inl (a, refl)
Result-cases (err e) = inr (e, refl)

-- What a round that succeeds has read.
pub record Reads (resolver : ℕ → ResourceType) (b : ℕ) (d : List ℕ) (r : TlvResource)
    (rest : List ℕ) : Type 0 where
  behind_id : List ℕ
  len : ℕ
  behind_length : List ℕ
  type_ok : bit_and (b / 64) 0x03 ≡ 3
  id_ok : read_id b d ≡ ok (r.resource_id, behind_id)
  length_ok : read_length b behind_id ≡ ok (len, behind_length)
  within : len ≤ length behind_length
  value_ok : r.value ≡ take len behind_length
  rest_ok : rest ≡ drop len behind_length
  type_of : r.type ≡ resolver r.resource_id

pub decode_record-Reads :
    (resolver : ℕ → ResourceType) (b : ℕ) (d : List ℕ) (r : TlvResource) (rest : List ℕ)
    → decode_record resolver b d ≡ ok (r, rest)
    → Reads resolver b d r rest
unfolding decode_record
decode_record-Reads resolver b d r rest e = elim (Result-cases (read_id b d)) [
  | inr (x, bad) ↦ ground (arith, bad)
  | inl ((id, d₁), read) ↦ elim (Result-cases (read_length b d₁)) [
    | inr (x, bad) ↦ ground (arith, read, bad)
    | inl ((n, d₂), read') ↦ record {
      behind_id = d₁;
      len = n;
      behind_length = d₂;
      type_ok = ground (arith, read, read');
      id_ok = ground (arith, read, read');
      length_ok = read';
      within = ground (arith, read, read');
      value_ok = ground (arith, read, read');
      rest_ok = ground (arith, read, read');
      type_of = ground (arith, read, read');
    }
  ]
]

pub Reads-IsRecord :
    (resolver : ℕ → ResourceType) (b : ℕ) (d : List ℕ) (r : TlvResource) (rest : List ℕ)
    → Reads resolver b d r rest
    → (piece : List ℕ) × (b ∷ d ≡ piece ++ rest) × IsRecord resolver piece r
Reads-IsRecord resolver b d r rest s = (
  b ∷ (id_bytes ++ (length_bytes ++ r.value)),
  ap (◌∷◌ b) whole,
  record {
    type_byte = b;
    id_bytes = id_bytes;
    length_bytes = length_bytes;
    layout = refl;
    is_resource = s.type_ok;
    id_whole = id_front.1;
    length_whole = rw value_length length_front.1;
    typed = s.type_of;
  },
)
  where
    id_bytes : List ℕ
    id_bytes = take (id_size b) d

    length_bytes : List ℕ
    length_bytes = take (length_size b) s.behind_id

    id_front : (drop (id_size b) d ≡ s.behind_id) × (read_id b id_bytes ≡ ok (r.resource_id, []))
    id_front = read_id-front b d _ _ s.id_ok

    length_front :
        (drop (length_size b) s.behind_id ≡ s.behind_length)
        × (read_length b length_bytes ≡ ok (s.len, []))
    length_front = read_length-front b s.behind_id _ _ s.length_ok

    value_length : length r.value ≡ s.len
    value_length = rw (s.value_ok) (omega (arith, length-take s.len s.behind_length, s.within))

    value_whole : s.behind_length ≡ r.value ++ rest
    value_whole = rw (s.value_ok, s.rest_ok) (sym (take-append-drop s.len s.behind_length))

    length_split : s.behind_id ≡ length_bytes ++ (r.value ++ rest)
    length_split =
        sym (take-append-drop (length_size b) s.behind_id)
        ∙ ap (◌++◌ length_bytes) (length_front.0 ∙ value_whole)

    whole : d ≡ id_bytes ++ (length_bytes ++ r.value) ++ rest
    whole =
        sym (take-append-drop (id_size b) d)
        ∙ ap (◌++◌ id_bytes) (id_front.0 ∙ length_split)
        ∙ simp append_assoc refl

-- A whole record is read as it is, whatever follows.
pub decode_record-IsRecord :
    (resolver : ℕ → ResourceType) (piece : List ℕ) (r : TlvResource) (rest : List ℕ)
    → (w : IsRecord resolver piece r)
    → decode_record resolver w.type_byte (w.id_bytes ++ (w.length_bytes ++ r.value) ++ rest)
      ≡ ok (r, rest)
unfolding decode_record
decode_record-IsRecord resolver piece r rest w =
    rw
      (
        append_assoc w.id_bytes (w.length_bytes ++ r.value) rest,
        append_assoc w.length_bytes r.value rest,
        read_id-append w.type_byte w.id_bytes (w.length_bytes ++ (r.value ++ rest)) r.resource_id
            w.id_whole,
        read_length-append w.type_byte w.length_bytes (r.value ++ rest) (length r.value)
            w.length_whole,
      )
      (ground (
        arith,
        w.is_resource,
        w.typed,
        length-append r.value rest,
        take-append_length r.value rest,
        drop-append_length r.value rest,
      ))
