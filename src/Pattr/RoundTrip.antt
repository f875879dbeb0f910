-- ===== src/Pattr/RoundTrip.antt =====
-- Whole attributes of src/pattr.c, written and read back.
use libbgp.Prelude.{
  ℕ, suc, ◌+◌, ◌-◌, ◌≤◌, ◌<◌, ◌≡◌, inl, inr, refl, sym, ap, ◌∙◌, List, [], ◌++◌, Bool, true, false,
  leb, ◌==◌, length, drop, take, get_or, arith, length-append, append_assoc, take-append_length,
  drop-append_length, le→leb, ge→ltb, eq→==,
}
use libbgp.Prelude.Errors.{ok}
use libbgp.Prelude.Growth.{size_max}
use libbgp.Pattr.{
  Pattr, PattrData, PattrType, origin, as_path, as4_path, next_hop, med, local_pref,
  atomic_aggregate, aggregator, as4_aggregator, community, mp_reach_ipv6, mp_unreach_ipv6,
  unknown_pattr, type_unknown, type_of, pattr_type_from_code, pattr_default_type_code,
  pattr_known_flags_valid, pattr_default_flags,
}
use libbgp.Pattr.Read.{header_of, pattr_parse_as4}
use libbgp.Pattr.Write.{
  code_fits, pattr_value_len, extended_of, wire_flags, write_header, header_size, pattr_wire_len,
  pattr_write,
}
use libbgp.Pattr.Flags.{has-wire_flags, valid-wire_flags, valid-unknown, type_from_code-cases}
use libbgp.Pattr.Values.{
  IsValue, value_bytes, IsForeign, Belongs, data_len-value, write_value-bytes, value_fits-value,
}
use libbgp.Pattr.ReadBack.{parse_value-bytes}

abbrev pub size_of : Pattr → ℕ
size_of a = length (value_bytes a.data_of)

-- An attribute that both sides take: flags and code are bytes that go together, the data belong to the
-- code, and its value has a length of two octets.
pub record IsPattr (four : Bool) (a : Pattr) : Type 0 where
  pub flags_byte : a.flags < 256
  pub code_byte : a.type_code < 256
  pub valid : pattr_known_flags_valid (pattr_type_from_code a.type_code) a.flags ≡ true
  pub belongs : Belongs (pattr_type_from_code a.type_code) a.data_of
  pub value : IsValue four a.data_of
  pub room : size_of a ≤ 65535

-- The code of the data's type, and flags that are valid for it.
abbrev Coded : PattrType → ℕ → ℕ → Type 0
Coded t code flags =
    ((code == pattr_default_type_code t) ≡ true) × (pattr_known_flags_valid t flags ≡ true)

code_of :
    (code flags : ℕ) (t : PattrType)
    → code < 256
    → pattr_known_flags_valid (pattr_type_from_code code) flags ≡ true
    → ¬ (t ≡ type_unknown)
    → pattr_type_from_code code ≡ t
    → Coded t code flags
code_of code flags t h v known e = elim (type_from_code-cases code h) [
  | inl u ↦ absurd (known (sym e ∙ u))
  | inr c ↦ (
    eq→== _ _ (c ∙ ap pattr_default_type_code e),
    sym (ap (λ t. pattr_known_flags_valid t flags) e) ∙ v,
  )
]

foreign_valid :
    (t : PattrType) (flags : ℕ) (value : List ℕ)
    → flags < 256
    → pattr_known_flags_valid t flags ≡ true
    → IsForeign t value
    → pattr_known_flags_valid type_unknown flags ≡ true
unfolding pattr_known_flags_valid pattr_default_flags
foreign_valid t flags value h v (inl e) = sym (ap (λ t. pattr_known_flags_valid t flags) e) ∙ v
foreign_valid t flags value h v (inr (inl e)) =
    valid-unknown flags h (sym (ap (λ t. pattr_known_flags_valid t flags) e.0) ∙ v)
foreign_valid t flags value h v (inr (inr e)) =
    valid-unknown flags h (sym (ap (λ t. pattr_known_flags_valid t flags) e.0) ∙ v)

-- The checks at the start of `pattr_value_len`.
data_checks :
    (refs flags code : ℕ) (d : PattrData)
    → flags < 256
    → code < 256
    → pattr_known_flags_valid (pattr_type_from_code code) flags ≡ true
    → Belongs (pattr_type_from_code code) d
    → (code_fits (record { refcount = refs; flags = flags; type_code = code; data_of = d }) ≡ true)
      × (pattr_known_flags_valid (type_of d) flags ≡ true)
data_checks refs flags code (origin o) k h v = code_of code flags _ h v (λ u. cc)
data_checks refs flags code (as_path b segments) k h v = code_of code flags _ h v (λ u. cc)
data_checks refs flags code (as4_path b segments) k h v = code_of code flags _ h v (λ u. cc)
data_checks refs flags code (next_hop l) k h v = code_of code flags _ h v (λ u. cc)
data_checks refs flags code (med x) k h v = code_of code flags _ h v (λ u. cc)
data_checks refs flags code (local_pref x) k h v = code_of code flags _ h v (λ u. cc)
data_checks refs flags code atomic_aggregate k h v = code_of code flags _ h v (λ u. cc)
data_checks refs flags code (aggregator asn router_id b) k h v = code_of code flags _ h v (λ u. cc)
data_checks refs flags code (as4_aggregator asn router_id b) k h v =
    code_of code flags _ h v (λ u. cc)
data_checks refs flags code (community values) k h v = code_of code flags _ h v (λ u. cc)
data_checks refs flags code (mp_reach_ipv6 nexthop nlri) k h v = code_of code flags _ h v (λ u. cc)
data_checks refs flags code (mp_unreach_ipv6 withdrawn) k h v = code_of code flags _ h v (λ u. cc)
data_checks refs flags code (unknown_pattr value) k h v =
    λ e. (refl, foreign_valid _ flags value k v e)

pub pattr_value_len-IsPattr :
    (four : Bool) (a : Pattr) → IsPattr four a → pattr_value_len a ≡ ok (size_of a)
unfolding pattr_value_len
pattr_value_len-IsPattr four a h =
    let checks =
      data_checks a.refcount a.flags a.type_code a.data_of h.flags_byte h.code_byte h.valid
        h.belongs in
    rw
      (
        checks.0,
        checks.1,
        data_len-value four a.data_of h.value h.room,
        le→leb (size_of a) 65535 h.room,
      )
      refl

abbrev pub attr_bytes : Pattr → List ℕ
attr_bytes a = write_header a (size_of a) (extended_of a (size_of a)) ++ value_bytes a.data_of

pub length-header : (a : Pattr) (n : ℕ) (e : Bool) → length (write_header a n e) ≡ header_size e
unfolding write_header
length-header a n true = refl
length-header a n false = refl

pub length-attr_bytes :
    (a : Pattr) → length (attr_bytes a) ≡ header_size (extended_of a (size_of a)) + size_of a
length-attr_bytes a =
    let e = extended_of a (size_of a) in
    omega (
      arith,
      length-append (write_header a (size_of a) e) (value_bytes a.data_of),
      length-header a (size_of a) e,
    )

pub pattr_write-attr_bytes :
    (four : Bool) (a : Pattr) (room : ℕ)
    → IsPattr four a
    → length (attr_bytes a) ≤ room
    → pattr_write a room ≡ ok (attr_bytes a)
unfolding pattr_write
pattr_write-attr_bytes four a room h fits =
    let e = extended_of a (size_of a) in
    rw
      (
        pattr_value_len-IsPattr four a h,
        le→leb (header_size e + size_of a) room (omega (arith, length-attr_bytes a)),
        write_value-bytes four a.data_of h.value,
      )
      refl

pub pattr_wire_len-IsPattr :
    (four : Bool) (a : Pattr) → IsPattr four a → pattr_wire_len a ≡ ok (length (attr_bytes a))
unfolding pattr_wire_len
pattr_wire_len-IsPattr four a h =
    let e = extended_of a (size_of a) in
    rw
      (
        pattr_value_len-IsPattr four a h,
        value_fits-value four a.data_of h.value,
        le→leb (size_of a) (size_max - header_size e) (ground (arith, h.room)),
      )
      (ap ok (sym (length-attr_bytes a)))

header_bytes :
    (a : Pattr) (n : ℕ) (e : Bool) (rest : List ℕ)
    → (get_or (write_header a n e ++ rest) 0 0 ≡ wire_flags a.flags e)
      × (get_or (write_header a n e ++ rest) 1 0 ≡ a.type_code)
unfolding write_header
header_bytes a n e rest = (refl, refl)

-- The header says where the value is.
pub header_of-write :
    (a : Pattr) (n : ℕ) (e : Bool) (rest : List ℕ)
    → a.flags < 256
    → n ≤ 65535
    → (e ≡ false → n ≤ 255)
    → header_of (write_header a n e ++ rest) ≡ ok (header_size e, n)
unfolding header_of write_header
header_of-write a n true rest h low short = rw (has-wire_flags a.flags true h) (
    rw
      (
        ge→ltb (suc (suc (suc (suc (length rest))))) 3 (omega arith),
        ge→ltb (suc (suc (suc (suc (length rest))))) 4 (omega arith),
      )
      (ap (λ (k : ℕ). ok (4, k)) (omega arith)))
header_of-write a n false rest h low short = rw (has-wire_flags a.flags false h) (
    rw (ge→ltb (suc (suc (suc (length rest)))) 3 (omega arith))
      (ap (λ (k : ℕ). ok (3, k)) (omega (arith, short refl))))

-- The attribute with the flags that are written.
abbrev pub on_wire : Pattr → Pattr → Pattr
on_wire target a = record target {
  flags = wire_flags a.flags (extended_of a (size_of a));
  type_code = a.type_code;
  data_of = a.data_of;
}

pub pattr_parse-attr_bytes :
    (four : Bool) (a target : Pattr) (rest : List ℕ)
    → IsPattr four a
    → pattr_parse_as4 target (attr_bytes a ++ rest) four []
      ≡ (ok (on_wire target a, length (attr_bytes a)), [])
unfolding pattr_parse_as4
pattr_parse-attr_bytes four a target rest h =
    let n = size_of a in
    let e = extended_of a n in
    let head = write_header a n e in
    let value = value_bytes a.data_of in
    let buf = head ++ (value ++ rest) in
    let size = length-append head (value ++ rest) in
    let tail = length-append value rest in
    let where_value : header_of buf ≡ ok (header_size e, n) =
      header_of-write a n e (value ++ rest) h.flags_byte h.room (λ short. ground (arith, short)) in
    let fits : leb n (length buf - header_size e) ≡ true =
      le→leb n (length buf - header_size e) (omega (arith, size, tail, length-header a n e)) in
    let flags : get_or buf 0 0 ≡ wire_flags a.flags e = (header_bytes a n e (value ++ rest)).0 in
    let code : get_or buf 1 0 ≡ a.type_code = (header_bytes a n e (value ++ rest)).1 in
    let valid : pattr_known_flags_valid (pattr_type_from_code a.type_code) (wire_flags a.flags e)
        ≡ true =
      valid-wire_flags (pattr_type_from_code a.type_code) a.flags e h.flags_byte ∙ h.valid in
    let cut : take n (drop (header_size e) buf) ≡ value =
      ap (take n) (drop-append_length (header_size e) head (value ++ rest) (length-header a n e))
      ∙ take-append_length n value rest refl in
    let read =
      parse_value-bytes (pattr_type_from_code a.type_code) four a.data_of h.value h.belongs
        h.room in
    ap (λ (b : List ℕ). pattr_parse_as4 target b four []) (append_assoc head value rest)
    ∙ rw (where_value, fits, flags, code, valid, cut, read)
        (ap (λ (k : ℕ). (ok (on_wire target a, k), [])) (sym (length-attr_bytes a)))
