-- ===== src/Capability.antt =====
-- src/capability.c: capabilities of an OPEN message. The constructor of the value is the C `type`
-- with its member of the union; `code` is kept beside it, as in the source.
pub mod RoundTrip
pub mod Accepts
use libbgp.Prelude.{
  ℕ, zero, suc, ◌+◌, ◌-◌, ◌*◌, ◌^◌, ◌%◌, List, [], ◌∷◌, ◌++◌, Bool, true, false, Option, none, some,
  ltb, leb, ◌==◌, if◌then◌else◌, length, get_or, take, drop,
}
use libbgp.Prelude.Errors
use libbgp.Prelude.Errors.{Result, ok, err, bad_len, buffer, guard}
use libbgp.Prelude.Alloc.{Alloc, ◌>>=◌, ◌>>◌, give, fail, require, malloc, malloc_bytes}
use libbgp.Prelude.Wire.{bgp_get_be16, bgp_get_be32, bgp_put_be16, bgp_put_be32}

pub data CapabilityValue : Type 0 where
  asn_4b : ℕ → CapabilityValue
  mp_bgp : ℕ → ℕ → CapabilityValue
  unknown : List ℕ → CapabilityValue

pub record Capability : Type 0 where
  pub refcount : ℕ
  pub code : ℕ
  pub value : CapabilityValue

abbrev pub cap_code_mp_bgp : ℕ
cap_code_mp_bgp = 1

abbrev pub cap_code_4b_asn : ℕ
cap_code_4b_asn = 65

abbrev pub uint32_max : ℕ
uint32_max = 2 ^ 32 - 1

-- The zeroed union of a fresh object, read as the member that `type` selects.
pub data CapabilityType : Type 0 where
  type_4b_asn type_mp_bgp type_unknown : CapabilityType

unfoldable pub fresh_value : CapabilityType → ℕ × CapabilityValue
fresh_value type_4b_asn = (cap_code_4b_asn, asn_4b 0)
fresh_value type_mp_bgp = (cap_code_mp_bgp, mp_bgp 0 0)
fresh_value type_unknown = (0, unknown [])

unfoldable pub capability_new : CapabilityType → Alloc Capability
unfolding fresh_value
capability_new type = do
  malloc
  let fresh = fresh_value type
  give (record { refcount = 1; code = fresh.0; value = fresh.1 })

unfoldable pub capability_ref : Capability → Capability
capability_ref cap =
    if cap.refcount == uint32_max then cap else record cap { refcount = cap.refcount + 1 }

-- `none` if the object has been freed.
unfoldable pub capability_unref : Capability → Option Capability
capability_unref cap =
    if cap.refcount == 0
    then some cap
    else (if cap.refcount - 1 == 0 then none else some (record cap { refcount = cap.refcount - 1 }))

-- The three cases of the parser, on the bytes behind the header. Each overwrites code, type and value
-- of `cap`, and gives the number of bytes consumed too.
unfoldable pub parse_4b_asn : Capability → ℕ → List ℕ → Alloc (Capability × ℕ)
parse_4b_asn cap value_len value = do
  require (value_len == 4) bad_len
  give (record cap { code = cap_code_4b_asn; value = asn_4b (bgp_get_be32 value) }, 2 + value_len)

unfoldable pub parse_mp_bgp : Capability → ℕ → List ℕ → Alloc (Capability × ℕ)
parse_mp_bgp cap value_len value = do
  require (value_len == 4) bad_len
  give (
    record cap { code = cap_code_mp_bgp; value = mp_bgp (bgp_get_be16 value) (get_or value 3 0) },
    2 + value_len,
  )

unfoldable pub parse_unknown : Capability → ℕ → ℕ → List ℕ → Alloc (Capability × ℕ)
parse_unknown cap code value_len value = do
  malloc_bytes value_len
  give (record cap { code = code; value = unknown (take value_len value) }, 2 + value_len)

unfoldable pub capability_parse : Capability → List ℕ → Alloc (Capability × ℕ)
unfolding parse_4b_asn parse_mp_bgp parse_unknown
capability_parse cap buf = do
  require (leb 2 (length buf)) bad_len
  let code = get_or buf 0 0
  let value_len = get_or buf 1 0
  require (leb (2 + value_len) (length buf)) bad_len
  let value = drop 2 buf
  let known =
      if code == cap_code_mp_bgp
      then parse_mp_bgp cap value_len value
      else parse_unknown cap code value_len value
  if code == cap_code_4b_asn then parse_4b_asn cap value_len value else known

-- The bytes that are written at the front of a buffer of `room` bytes.
unfoldable pub write_value : ℕ → CapabilityValue → ℕ → Result (List ℕ)
write_value code (asn_4b asn) room =
    Errors.◌>>◌ (guard (leb 6 room) buffer) (ok (cap_code_4b_asn ∷ 4 ∷ bgp_put_be32 asn))
write_value code (mp_bgp afi safi) room =
    Errors.◌>>◌ (guard (leb 6 room) buffer)
      (ok (cap_code_mp_bgp ∷ 4 ∷ (bgp_put_be16 afi ++ 0 ∷ safi ∷ [])))
write_value code (unknown bytes) room = Errors.◌>>◌ (guard (leb (length bytes) 255) bad_len) (
    Errors.◌>>◌ (guard (leb (2 + length bytes) room) buffer)
      (ok (code ∷ (length bytes % 256) ∷ bytes)))

unfoldable pub capability_write : Capability → ℕ → Result (List ℕ)
unfolding write_value
capability_write cap room = write_value cap.code cap.value room
