-- ===== src/Capability/RoundTrip.antt =====
-- Parsing what src/capability.c writes.
use libbgp.Prelude.{
  ℕ, suc, ◌+◌, ◌^◌, ◌≤◌, ◌<◌, ◌≡◌, ◌≢◌, refl, sym, ap, ap₂, List, [], ◌∷◌, ◌++◌, length, arith,
  le→leb, ne→==, length-append, take-append_length,
}
use libbgp.Prelude.Errors.{Result, ok, Mem}
use libbgp.Prelude.Alloc.{malloc_bytes-ok}
use libbgp.Prelude.Wire.{bgp_put_be16, bgp_put_be32, get-put_be16, get-put_be32}
use libbgp.Capability.{
  Capability, CapabilityValue, asn_4b, mp_bgp, unknown, cap_code_4b_asn, cap_code_mp_bgp,
  write_value, capability_write, capability_parse,
}

-- Code and value belong together, and every number fits its field.
abbrev pub IsValue : ℕ → CapabilityValue → Type 0
IsValue code (asn_4b asn) = (code ≡ cap_code_4b_asn) × (asn < 2 ^ 32)
IsValue code (mp_bgp afi safi) = (code ≡ cap_code_mp_bgp) × (afi < 2 ^ 16) × (safi < 256)
IsValue code (unknown bytes) =
    (code ≢ cap_code_4b_asn) × (code ≢ cap_code_mp_bgp) × (code < 256) × (length bytes ≤ 255)

abbrev pub IsCapability : Capability → Type 0
IsCapability cap = IsValue cap.code cap.value

-- The bytes of a capability on the wire.
abbrev pub value_bytes : ℕ → CapabilityValue → List ℕ
value_bytes code (asn_4b asn) = cap_code_4b_asn ∷ 4 ∷ bgp_put_be32 asn
value_bytes code (mp_bgp afi safi) = cap_code_mp_bgp ∷ 4 ∷ (bgp_put_be16 afi ++ 0 ∷ safi ∷ [])
value_bytes code (unknown bytes) = code ∷ length bytes ∷ bytes

unfoldable pub capability_bytes : Capability → List ℕ
capability_bytes cap = value_bytes cap.code cap.value

write_value-bytes :
    (code : ℕ) (value : CapabilityValue) (room : ℕ)
    → IsValue code value
    → length (value_bytes code value) ≤ room
    → write_value code value room ≡ ok (value_bytes code value)
unfolding write_value
write_value-bytes code (asn_4b asn) room h le = ground arith
write_value-bytes code (mp_bgp afi safi) room h le = ground arith
write_value-bytes code (unknown bytes) room h le = ground arith

abbrev answer : Capability → ℕ → CapabilityValue → ℕ → Result (Capability × ℕ) × Mem
answer target code value n = (ok (record target { code = code; value = value }, n), [])

parse_value :
    (target : Capability) (code : ℕ) (value : CapabilityValue) (rest : List ℕ)
    → IsValue code value
    → capability_parse target (value_bytes code value ++ rest) []
      ≡ (ok (record target { code = code; value = value }, length (value_bytes code value)), [])
unfolding capability_parse
parse_value target code (asn_4b asn) rest h =
    rw
      (
        le→leb 2 (length (value_bytes code (asn_4b asn) ++ rest)) (omega arith),
        le→leb 6 (length (value_bytes code (asn_4b asn) ++ rest)) (omega arith),
      )
      (ap₂ (λ (c v : ℕ). answer target c (asn_4b v) 6) (sym h.0) (get-put_be32 asn rest h.1))
parse_value target code (mp_bgp afi safi) rest h =
    rw
      (
        le→leb 2 (length (value_bytes code (mp_bgp afi safi) ++ rest)) (omega arith),
        le→leb 6 (length (value_bytes code (mp_bgp afi safi) ++ rest)) (omega arith),
      )
      (ap₂ (λ (c v : ℕ). answer target c (mp_bgp v safi) 6) (sym h.0)
        (get-put_be16 afi (0 ∷ safi ∷ rest) h.1))
parse_value target code (unknown bytes) rest h =
    rw
      (
        le→leb 2 (suc (suc (length (bytes ++ rest)))) (omega arith),
        le→leb (2 + length bytes) (suc (suc (length (bytes ++ rest))))
            (omega (arith, length-append bytes rest)),
        ne→== code cap_code_4b_asn h.0,
        ne→== code cap_code_mp_bgp h.1,
        malloc_bytes-ok (length bytes),
        take-append_length (length bytes) bytes rest refl,
      )
      (ap (answer target code (unknown bytes)) {x = 2 + length bytes} {y = suc (suc (length bytes))}
        (omega arith))

-- A valid capability is written into any buffer with room for its bytes. Parsing them, with anything
-- behind and an allocator that does not fail, sets code and value of the target to those of the
-- capability, keeps the target's reference count and consumes exactly what was written.
pub capability_parse-write :
    (cap target : Capability) (room : ℕ) (rest : List ℕ)
    → IsCapability cap
    → length (capability_bytes cap) ≤ room
    → (capability_write cap room ≡ ok (capability_bytes cap))
      × (capability_parse target (capability_bytes cap ++ rest) [] ≡ (
        ok (record target { code = cap.code; value = cap.value }, length (capability_bytes cap)),
        [],
      ))
unfolding capability_write capability_bytes
capability_parse-write cap target room rest h le =
    (write_value-bytes cap.code cap.value room h le, parse_value target cap.code cap.value rest h)
