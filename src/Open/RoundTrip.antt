-- ===== src/Open/RoundTrip.antt =====
-- Parsing what src/open.c writes.
use libbgp.Prelude.{
  ℕ, zero, suc, ◌+◌, ◌-◌, ◌*◌, ◌%◌, ◌^◌, ◌≤◌, ◌<◌, ◌≡◌, refl, subst, ap, ap₂, ◌∙◌, List, [], ◌∷◌,
  ◌++◌, true, arith, leb, ◌&&◌, length, length-append, All, le→leb, ne→==, take-append_length,
  take_all, drop_all,
}
use native.Mathlib.Nat.{le_refl}
use libbgp.Prelude.Errors.{ok}
use libbgp.Prelude.Wire.{bgp_put_be16, bgp_put_be32, get-put_be16, get-put_be32}
use libbgp.Capability.{Capability}
use libbgp.Capability.RoundTrip.{capability_bytes, capability_parse-write}
use libbgp.Open.{
  OpenMsg, open_parse_capabilities, open_parse_optional, open_parse, open_capabilities_len,
  write_capabilities, open_write,
}
use libbgp.Open.Bytes.{
  IsOwned, length-capability_bytes, capabilities_bytes, add_all, no_caps, caps-bytes,
}

-- The optional parameters: none, or one parameter with all capabilities.
unfoldable pub optional_bytes : List Capability → List ℕ
optional_bytes [] = []
optional_bytes (c ∷ cs) = 2 ∷ length (capabilities_bytes (c ∷ cs)) ∷ capabilities_bytes (c ∷ cs)

unfoldable pub open_bytes : OpenMsg → List ℕ
open_bytes msg =
    msg.version ∷ bgp_put_be16 msg.my_asn
    ++ (bgp_put_be16 msg.hold_time
        ++ (bgp_put_be32 msg.bgp_id
            ++ length (optional_bytes msg.capabilities) ∷ optional_bytes msg.capabilities))

-- Version 4, every number within its field, capabilities of the message alone and not too many for the
-- length field of one byte.
abbrev pub IsOpen : OpenMsg → Type 0
IsOpen msg =
    (msg.version ≡ 4)
    × (msg.my_asn < 2 ^ 16)
    × (msg.hold_time < 2 ^ 16)
    × (msg.bgp_id < 2 ^ 32)
    × All IsOwned msg.capabilities
    × (length (capabilities_bytes msg.capabilities) ≤ 253)

few_capabilities : (cs : List Capability) → 2 * length cs ≤ length (capabilities_bytes cs)
unfolding capabilities_bytes
few_capabilities [] = omega arith
few_capabilities (c ∷ cs) = omega (
  arith,
  few_capabilities cs,
  length-append (capability_bytes c) (capabilities_bytes cs),
  length-capability_bytes c,
)

optional-bytes :
    (cs : List Capability) (fuel : ℕ) (tmp : OpenMsg)
    → All IsOwned cs
    → length (capabilities_bytes cs) ≤ 253
    → length tmp.capabilities + length cs ≤ 255
    → length (optional_bytes cs) ≤ fuel
    → open_parse_optional fuel tmp (optional_bytes cs) [] ≡ (ok (add_all tmp cs), [])
unfolding optional_bytes open_parse_optional open_parse_capabilities
optional-bytes [] zero tmp h le few f = no_caps tmp
optional-bytes [] (suc fuel) tmp h le few f = no_caps tmp
optional-bytes (c ∷ cs) zero tmp h le few f = absurd (omega arith)
optional-bytes (c ∷ cs) (suc fuel) tmp h le few f =
    let caps = capabilities_bytes (c ∷ cs) in
    rw
      (
        le→leb 2 (suc (suc (length caps))) (omega arith),
        le→leb (length caps) (length caps) (le_refl _),
        take_all (length caps) caps (le_refl _),
        caps-bytes (c ∷ cs) (length caps) tmp h (le_refl _) few,
        drop_all (length caps) caps (le_refl _),
      )
      refl

capabilities_len-bytes :
    (cs : List Capability) (total : ℕ)
    → All IsOwned cs
    → total + length (capabilities_bytes cs) ≤ 253
    → open_capabilities_len cs total ≡ ok (total + length (capabilities_bytes cs))
unfolding open_capabilities_len capabilities_bytes
capabilities_len-bytes [] total h le = ap ok (omega arith)
capabilities_len-bytes (c ∷ cs) total h le =
    let one = capability_bytes c in
    let rest = capabilities_bytes cs in
    let long = length-append one rest in
    let written = (capability_parse-write c c 512 [] h.0.0 (omega arith)).0 in
    let within : leb (length one) 255 && leb total (255 - length one) ≡ true = ground arith in
    rw (written, within, capabilities_len-bytes cs (total + length one) h.1 (omega arith))
      (ap ok (omega arith))

write_capabilities-bytes :
    (cs : List Capability) (room : ℕ)
    → All IsOwned cs
    → length (capabilities_bytes cs) ≤ room
    → write_capabilities cs room ≡ ok (capabilities_bytes cs)
unfolding write_capabilities capabilities_bytes
write_capabilities-bytes [] room h le = refl
write_capabilities-bytes (c ∷ cs) room h le =
    let one = capability_bytes c in
    let rest = capabilities_bytes cs in
    let long = length-append one rest in
    rw (
      (capability_parse-write c c room [] h.0.0 (omega arith)).0,
      write_capabilities-bytes cs (room - length one) h.1 (omega arith),
    )

length-optional_bytes :
    (cs : List Capability) → length (optional_bytes cs) ≤ 2 + length (capabilities_bytes cs)
unfolding optional_bytes
length-optional_bytes [] = omega arith
length-optional_bytes (c ∷ cs) = omega arith

no_capabilities_len : open_capabilities_len [] 0 ≡ ok 0
unfolding open_capabilities_len
no_capabilities_len = refl

fits_open :
    (msg : OpenMsg) (room : ℕ)
    → length (open_bytes msg) ≤ room
    → 10 + length (optional_bytes msg.capabilities) ≤ room
unfolding open_bytes
fits_open msg room le = omega arith

write-bytes :
    (msg : OpenMsg) (cs : List Capability) (room : ℕ)
    → msg.capabilities ≡ cs
    → IsOpen msg
    → length (open_bytes msg) ≤ room
    → open_write msg room ≡ ok (open_bytes msg)
unfolding open_write open_bytes optional_bytes
write-bytes msg [] room e h le =
    let fits : 10 ≤ room =
      subst (λ x. 10 + length (optional_bytes x) ≤ room) e (fits_open msg room le) in
    rw (e, h.0, no_capabilities_len, le→leb 10 room fits)
write-bytes msg (c ∷ cs) room e h le =
    let caps = capabilities_bytes (c ∷ cs) in
    let n = length caps in
    let fits' : 10 + length (optional_bytes (c ∷ cs)) ≤ room =
      subst (λ x. 10 + length (optional_bytes x) ≤ room) e (fits_open msg room le) in
    let fits : 12 + n ≤ room = omega arith in
    let owned : All IsOwned (c ∷ cs) = subst (All IsOwned) e h.4 in
    let small : n ≤ 253 = subst (λ x. length (capabilities_bytes x) ≤ 253) e h.5 in
    let some_bytes = few_capabilities (c ∷ cs) in
    let len : open_capabilities_len (c ∷ cs) 0 ≡ ok n =
      capabilities_len-bytes (c ∷ cs) 0 owned (omega arith)
      ∙ ap ok {x = 0 + n} {y = n} (omega arith) in
    let opt_len : (2 + n) % 256 ≡ suc (suc n) = omega arith in
    let caps_len : n % 256 ≡ n = omega arith in
    rw
      (
        e,
        h.0,
        len,
        ne→== n 0 (λ z. omega arith),
        le→leb n 255 (omega arith),
        le→leb (2 + n) 255 (omega arith),
        le→leb (10 + (2 + n)) room (omega arith),
        write_capabilities-bytes (c ∷ cs) (10 + (2 + n) - 12) owned (omega arith),
      )
      (ap₂
        (λ (t l : ℕ). ok (
          4 ∷ bgp_put_be16 msg.my_asn
          ++ (bgp_put_be16 msg.hold_time ++ (bgp_put_be32 msg.bgp_id ++ t ∷ 2 ∷ l ∷ caps))))
        opt_len caps_len)

parse-bytes :
    (msg : OpenMsg) (rest : List ℕ)
    → IsOpen msg
    → open_parse (open_bytes msg ++ rest) [] ≡ (ok (msg, length (open_bytes msg)), [])
unfolding open_parse open_bytes
parse-bytes msg rest h =
    let opt = optional_bytes msg.capabilities in
    let short = length-optional_bytes msg.capabilities in
    let few = few_capabilities msg.capabilities in
    let tmp : OpenMsg = record msg { capabilities = [] } in
    rw
      (
        get-put_be16 msg.my_asn [] h.1,
        get-put_be16 msg.hold_time [] h.2,
        get-put_be32 msg.bgp_id [] h.3,
        le→leb 10 (length (open_bytes msg ++ rest)) (omega arith),
        le→leb (length opt) (length (open_bytes msg ++ rest) - 10)
            (omega (arith, length-append opt rest)),
        take-append_length (length opt) opt rest refl,
        optional-bytes msg.capabilities (length opt) tmp h.4 h.5 (omega arith) (le_refl _),
      )
      (ap (λ (k : ℕ). (ok (msg, k), [])) {x = 10 + length opt} {y = length (open_bytes msg)}
        (omega arith))

-- A valid message is written into any buffer that has room for its bytes, and parsing these bytes, with
-- anything behind them and an allocator that does not fail, gives the message back and consumes exactly
-- what was written.
pub open_parse-write :
    (msg : OpenMsg) (room : ℕ) (rest : List ℕ)
    → IsOpen msg
    → length (open_bytes msg) ≤ room
    → (open_write msg room ≡ ok (open_bytes msg))
      × (open_parse (open_bytes msg ++ rest) [] ≡ (ok (msg, length (open_bytes msg)), []))
open_parse-write msg room rest h le =
    (write-bytes msg msg.capabilities room refl h le, parse-bytes msg rest h)
