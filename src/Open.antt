-- ===== src/Open.antt =====
-- src/open.c: OPEN messages and their capabilities. The loops over a position in the buffer are
-- recursions over the bytes that are left, on fuel; out of fuel the answer is LIBBGP_ERR, which the code
-- never gives, and the length of the input is enough fuel.
pub mod Total
pub mod Bytes
pub mod RoundTrip
pub mod Query
use mathlib.Core.List.{map}
use libbgp.Prelude.{
  ℕ, zero, suc, ◌+◌, ◌-◌, ◌*◌, ◌/◌, ◌^◌, ◌%◌, List, [], ◌∷◌, ◌++◌, Bool, true, false, Option, none,
  some, ltb, leb, ◌==◌, ◌&&◌, ◌||◌, if◌then◌else◌, length, get_or, take, drop,
}
use libbgp.Prelude.Errors
use libbgp.Prelude.Errors.{Result, ok, err, bad_len, bad_type, buffer, generic, guard}
use libbgp.Prelude.Alloc.{Alloc, ◌>>=◌, ◌>>◌, give, fail, require, malloc}
use libbgp.Prelude.Wire.{bgp_get_be16, bgp_get_be32, bgp_put_be16, bgp_put_be32}
use libbgp.Prelude.Growth.{size_max}
use libbgp.Capability.{
  Capability, CapabilityValue, asn_4b, mp_bgp, unknown, CapabilityType, type_unknown,
  capability_new, capability_ref, capability_unref, capability_parse, capability_write,
}

pub record OpenMsg : Type 0 where
  pub version : ℕ
  pub my_asn : ℕ
  pub hold_time : ℕ
  pub bgp_id : ℕ
  pub capabilities : List Capability

unfoldable pub open_init : OpenMsg
open_init = record { version = 0; my_asn = 0; hold_time = 0; bgp_id = 0; capabilities = [] }

-- The message without capabilities, and each capability after its release: `none` if this was the last
-- reference to it.
unfoldable pub open_destroy : OpenMsg → OpenMsg × List (Option Capability)
open_destroy msg = (record msg { capabilities = [] }, map capability_unref msg.capabilities)

-- The array grows by one pointer of 8 bytes to the object, whose reference count goes up.
unfoldable pub open_add_capability : OpenMsg → Capability → Alloc OpenMsg
open_add_capability msg cap = do
  require (leb (length msg.capabilities) (size_max / 8 - 1)) bad_len
  malloc
  give (record msg { capabilities = msg.capabilities ++ capability_ref cap ∷ [] })

-- `libbgp_capability_unref` on the object that the last pointer of the array points to.
unfoldable pub unref_last : List Capability → List Capability
unref_last [] = []
unref_last (c ∷ []) = elim (capability_unref c) [ none ↦ [] | some c' ↦ c' ∷ [] ]
unref_last (c ∷ d ∷ cs) = c ∷ unref_last (d ∷ cs)

-- One round: a fresh object is parsed into, added to the message and released.
unfoldable pub parse_one_capability : OpenMsg → List ℕ → Alloc (OpenMsg × ℕ)
unfolding unref_last
parse_one_capability tmp buf = do
  fresh ← capability_new type_unknown
  parsed ← capability_parse fresh buf
  added ← open_add_capability tmp parsed.0
  let used = parsed.1
  require (ltb 0 used && leb used (length buf)) bad_len
  give (record added { capabilities = unref_last added.capabilities }, used)

unfoldable pub open_parse_capabilities : ℕ → OpenMsg → List ℕ → Alloc OpenMsg
open_parse_capabilities fuel tmp [] = give tmp
open_parse_capabilities zero tmp (b ∷ bs) = fail generic
open_parse_capabilities (suc fuel) tmp (b ∷ bs) = do
  (next, used) ← parse_one_capability tmp (b ∷ bs)
  open_parse_capabilities fuel next (drop used (b ∷ bs))

unfoldable pub open_parse_optional : ℕ → OpenMsg → List ℕ → Alloc OpenMsg
open_parse_optional fuel tmp [] = give tmp
open_parse_optional zero tmp (b ∷ bs) = fail generic
open_parse_optional (suc fuel) tmp (b ∷ bs) = do
  let buf = b ∷ bs
  require (leb 2 (length buf)) bad_len
  let param_type = get_or buf 0 0
  let param_len = get_or buf 1 0
  let rest = drop 2 buf
  require (leb param_len (length rest)) bad_len
  require (param_type == 2) bad_type
  next ← open_parse_capabilities param_len tmp (take param_len rest)
  open_parse_optional fuel next (drop param_len rest)

-- The message that replaces the caller's and the bytes consumed.
unfoldable pub open_parse : List ℕ → Alloc (OpenMsg × ℕ)
unfolding open_init
open_parse buf = do
  require (leb 10 (length buf)) bad_len
  let opt_len = get_or buf 9 0
  require (leb opt_len (length buf - 10)) bad_len
  let tmp : OpenMsg = record {
    version = get_or buf 0 0;
    my_asn = bgp_get_be16 (drop 1 buf);
    hold_time = bgp_get_be16 (drop 3 buf);
    bgp_id = bgp_get_be32 (drop 5 buf);
    capabilities = [];
  }
  msg ← open_parse_optional opt_len tmp (take opt_len (drop 10 buf))
  give (msg, 10 + opt_len)

-- The length of all capabilities, each written into a scratch buffer of 512 bytes.
unfoldable pub open_capabilities_len : List Capability → ℕ → Result ℕ
open_capabilities_len [] total = ok total
open_capabilities_len (c ∷ cs) total = Errors.◌>>=◌ (capability_write c 512) λ one.
    Errors.◌>>◌ (guard (leb (length one) 255 && leb total (255 - length one)) bad_len)
      (open_capabilities_len cs (total + length one))

-- The bytes of the capabilities, in a buffer with `room` bytes left.
unfoldable pub write_capabilities : List Capability → ℕ → Result (List ℕ)
write_capabilities [] room = ok []
write_capabilities (c ∷ cs) room =
    Errors.◌>>=◌ (capability_write c room)
      λ one. Errors.◌>>=◌ (write_capabilities cs (room - length one)) λ rest. ok (one ++ rest)

unfoldable pub open_write : OpenMsg → ℕ → Result (List ℕ)
open_write msg cap = Errors.◌>>◌ (guard (msg.version == 4) bad_len) (
    Errors.◌>>=◌ (open_capabilities_len msg.capabilities 0) λ caps_len.
      let opt_len = if caps_len == 0 then 0 else 2 + caps_len in
      let total_len = 10 + opt_len in
      let head =
        msg.version ∷ bgp_put_be16 msg.my_asn
        ++ (bgp_put_be16 msg.hold_time ++ (bgp_put_be32 msg.bgp_id ++ (opt_len % 256) ∷ [])) in
      Errors.◌>>◌ (guard (leb caps_len 255) bad_len) (
        Errors.◌>>◌ (guard (leb opt_len 255) bad_len) (
          Errors.◌>>◌ (guard (leb total_len cap) buffer) (
            if caps_len == 0
            then ok head
            else (Errors.◌>>=◌ (write_capabilities msg.capabilities (total_len - 12))
                λ caps. ok (head ++ 2 ∷ (caps_len % 256) ∷ caps))))))

unfoldable pub open_has_4b_asn : List Capability → Bool
open_has_4b_asn [] = false
open_has_4b_asn (c ∷ cs) = elim c.value [ asn_4b asn ↦ true | _ ↦ open_has_4b_asn cs ]

-- `libbgp_open_get_4b_asn`, which falls back on the field of two bytes.
unfoldable pub open_get_4b_asn : List Capability → ℕ → ℕ
open_get_4b_asn [] my_asn = my_asn
open_get_4b_asn (c ∷ cs) my_asn = elim c.value [ asn_4b asn ↦ asn | _ ↦ open_get_4b_asn cs my_asn ]

unfoldable pub open_has_mpbgp : List Capability → ℕ → ℕ → Bool
open_has_mpbgp [] afi safi = false
open_has_mpbgp (c ∷ cs) afi safi = elim c.value [
  | mp_bgp a s ↦ if a == afi && s == safi then true else open_has_mpbgp cs afi safi
  | _ ↦ open_has_mpbgp cs afi safi
]
