-- ===== src/Prefix6/Includes.antt =====
-- Containment of prefixes in src/prefix6.c against the bits of the addresses.
use libbgp.Prelude.{◌≤◌, ◌≡◌, ◌↔◌, true, ◌&&◌, leb, ge→ltb, arith}
use libbgp.Prefix.{mask_bytes}
use libbgp.Prefix.Mask.{length-mask_bytes}
use libbgp.Prefix.Bits.{SameBits}
use libbgp.Prefix.Agree.{agree, longer_agree_iff, bytes_eq_symm}
use libbgp.Prefix6.{Prefix6, IsPrefix6, prefix6_includes}
use libbgp.Prefix6.Masks.{mask_addr-mask_bytes}

includes_masked :
    (outer inner : Prefix6)
    → IsPrefix6 outer
    → IsPrefix6 inner
    → prefix6_includes outer inner
      ≡ (leb outer.len inner.len && agree outer.len outer.addr inner.addr)
unfolding prefix6_includes agree
includes_masked outer inner ho hi =
    rw
      (
        ge→ltb 128 outer.len ho.short,
        ge→ltb 128 inner.len hi.short,
        mask_addr-mask_bytes outer.len outer.addr ho.bytes ho.sized ho.short,
        mask_addr-mask_bytes outer.len inner.addr hi.bytes hi.sized ho.short,
      )
      (ground (
        arith,
        bytes_eq_symm (mask_bytes outer.len inner.addr) (mask_bytes outer.len outer.addr),
        length-mask_bytes outer.len outer.addr,
        length-mask_bytes outer.len inner.addr,
      ))

-- For valid prefixes `prefix6_includes` answers true exactly if the inner prefix is at least as long
-- as the outer one and the leading `outer.len` bits of the two addresses are the same.
pub prefix6_includes_iff :
    (outer inner : Prefix6)
    → IsPrefix6 outer
    → IsPrefix6 inner
    → (prefix6_includes outer inner ≡ true)
      ↔ ((outer.len ≤ inner.len) × SameBits outer.len inner.addr outer.addr)
prefix6_includes_iff outer inner ho hi =
    rw (includes_masked outer inner ho hi) (longer_agree_iff outer.len inner.len ho hi)
