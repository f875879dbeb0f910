-- ===== src/Prefix4/Order.antt =====
-- Containment of prefixes in src/prefix4.c as an order.
use libbgp.Prelude.{◌≡◌, refl, sym, ap, ap₂, ◌∙◌, true, arith}
use libbgp.Prefix.{mask_bytes}
use libbgp.Prefix.Bits.{SameBits, same-mask_bytes}
use libbgp.Prefix.Codec.{canonical}
use libbgp.Prefix4.{Prefix4, IsPrefix4, prefix4_includes}
use libbgp.Prefix4.Includes.{prefix4_includes_iff}

same-canonical :
    (a b : Prefix4)
    → IsPrefix4 a
    → IsPrefix4 b
    → a.len ≡ b.len
    → SameBits a.len a.addr b.addr
    → canonical a ≡ canonical b
same-canonical a b ha hb e same =
    let masked =
      same-mask_bytes a.len a.addr b.addr ha.bytes hb.bytes (ha.sized ∙ sym hb.sized) same in
    let bytes = masked ∙ ap (λ n. mask_bytes n b.addr) e in
    ap₂ (λ x n. record { addr = x; len = n }) bytes e

-- On valid prefixes containment is an order up to host bits: every prefix includes itself, what a prefix
-- includes it includes with all that is inside, and two prefixes that include each other are the same once
-- their host bits are cleared.
pub prefix4_includes_order :
    (a b c : Prefix4)
    → IsPrefix4 a
    → IsPrefix4 b
    → IsPrefix4 c
    → (prefix4_includes a a ≡ true)
      × (prefix4_includes a b ≡ true → prefix4_includes b c ≡ true → prefix4_includes a c ≡ true)
      × (prefix4_includes a b ≡ true → prefix4_includes b a ≡ true → canonical a ≡ canonical b)
prefix4_includes_order a b c ha hb hc = (
  (prefix4_includes_iff a a ha ha).1 (omega arith, λ i h. refl),
  λ ab bc.
      let p = (prefix4_includes_iff a b ha hb).0 ab in
      let q = (prefix4_includes_iff b c hb hc).0 bc in
      (prefix4_includes_iff a c ha hc).1 (omega arith, λ i h. q.1 i (omega arith) ∙ p.1 i h),
  λ ab ba.
      let p = (prefix4_includes_iff a b ha hb).0 ab in
      let q = (prefix4_includes_iff b a hb ha).0 ba in
      same-canonical a b ha hb (omega arith) (λ i h. sym (p.1 i h)),
)
