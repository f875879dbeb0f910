-- ===== src/Prefix4/Compare.antt =====
-- The order of src/prefix4.c.
use Prim.Native.Nat.{Ordering}
use libbgp.Prelude.{◌≡◌, ◌↔◌, arith, length, ap}
use libbgp.Prefix.Order.{swap_order, memcmp_swap, memcmp_refl, memcmp-eq, memcmp_trans}
use libbgp.Prefix4.{Prefix4, IsPrefix4, prefix4_cmp}

record_eq : (a b : Prefix4) → a.addr ≡ b.addr → a.len ≡ b.len → a ≡ b
record_eq a b p q = λ i. record { addr = p i; len = q i }

cmp-eq : (a b : Prefix4) → length a.addr ≡ length b.addr → prefix4_cmp a b ≡ Ordering.eq → a ≡ b
unfolding prefix4_cmp
cmp-eq a b h e = record_eq a b (ground (arith, memcmp-eq a.addr b.addr)) (ground arith)

-- The prefixes with this comparison are totally ordered: swapping the operands swaps the answer, the
-- answer is `eq` exactly for equal prefixes, and `lt` is transitive.
pub prefix4_cmp_order :
    (a b c : Prefix4)
    → IsPrefix4 a
    → IsPrefix4 b
    → IsPrefix4 c
    → (prefix4_cmp b a ≡ swap_order (prefix4_cmp a b))
      × ((prefix4_cmp a b ≡ Ordering.eq) ↔ (a ≡ b))
      × (prefix4_cmp a b ≡ Ordering.lt
          → prefix4_cmp b c ≡ Ordering.lt
          → prefix4_cmp a c ≡ Ordering.lt)
unfolding prefix4_cmp
prefix4_cmp_order a b c ha hb hc = (
  ground (arith, memcmp_swap a.addr b.addr),
  (λ e. cmp-eq a b (omega arith) e, λ e. ground (arith, memcmp_refl a.addr, ap (λ p. p.addr) e)),
  λ p q.
      ground (
        arith,
        memcmp_trans a.addr b.addr c.addr,
        memcmp-eq a.addr b.addr,
        memcmp-eq b.addr c.addr,
      ),
)
