-- ===== src/Prefix/Order.antt =====
-- memcmp on byte strings of one length is a total order.
use Prim.Native.Nat.{Ordering}
use libbgp.Prelude.{ℕ, ◌≡◌, refl, List, [], ◌∷◌, length, arith}
use libbgp.Prefix.{memcmp}

-- The answer with its two operands swapped.
abbrev pub swap_order : Ordering → Ordering
swap_order Ordering.lt = Ordering.gt
swap_order Ordering.eq = Ordering.eq
swap_order Ordering.gt = Ordering.lt

pub memcmp_swap :
    (xs ys : List ℕ) → length xs ≡ length ys → memcmp ys xs ≡ swap_order (memcmp xs ys)
unfolding memcmp
memcmp_swap [] [] h = refl
memcmp_swap [] (y ∷ ys) h = absurd (omega arith)
memcmp_swap (x ∷ xs) [] h = absurd (omega arith)
memcmp_swap (x ∷ xs) (y ∷ ys) h = ground (arith, memcmp_swap xs ys)

pub memcmp_refl : (xs : List ℕ) → memcmp xs xs ≡ Ordering.eq
unfolding memcmp
memcmp_refl [] = refl
memcmp_refl (x ∷ xs) = ground (arith, memcmp_refl xs)

pub memcmp-eq : (xs ys : List ℕ) → length xs ≡ length ys → memcmp xs ys ≡ Ordering.eq → xs ≡ ys
unfolding memcmp
memcmp-eq [] [] h e = refl
memcmp-eq [] (y ∷ ys) h e = absurd (omega arith)
memcmp-eq (x ∷ xs) [] h e = absurd (omega arith)
memcmp-eq (x ∷ xs) (y ∷ ys) h e = ground (arith, memcmp-eq xs ys)

pub memcmp_trans :
    (xs ys zs : List ℕ)
    → length xs ≡ length ys
    → length ys ≡ length zs
    → memcmp xs ys ≡ Ordering.lt
    → memcmp ys zs ≡ Ordering.lt
    → memcmp xs zs ≡ Ordering.lt
unfolding memcmp
memcmp_trans [] ys zs h k p q = ground arith
memcmp_trans (x ∷ xs) [] zs h k p q = absurd (omega arith)
memcmp_trans (x ∷ xs) (y ∷ ys) [] h k p q = absurd (omega arith)
memcmp_trans (x ∷ xs) (y ∷ ys) (z ∷ zs) h k p q = ground (arith, memcmp_trans xs ys zs)
