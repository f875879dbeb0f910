-- ===== src/Radix4/Reachable.antt =====
-- The trees that calls of src/radix4.c lead to, from an empty tree.
use libbgp.Prelude.{ℕ, inl, inr, refl, sym, subst, List, Bool-cases, ltb, arith}
use libbgp.Prelude.Errors.{Mem}
use libbgp.Radix.{Radix, radix_insert, radix_remove}
use libbgp.Radix.Entries.{count}
use libbgp.Radix.Table.{IsRadix}
use libbgp.Radix4.{
  radix4_init, radix4_insert, radix4_remove, radix4_insert-Inserted, radix4_remove-Removed,
}

pub data Reachable {ℓ} {V : Type ℓ} : Radix V → Type ℓ where
  started : Reachable radix4_init
  inserted :
      {tree : Radix V} (addr : List ℕ) (n : ℕ) (v : V) (m : Mem)
      → Reachable tree
      → Reachable (radix4_insert tree addr n v m).1
  removed :
      {tree : Radix V} (addr : List ℕ) (n : ℕ)
      → Reachable tree
      → Reachable (radix4_remove tree addr n).1

module _ {ℓ} {V : Type ℓ} where
  init-IsRadix : IsRadix {V = V} radix4_init
  unfolding radix4_init count
  init-IsRadix = record { pruned = tt; counted = refl }

  insert-IsRadix :
      (tree : Radix V) (addr : List ℕ) (n : ℕ) (v : V) (m : Mem)
      → IsRadix tree
      → IsRadix (radix4_insert tree addr n v m).1
  insert-IsRadix tree addr n v m h = elim (Bool-cases (ltb 32 n)) [
    | inl far ↦ unfold radix4_insert radix_insert in rw far h
    | inr near ↦ elim (radix4_insert-Inserted tree addr n v m h (ground arith)).0 [
      | inl done ↦ done.1
      | inr failed ↦ subst IsRadix (sym failed.1) h
    ]
  ]

  remove-IsRadix :
      (tree : Radix V) (addr : List ℕ) (n : ℕ)
      → IsRadix tree
      → IsRadix (radix4_remove tree addr n).1
  remove-IsRadix tree addr n h = elim (Bool-cases (ltb 32 n)) [
    | inl far ↦ unfold radix4_remove radix_remove in rw far h
    | inr near ↦ elim (radix4_remove-Removed tree addr n h (ground arith)) [
      | inl done ↦ done.2
      | inr absent ↦ subst IsRadix (sym absent.2) h
    ]
  ]

-- Every tree that insertions and removals lead to from an empty tree, whatever their arguments and with
-- allocation failures at any place, keeps no empty node and counts its entries.
pub Reachable-IsRadix {ℓ} : {V : Type ℓ} {tree : Radix V} → Reachable tree → IsRadix tree
Reachable-IsRadix started = init-IsRadix
Reachable-IsRadix (inserted addr n v m r) = insert-IsRadix _ addr n v m (Reachable-IsRadix r)
Reachable-IsRadix (removed addr n r) = remove-IsRadix _ addr n (Reachable-IsRadix r)
