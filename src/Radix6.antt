-- ===== src/Radix6.antt =====
-- src/radix6.c: the radix tree over IPv6 addresses of 128 bits, given as their 16 bytes.
use libbgp.Prelude.{ℕ, ◌≤◌, ◌≡◌, List, []}
use libbgp.Prelude.Errors.{Result, ok, Mem}
use libbgp.Radix.{Radix, nil, radix_insert, radix_remove, radix_lookup_lpm}
use libbgp.Radix.Table.{
  IsRadix, Inserted, Removed, IsLongestMatch, radix_insert-Inserted, radix_insert-ok,
  radix_remove-Removed, radix_lookup-IsLongestMatch,
}

module _ {ℓ} {V : Type ℓ} where
  unfoldable pub radix6_init : Radix V
  radix6_init = record { root = nil; len = 0 }

  -- The nodes are freed and the tree is zeroed.
  unfoldable pub radix6_destroy : Radix V → Radix V
  radix6_destroy tree = record tree { root = nil; len = 0 }

  unfoldable pub radix6_insert : Radix V → List ℕ → ℕ → V → Mem → Result (Unit {0}) × Radix V × Mem
  radix6_insert = radix_insert 128

  unfoldable pub radix6_remove : Radix V → List ℕ → ℕ → Result (Unit {0}) × Radix V
  radix6_remove = radix_remove 128

  unfoldable pub radix6_lookup_lpm : V → Radix V → List ℕ → V
  radix6_lookup_lpm = radix_lookup_lpm 128

  -- For prefixes of at most 128 bits: an insertion sets exactly its prefix, or fails with NOMEM and
  -- leaves the tree as it was, and it succeeds if the allocator does not fail; a removal clears exactly
  -- its prefix, or answers NOT_FOUND and changes nothing; a lookup answers with the value of the longest
  -- stored prefix that the address starts with, or NULL if there is none.
  pub radix6_table :
      (tree : Radix V) (addr : List ℕ) (n : ℕ) (v null : V) (m : Mem)
      → IsRadix tree
      → n ≤ 128
      → Inserted tree addr n v (radix6_insert tree addr n v m)
        × ((radix6_insert tree addr n v []).0 ≡ ok tt)
        × Removed tree addr n (radix6_remove tree addr n)
        × IsLongestMatch 128 null tree addr (radix6_lookup_lpm null tree addr)
  unfolding radix6_insert radix6_remove radix6_lookup_lpm
  radix6_table tree addr n v null m h le = (
    radix_insert-Inserted 128 tree addr n v m h le,
    radix_insert-ok 128 tree addr n v le,
    radix_remove-Removed 128 tree addr n h le,
    radix_lookup-IsLongestMatch 128 null tree addr,
  )
