-- ===== src/Radix4.antt =====
-- src/radix4.c: the radix tree over IPv4 addresses of 32 bits, given as their four bytes in memory.
pub mod Reachable
use libbgp.Prelude.{ℕ, ◌≤◌, ◌≡◌, List, []}
use libbgp.Prelude.Errors.{Result, ok, Mem}
use libbgp.Radix.{Radix, nil, radix_insert, radix_remove, radix_lookup_lpm}
use libbgp.Radix.Table.{
  IsRadix, Inserted, Removed, IsLongestMatch, radix_insert-Inserted, radix_insert-ok,
  radix_remove-Removed, radix_lookup-IsLongestMatch,
}

module _ {ℓ} {V : Type ℓ} where
  unfoldable pub radix4_init : Radix V
  radix4_init = record { root = nil; len = 0 }

  -- The nodes are freed and the tree is zeroed.
  unfoldable pub radix4_destroy : Radix V → Radix V
  radix4_destroy tree = record tree { root = nil; len = 0 }

  unfoldable pub radix4_insert : Radix V → List ℕ → ℕ → V → Mem → Result (Unit {0}) × Radix V × Mem
  radix4_insert = radix_insert 32

  unfoldable pub radix4_remove : Radix V → List ℕ → ℕ → Result (Unit {0}) × Radix V
  radix4_remove = radix_remove 32

  unfoldable pub radix4_lookup_lpm : V → Radix V → List ℕ → V
  radix4_lookup_lpm = radix_lookup_lpm 32

  -- Inserting a prefix of at most 32 bits either succeeds, and then the tree holds the value at exactly
  -- that prefix and otherwise what it held, is well formed and counts its entries; or the allocator
  -- failed, the answer is NOMEM and the tree is what it was. If the allocator does not fail it succeeds.
  pub radix4_insert-Inserted :
      (tree : Radix V) (addr : List ℕ) (n : ℕ) (v : V) (m : Mem)
      → IsRadix tree
      → n ≤ 32
      → Inserted tree addr n v (radix4_insert tree addr n v m)
        × ((radix4_insert tree addr n v []).0 ≡ ok tt)
  unfolding radix4_insert
  radix4_insert-Inserted tree addr n v m h le =
      (radix_insert-Inserted 32 tree addr n v m h le, radix_insert-ok 32 tree addr n v le)

  -- Removing a prefix of at most 32 bits that has a value clears exactly that prefix, keeps the tree
  -- well formed and counts one entry less; removing one that has none answers NOT_FOUND and changes
  -- nothing.
  pub radix4_remove-Removed :
      (tree : Radix V) (addr : List ℕ) (n : ℕ)
      → IsRadix tree
      → n ≤ 32
      → Removed tree addr n (radix4_remove tree addr n)
  unfolding radix4_remove
  radix4_remove-Removed = radix_remove-Removed 32

  -- A lookup answers with the value of the longest stored prefix that the address starts with, and with
  -- NULL if no stored prefix fits.
  pub radix4_lookup-IsLongestMatch :
      (null : V) (tree : Radix V) (addr : List ℕ)
      → IsLongestMatch 32 null tree addr (radix4_lookup_lpm null tree addr)
  unfolding radix4_lookup_lpm
  radix4_lookup-IsLongestMatch = radix_lookup-IsLongestMatch 32
