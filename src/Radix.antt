-- ===== src/Radix.antt =====
-- src/radix4.c and src/radix6.c, which differ in the width of the address only: a binary trie.
-- A NULL pointer is `nil`; `has_value` and `value` of a node are one Option, since a node without a
-- value holds NULL. The loops that go down and record the path are recursions that go down and come
-- back; the code's loop up the path, which stops at the first node that is not empty, is `prune` at each
-- node on the way back, where a node above one that is kept has a child and is kept too.
pub mod Entries
pub mod Paths
pub mod Insert
pub mod Remove
pub mod Lookup
pub mod Table
use libbgp.Prelude.{
  ℕ, zero, suc, ◌+◌, ◌-◌, List, [], ◌∷◌, Bool, true, false, Option, none, some, ◌==◌, ltb,
  if◌then◌else◌,
}
use libbgp.Prelude.Bits.{bit_of}
use libbgp.Prelude.Errors.{Result, ok, err, invalid, nomem, not_found, Mem, allocate}

pub data Tree {ℓ} (V : Type ℓ) : Type ℓ where
  nil : Tree V
  node : Option V → Tree V → Tree V → Tree V

pub record Radix {ℓ} (V : Type ℓ) : Type ℓ where
  pub root : Tree V
  pub len : ℕ

-- `bgp_radix4_bit`: whether the bit is 1, which chooses the child.
unfoldable pub radix_bit : List ℕ → ℕ → Bool
radix_bit addr bit = bit_of addr bit == 1

-- The directions `bit`, `bit + 1`, … of an address, `count` of them.
unfoldable pub directions : List ℕ → ℕ → ℕ → List Bool
directions addr bit zero = []
directions addr bit (suc count) = radix_bit addr bit ∷ directions addr (bit + 1) count

-- What going down for an insertion ends in: the subtree with the value and whether it is a new entry,
-- or the subtree as it is when the allocator has failed below; and the allocator's state.
pub data Walk {ℓ} (V : Type ℓ) : Type ℓ where
  done : Tree V → Bool → Mem → Walk V
  failed : Tree V → Mem → Walk V

module _ {ℓ} {V : Type ℓ} where
  unfoldable pub node_empty : Tree V → Bool
  node_empty nil = false
  node_empty (node none nil nil) = true
  node_empty _ = false

  -- A node that is left empty is freed, and the pointer to it is NULL.
  unfoldable pub prune : Tree V → Tree V
  unfolding node_empty
  prune t = if node_empty t then nil else t

  unfoldable pub child : Bool → Tree V → Tree V → Tree V
  child false l r = l
  child true l r = r

  unfoldable pub with_child : Bool → Option V → Tree V → Tree V → Tree V → Tree V
  with_child false o l r t = node o t r
  with_child true o l r t = node o l t

  is_new : Option V → Bool
  is_new none = true
  is_new (some v) = false

  -- The next node on the way down, allocated if the pointer is NULL.
  unfoldable pub descend : (Option V → Tree V → Tree V → Mem → Walk V) → Tree V → Mem → Walk V
  descend go nil m =
      let got = allocate m in if got.0 then go none nil nil got.1 else failed nil got.1
  descend go (node o l r) m = go o l r m

  unfoldable pub attach : Bool → Option V → Tree V → Tree V → Walk V → Walk V
  unfolding with_child
  attach d o l r (done t fresh m) = done (with_child d o l r t) fresh m
  attach d o l r (failed t m) = failed (with_child d o l r (prune t)) m

  unfoldable pub insert_node : List Bool → V → Option V → Tree V → Tree V → Mem → Walk V
  unfolding is_new
  insert_node [] v o l r m = done (node (some v) l r) (is_new o) m
  insert_node (d ∷ ds) v o l r m = attach d o l r (descend (insert_node ds v) (child d l r) m)

  unfoldable pub finish_insert : Radix V → Walk V → Result (Unit {0}) × Radix V × Mem
  finish_insert tree (done t fresh m) =
      (ok tt, record { root = t; len = if fresh then tree.len + 1 else tree.len }, m)
  finish_insert tree (failed t m) = (err nomem, record tree { root = prune t }, m)

  -- `bgp_radix4_insert`, for addresses of `width` bits.
  unfoldable pub radix_insert :
      ℕ → Radix V → List ℕ → ℕ → V → Mem → Result (Unit {0}) × Radix V × Mem
  radix_insert width tree addr prefix_len value m =
      if ltb width prefix_len
      then (err invalid, tree, m)
      else finish_insert tree
          (descend (insert_node (directions addr 0 prefix_len) value) tree.root m)

  unfoldable pub detach : Bool → Option V → Tree V → Tree V → Option (Tree V) → Option (Tree V)
  unfolding with_child
  detach d o l r none = none
  detach d o l r (some t) = some (with_child d o l r (prune t))

  -- The subtree without the entry, or `none` if there is no such entry.
  unfoldable pub remove_node : List Bool → Tree V → Option (Tree V)
  unfolding detach child
  remove_node ds nil = none
  remove_node [] (node none l r) = none
  remove_node [] (node (some v) l r) = some (node none l r)
  remove_node (d ∷ ds) (node o l r) = detach d o l r (remove_node ds (child d l r))

  unfoldable pub finish_remove : Radix V → Option (Tree V) → Result (Unit {0}) × Radix V
  finish_remove tree none = (err not_found, tree)
  finish_remove tree (some t) = (ok tt, record { root = prune t; len = tree.len - 1 })

  -- `bgp_radix4_remove`
  unfoldable pub radix_remove : ℕ → Radix V → List ℕ → ℕ → Result (Unit {0}) × Radix V
  radix_remove width tree addr prefix_len =
      if ltb width prefix_len
      then (err invalid, tree)
      else finish_remove tree (remove_node (directions addr 0 prefix_len) tree.root)

  unfoldable pub or_best : Option V → V → V
  or_best none best = best
  or_best (some v) best = v

  unfoldable pub lpm_loop : List Bool → Tree V → V → V
  unfolding or_best
  lpm_loop ds nil best = best
  lpm_loop [] (node o l r) best = or_best o best
  lpm_loop (d ∷ ds) (node o l r) best = lpm_loop ds (child d l r) (or_best o best)

  -- `bgp_radix4_lookup_lpm`; `null` is the NULL pointer.
  unfoldable pub radix_lookup_lpm : ℕ → V → Radix V → List ℕ → V
  radix_lookup_lpm width null tree addr = lpm_loop (directions addr 0 width) tree.root null
