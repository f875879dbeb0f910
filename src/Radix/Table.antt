-- ===== src/Radix/Table.antt =====
-- The operations of the radix tree on prefixes, for any width of address: together they are a map from
-- prefixes to values with a longest-prefix lookup.
use libbgp.Prelude.{
  ℕ, ◌+◌, ◌≤◌, ◌<◌, ◌≡◌, refl, sym, ap, ◌∙◌, List, [], Option, none, some, arith, ◌⊎◌, inl, inr,
  if◌then◌else◌, ge→ltb,
}
use libbgp.Prelude.Errors.{Result, ok, err, nomem, not_found, Mem}
use libbgp.Radix.{
  Tree, prune, Radix, Walk, done, failed, finish_insert, radix_insert, radix_remove, finish_remove,
  radix_lookup_lpm, directions,
}
use libbgp.Radix.Entries.{find, count, IsPruned, find-prune, count-prune, prune-IsPruned}
use libbgp.Radix.Paths.{same_prefix, length-directions, take-directions}
use libbgp.Radix.Insert.{OutcomeOf, insert-Outcome, IsDone, insert-IsDone}
use libbgp.Radix.Remove.{RemoveOutcome, remove_node-Outcome}
use libbgp.Radix.Lookup.{lpm_loop-IsLongest}

module _ {ℓ} {V : Type ℓ} where
  -- The value stored for a prefix.
  unfoldable pub value_at : Radix V → List ℕ → ℕ → Option V
  value_at tree addr n = find (directions addr 0 n) tree.root

  -- No empty node is kept, and `len` is the number of values.
  pub record IsRadix (tree : Radix V) : Type ℓ where
    pub pruned : IsPruned tree.root
    pub counted : tree.len ≡ count tree.root

  -- What an insertion of `v` at a prefix has done to `old`.
  abbrev pub Inserted : Radix V → List ℕ → ℕ → V → Result (Unit {0}) × Radix V × Mem → Type ℓ
  Inserted old addr n v r =
      ((r.0 ≡ ok tt)
        × IsRadix r.1
        × ((b : List ℕ) (k : ℕ)
            → value_at r.1 b k ≡ (if same_prefix b k addr n then some v else value_at old b k)))
      ⊎ ((r.0 ≡ err nomem) × (r.1 ≡ old))

  finish-Inserted :
      (old : Radix V) (addr : List ℕ) (n : ℕ) (v : V) (w : Walk V)
      → IsRadix old
      → OutcomeOf (directions addr 0 n) v old.root w
      → Inserted old addr n v (finish_insert old w)
  unfolding finish_insert value_at same_prefix
  finish-Inserted old addr n v (done t fresh m) h u = inl (
    refl,
    record { pruned = u.pruned; counted = ground (arith, h.counted, u.counts) },
    λ b k. u.reads (directions b 0 k),
  )
  finish-Inserted old addr n v (failed t m) h e =
      inr (refl, λ i. record { root = e i; len = old.len })

  pub radix_insert-Inserted :
      (width : ℕ) (tree : Radix V) (addr : List ℕ) (n : ℕ) (v : V) (m : Mem)
      → IsRadix tree
      → n ≤ width
      → Inserted tree addr n v (radix_insert width tree addr n v m)
  unfolding radix_insert
  radix_insert-Inserted width tree addr n v m h le = rw (ge→ltb width n le) (
      finish-Inserted tree addr n v _ h
        (insert-Outcome (directions addr 0 n) v tree.root h.pruned m))

  finish-done : (old : Radix V) (w : Walk V) → IsDone w → (finish_insert old w).0 ≡ ok tt
  unfolding finish_insert
  finish-done old (done t fresh m) h = refl
  finish-done old (failed t m) h = absurd h

  -- An allocator that does not fail lets every insertion succeed.
  pub radix_insert-ok :
      (width : ℕ) (tree : Radix V) (addr : List ℕ) (n : ℕ) (v : V)
      → n ≤ width
      → (radix_insert width tree addr n v []).0 ≡ ok tt
  unfolding radix_insert
  radix_insert-ok width tree addr n v le =
      rw (ge→ltb width n le) (finish-done tree _ (insert-IsDone (directions addr 0 n) v tree.root))

  -- What a removal has done to `old`.
  abbrev pub Removed : Radix V → List ℕ → ℕ → Result (Unit {0}) × Radix V → Type ℓ
  Removed old addr n r =
      ((r.0 ≡ ok tt)
        × ((v : V) × (value_at old addr n ≡ some v))
        × IsRadix r.1
        × (r.1.len + 1 ≡ old.len)
        × ((b : List ℕ) (k : ℕ)
            → value_at r.1 b k ≡ (if same_prefix b k addr n then none else value_at old b k)))
      ⊎ ((r.0 ≡ err not_found) × (value_at old addr n ≡ none) × (r.1 ≡ old))

  finish-Removed :
      (old : Radix V) (addr : List ℕ) (n : ℕ) (answer : Option (Tree V))
      → IsRadix old
      → RemoveOutcome (directions addr 0 n) old.root answer
      → Removed old addr n (finish_remove old answer)
  unfolding finish_remove value_at same_prefix
  finish-Removed old addr n none h e = inr (refl, e, refl)
  finish-Removed old addr n (some t) h u =
      let fewer : count (prune t) + 1 ≡ count old.root = omega (arith, count-prune t, u.counts) in
      inl (
        refl,
        u.present,
        record { pruned = prune-IsPruned t u.below; counted = omega (arith, h.counted) },
        omega (arith, h.counted),
        λ b k. find-prune (directions b 0 k) t ∙ u.reads (directions b 0 k),
      )

  pub radix_remove-Removed :
      (width : ℕ) (tree : Radix V) (addr : List ℕ) (n : ℕ)
      → IsRadix tree
      → n ≤ width
      → Removed tree addr n (radix_remove width tree addr n)
  unfolding radix_remove
  radix_remove-Removed width tree addr n h le = rw (ge→ltb width n le) (
      finish-Removed tree addr n _ h (remove_node-Outcome (directions addr 0 n) tree.root h.pruned))

  -- `v` is the value of the longest prefix of `addr` that has one, or `null` if there is none.
  abbrev pub IsLongestMatch : ℕ → V → Radix V → List ℕ → V → Type ℓ
  IsLongestMatch width null tree addr v =
      ((k : ℕ) × (k ≤ width)
        × (value_at tree addr k ≡ some v)
        × ((j : ℕ) → k < j → j ≤ width → value_at tree addr j ≡ none))
      ⊎ (((j : ℕ) → j ≤ width → value_at tree addr j ≡ none) × (v ≡ null))

  pub radix_lookup-IsLongestMatch :
      (width : ℕ) (null : V) (tree : Radix V) (addr : List ℕ)
      → IsLongestMatch width null tree addr (radix_lookup_lpm width null tree addr)
  unfolding radix_lookup_lpm value_at
  radix_lookup-IsLongestMatch width null tree addr =
      let ds = directions addr 0 width in
      let size = length-directions addr 0 width in
      let at = λ (j : ℕ) (le : j ≤ width).
        ap (λ q. find q tree.root) (take-directions addr 0 width j le) in
      elim (lpm_loop-IsLongest ds tree.root null) [
        | inl (k, le, here, longer) ↦
            let k_le : k ≤ width = omega (arith, size) in
            inl (
              k,
              k_le,
              sym (at k k_le) ∙ here,
              λ j lt jle. sym (at j jle) ∙ longer j lt (omega (arith, size)),
            )
        | inr (nowhere, e) ↦ inr (λ j jle. sym (at j jle) ∙ nowhere j (omega (arith, size)), e)
      ]
