-- ===== src/Radix/Lookup.antt =====
-- The lookup finds the value of the longest path in the trie that leads towards the address.
use libbgp.Prelude.{
  ℕ, zero, suc, ◌≤◌, ◌<◌, ◌≡◌, refl, sym, ap, ◌∙◌, List, [], ◌∷◌, Bool, true, false, Option, none,
  some, arith, ◌⊎◌, inl, inr, length, take,
}
use libbgp.Radix.{Tree, nil, node, child, or_best, lpm_loop}
use libbgp.Radix.Entries.{find, find-nil}

module _ {ℓ} {V : Type ℓ} where
  -- `v` is the value at the longest of the first `length ds` + 1 prefixes of `ds` that has one, or
  -- `best` if none of them has a value.
  abbrev pub IsLongest : List Bool → Tree V → V → V → Type ℓ
  IsLongest ds t best v =
      ((k : ℕ) × (k ≤ length ds)
        × (find (take k ds) t ≡ some v)
        × ((j : ℕ) → k < j → j ≤ length ds → find (take j ds) t ≡ none))
      ⊎ (((j : ℕ) → j ≤ length ds → find (take j ds) t ≡ none) × (v ≡ best))

  find-child :
      (d : Bool) (q : List Bool) (o : Option V) (l r : Tree V)
      → find (d ∷ q) (node o l r) ≡ find q (child d l r)
  unfolding find child
  find-child true q o l r = refl
  find-child false q o l r = refl

  -- One more step of the path, above what is known of the child that it leads to.
  IsLongest-step :
      (d : Bool) (ds : List Bool) (o : Option V) (l r : Tree V) (best v : V)
      → IsLongest ds (child d l r) (or_best o best) v
      → IsLongest (d ∷ ds) (node o l r) best v
  unfolding or_best find
  IsLongest-step d ds o l r best v (inl (k, le, here, longer)) = inl (
    suc k,
    omega arith,
    find-child d (take k ds) o l r ∙ here,
    λ j.
        elim j
          as (λ j. suc k < j → j ≤ suc (length ds) → find (take j (d ∷ ds)) (node o l r) ≡ none) [
            | zero ↦ λ lt h. absurd (omega arith)
            | suc j ↦ λ lt h. find-child d (take j ds) o l r ∙ longer j (omega arith) (omega arith)
          ],
  )
  IsLongest-step d ds none l r best v (inr (nowhere, e)) = inr (
    elim [
      | zero ↦ λ h. refl
      | suc j ↦ λ h. find-child d (take j ds) none l r ∙ nowhere j (omega arith)
    ],
    e,
  )
  IsLongest-step d ds (some w) l r best v (inr (nowhere, e)) = inl (
    0,
    omega arith,
    ap some (sym e),
    elim [
      | zero ↦ λ lt h. absurd (omega arith)
      | suc j ↦ λ lt h. find-child d (take j ds) (some w) l r ∙ nowhere j (omega arith)
    ],
  )

  -- The loop below one node: a value found later replaces the one found before.
  pub lpm_loop-IsLongest :
      (ds : List Bool) (t : Tree V) (best : V) → IsLongest ds t best (lpm_loop ds t best)
  unfolding lpm_loop or_best find
  lpm_loop-IsLongest ds nil best = inr (λ j h. find-nil (take j ds), refl)
  lpm_loop-IsLongest [] (node none l r) best =
      inr (elim [ zero ↦ λ h. refl | suc j ↦ λ h. refl ], refl)
  lpm_loop-IsLongest [] (node (some v) l r) best =
      inl (0, omega arith, refl, λ j lt h. absurd (omega arith))
  lpm_loop-IsLongest (d ∷ ds) (node o l r) best =
      IsLongest-step d ds o l r best _ (lpm_loop-IsLongest ds (child d l r) (or_best o best))
