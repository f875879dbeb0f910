-- ===== src/Radix/Entries.antt =====
-- What a trie stands for: a value for each of its paths, and their number.
use libbgp.Prelude.{
  ℕ, ◌+◌, ◌≡◌, refl, sym, ◌∙◌, List, [], ◌∷◌, Bool, true, false, Option, none, some, arith, ◌⊎◌,
  inl, inr,
}
use libbgp.Radix.{Tree, nil, node, node_empty, prune, child, with_child}

-- Two paths are the same.
unfoldable pub same_path : List Bool → List Bool → Bool
same_path [] [] = true
same_path [] (e ∷ es) = false
same_path (d ∷ ds) [] = false
same_path (true ∷ ds) (true ∷ es) = same_path ds es
same_path (false ∷ ds) (false ∷ es) = same_path ds es
same_path (true ∷ ds) (false ∷ es) = false
same_path (false ∷ ds) (true ∷ es) = false

pub same_path_refl : (ds : List Bool) → same_path ds ds ≡ true
unfolding same_path
same_path_refl [] = refl
same_path_refl (true ∷ ds) = same_path_refl ds
same_path_refl (false ∷ ds) = same_path_refl ds

module _ {ℓ} {V : Type ℓ} where
  -- The value at the end of a path.
  unfoldable pub find : List Bool → Tree V → Option V
  find ds nil = none
  find [] (node o l r) = o
  find (true ∷ ds) (node o l r) = find ds r
  find (false ∷ ds) (node o l r) = find ds l

  abbrev one_if_some : Option V → ℕ
  one_if_some none = 0
  one_if_some (some v) = 1

  unfoldable pub count : Tree V → ℕ
  count nil = 0
  count (node o l r) = one_if_some o + count l + count r

  -- No node of the tree is empty.
  abbrev pub IsPruned : Tree V → Type 0
  IsPruned nil = Unit {0}
  IsPruned (node o l r) = (node_empty (node o l r) ≡ false) × IsPruned l × IsPruned r

  -- The tree is one empty node, or pruning keeps it.
  prune_cases : (t : Tree V) → ((t ≡ node none nil nil) × (prune t ≡ nil)) ⊎ (prune t ≡ t)
  unfolding prune
  prune_cases nil = inr refl
  prune_cases (node none nil nil) = inl (refl, refl)
  prune_cases (node none nil (node o l r)) = inr refl
  prune_cases (node none (node o l r) t) = inr refl
  prune_cases (node (some v) l r) = inr refl

  pub find-nil : (ds : List Bool) → find ds nil ≡ none
  unfolding find
  find-nil [] = refl
  find-nil (d ∷ ds) = refl

  pub find-empty : (ds : List Bool) → find ds (node none nil nil) ≡ none
  unfolding find
  find-empty [] = refl
  find-empty (true ∷ ds) = find-nil ds
  find-empty (false ∷ ds) = find-nil ds

  pub find-prune : (ds : List Bool) (t : Tree V) → find ds (prune t) ≡ find ds t
  find-prune ds t = elim (prune_cases t) [
    | inl (e, p) ↦ rw (p, e) (find-nil ds ∙ sym (find-empty ds))
    | inr p ↦ rw p
  ]

  pub count-prune : (t : Tree V) → count (prune t) ≡ count t
  count-prune t = elim (prune_cases t) [
    | inl (e, p) ↦ rw (p, e) (unfold count in omega arith)
    | inr p ↦ rw p
  ]

  -- Every node below is pruned, whatever the root is.
  abbrev pub IsPrunedBelow : Tree V → Type 0
  IsPrunedBelow nil = Unit {0}
  IsPrunedBelow (node o l r) = IsPruned l × IsPruned r

  pub prune-IsPruned : (t : Tree V) → IsPrunedBelow t → IsPruned (prune t)
  unfolding prune
  prune-IsPruned nil h = tt
  prune-IsPruned (node none nil nil) h = tt
  prune-IsPruned (node none nil (node o l r)) h = (refl, h.0, h.1)
  prune-IsPruned (node none (node o l r) t) h = (refl, h.0, h.1)
  prune-IsPruned (node (some v) l r) h = (refl, h.0, h.1)

  pub IsPruned-below : (t : Tree V) → IsPruned t → IsPrunedBelow t
  IsPruned-below nil h = tt
  IsPruned-below (node o l r) h = (h.1, h.2)

  pub prune-pruned : (t : Tree V) → IsPruned t → prune t ≡ t
  unfolding prune
  prune-pruned nil h = refl
  prune-pruned (node o l r) h = rw (h.0)

  -- A child that is replaced by itself.
  pub with_child-child :
      (d : Bool) (o : Option V) (l r : Tree V) → with_child d o l r (child d l r) ≡ node o l r
  unfolding with_child child
  with_child-child true o l r = refl
  with_child-child false o l r = refl

  pub count-with_child :
      (d : Bool) (o : Option V) (l r t : Tree V)
      → count (with_child d o l r t) + count (child d l r) ≡ count (node o l r) + count t
  unfolding count with_child child
  count-with_child true o l r t = omega arith
  count-with_child false o l r t = omega arith

  pub with_child-IsPrunedBelow :
      (d : Bool) (o : Option V) (l r t : Tree V)
      → IsPruned l
      → IsPruned r
      → IsPruned t
      → IsPrunedBelow (with_child d o l r t)
  unfolding with_child
  with_child-IsPrunedBelow true o l r t hl hr h = (hl, h)
  with_child-IsPrunedBelow false o l r t hl hr h = (h, hr)

  pub child-IsPruned : (d : Bool) (l r : Tree V) → IsPruned l → IsPruned r → IsPruned (child d l r)
  unfolding child
  child-IsPruned true l r hl hr = hr
  child-IsPruned false l r hl hr = hl
