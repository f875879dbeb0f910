-- ===== src/Radix/Remove.antt =====
-- Removal from a trie: one entry less, or nothing changes if there is no such entry.
use libbgp.Prelude.{
  ◌+◌, ◌≡◌, refl, ◌∙◌, List, [], ◌∷◌, Bool, true, false, Option, none, some, arith, if◌then◌else◌,
}
use libbgp.Radix.{Tree, nil, node, prune, child, detach, with_child, remove_node}
use libbgp.Radix.Entries.{
  same_path, find, count, IsPruned, IsPrunedBelow, find-prune, count-prune, prune-IsPruned,
  find-nil, count-with_child, with_child-IsPrunedBelow, child-IsPruned,
}

module _ {ℓ} {V : Type ℓ} where
  -- `t` reads like `old` without the entry at `ds`, which was there.
  pub record Removes (ds : List Bool) (old t : Tree V) : Type ℓ where
    pub present : (v : V) × (find ds old ≡ some v)
    pub reads : (q : List Bool) → find q t ≡ (if same_path q ds then none else find q old)
    pub counts : count t + 1 ≡ count old
    pub below : IsPrunedBelow t

  abbrev pub RemoveOutcome : List Bool → Tree V → Option (Tree V) → Type ℓ
  RemoveOutcome ds old none = find ds old ≡ none
  RemoveOutcome ds old (some t) = Removes ds old t

  leaf_reads :
      (v : V) (l r : Tree V) (q : List Bool)
      → find q (node none l r) ≡ (if same_path q [] then none else find q (node (some v) l r))
  unfolding find same_path
  leaf_reads v l r [] = refl
  leaf_reads v l r (true ∷ q) = refl
  leaf_reads v l r (false ∷ q) = refl

  with_child-reads :
      (d : Bool) (ds : List Bool) (o : Option V) (l r t : Tree V) (q : List Bool)
      → ((q : List Bool) → find q t ≡ (if same_path q ds then none else find q (child d l r)))
      → find q (with_child d o l r t) ≡ (if same_path q (d ∷ ds) then none else find q (node o l r))
  unfolding find with_child child same_path
  with_child-reads d ds o l r t [] h = ground arith
  with_child-reads true ds o l r t (true ∷ q) h = h q
  with_child-reads true ds o l r t (false ∷ q) h = refl
  with_child-reads false ds o l r t (true ∷ q) h = refl
  with_child-reads false ds o l r t (false ∷ q) h = h q

  find-cons :
      (d : Bool) (ds : List Bool) (o : Option V) (l r : Tree V)
      → find (d ∷ ds) (node o l r) ≡ find ds (child d l r)
  unfolding find child
  find-cons true ds o l r = refl
  find-cons false ds o l r = refl

  detach-Outcome :
      (d : Bool) (ds : List Bool) (o : Option V) (l r : Tree V) (answer : Option (Tree V))
      → IsPruned l
      → IsPruned r
      → RemoveOutcome ds (child d l r) answer
      → RemoveOutcome (d ∷ ds) (node o l r) (detach d o l r answer)
  unfolding detach
  detach-Outcome d ds o l r none hl hr e = find-cons d ds o l r ∙ e
  detach-Outcome d ds o l r (some t) hl hr u =
      let pruned = prune-IsPruned t u.below in
      record {
        present = (u.present.0, find-cons d ds o l r ∙ u.present.1);
        reads = λ q. with_child-reads d ds o l r (prune t) q (λ q. find-prune q t ∙ u.reads q);
        counts = omega (arith, count-with_child d o l r (prune t), count-prune t, u.counts);
        below = with_child-IsPrunedBelow d o l r (prune t) hl hr pruned;
      }

  pub remove_node-Outcome :
      (ds : List Bool) (t : Tree V) → IsPruned t → RemoveOutcome ds t (remove_node ds t)
  unfolding remove_node child
  remove_node-Outcome ds nil h = find-nil ds
  remove_node-Outcome [] (node none l r) h = unfold find in refl
  remove_node-Outcome [] (node (some v) l r) h = record {
    present = (v, unfold find in refl);
    reads = leaf_reads v l r;
    counts = unfold count in omega arith;
    below = (h.1, h.2);
  }
  remove_node-Outcome (d ∷ ds) (node o l r) h =
      detach-Outcome d ds o l r (remove_node ds (child d l r)) h.1 h.2
        (remove_node-Outcome ds (child d l r) (child-IsPruned d l r h.1 h.2))
