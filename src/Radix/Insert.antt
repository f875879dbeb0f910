-- ===== src/Radix/Insert.antt =====
-- Insertion into a trie as an update of the map from paths to values.
use libbgp.Prelude.{
  ◌+◌, ◌≡◌, refl, sym, ap, ◌∙◌, subst, List, [], ◌∷◌, Bool, true, false, Option, none, some, arith,
  if◌then◌else◌,
}
use libbgp.Prelude.Errors.{Mem}
use libbgp.Radix.{
  Tree, nil, node, node_empty, prune, child, with_child, descend, attach, Walk, done, failed,
  insert_node,
}
use libbgp.Radix.Entries.{
  same_path, find, count, IsPruned, prune-pruned, with_child-child, find-nil, find-empty,
  same_path_refl, count-with_child, child-IsPruned,
}

module _ {ℓ} {V : Type ℓ} where
  -- The tree reads like `old` with `v` at the path `ds`, counts a new entry, and is pruned.
  pub record Updates (ds : List Bool) (v : V) (old : Tree V) (t : Tree V) (fresh : Bool)
      : Type ℓ where
    pub reads : (q : List Bool) → find q t ≡ (if same_path q ds then some v else find q old)
    pub counts : count t ≡ count old + (if fresh then 1 else 0)
    pub pruned : IsPruned t

  -- A walk from an existing node: it updates the tree, or leaves it as it was.
  abbrev pub OutcomeAt : List Bool → V → Tree V → Walk V → Type ℓ
  OutcomeAt ds v old (done t fresh m) = Updates ds v old t fresh
  OutcomeAt ds v old (failed t m) = t ≡ old

  -- A walk from a pointer: on failure pruning gives back what it pointed to.
  abbrev pub OutcomeOf : List Bool → V → Tree V → Walk V → Type ℓ
  OutcomeOf ds v old (done t fresh m) = Updates ds v old t fresh
  OutcomeOf ds v old (failed t m) = prune t ≡ old

  leaf_reads :
      (v : V) (o : Option V) (l r : Tree V) (q : List Bool)
      → find q (node (some v) l r) ≡ (if same_path q [] then some v else find q (node o l r))
  unfolding find same_path
  leaf_reads v o l r [] = refl
  leaf_reads v o l r (true ∷ q) = refl
  leaf_reads v o l r (false ∷ q) = refl

  leaf-Updates :
      (v : V) (o : Option V) (l r : Tree V)
      → IsPruned l
      → IsPruned r
      → (m : Mem) → OutcomeAt [] v (node o l r) (insert_node [] v o l r m)
  unfolding insert_node count node_empty
  leaf-Updates v none l r hl hr m = record {
    reads = leaf_reads v none l r;
    counts = omega arith;
    pruned = (refl, hl, hr);
  }
  leaf-Updates v (some w) l r hl hr m = record {
    reads = leaf_reads v (some w) l r;
    counts = omega arith;
    pruned = (refl, hl, hr);
  }

  -- A tree with an entry is a node.
  Updates-some :
      (ds : List Bool) (v : V) (old : Tree V) (fresh : Bool) → ¬ Updates ds v old nil fresh
  Updates-some ds v old fresh u =
      let here = u.reads ds in cc (rw (find-nil ds, same_path_refl ds) at here)

  with_child-reads :
      (d : Bool) (ds : List Bool) (v : V) (o : Option V) (l r t : Tree V) (q : List Bool)
      → ((q : List Bool) → find q t ≡ (if same_path q ds then some v else find q (child d l r)))
      → find q (with_child d o l r t)
        ≡ (if same_path q (d ∷ ds) then some v else find q (node o l r))
  unfolding find with_child child same_path
  with_child-reads d ds v o l r t [] h = ground arith
  with_child-reads true ds v o l r t (true ∷ q) h = h q
  with_child-reads true ds v o l r t (false ∷ q) h = refl
  with_child-reads false ds v o l r t (true ∷ q) h = refl
  with_child-reads false ds v o l r t (false ∷ q) h = h q

  -- A node with a child is not empty.
  with_child-IsPruned :
      (d : Bool) (o : Option V) (l r t : Tree V)
      → IsPruned l
      → IsPruned r
      → IsPruned t
      → ¬ (t ≡ nil)
      → IsPruned (with_child d o l r t)
  unfolding with_child node_empty
  with_child-IsPruned d o l r nil hl hr h present = absurd (present refl)
  with_child-IsPruned true none nil r (node p a b) hl hr h present = (refl, hl, h)
  with_child-IsPruned true none (node q c e) r (node p a b) hl hr h present = (refl, hl, h)
  with_child-IsPruned true (some v) l r (node p a b) hl hr h present = (refl, hl, h)
  with_child-IsPruned false none l r (node p a b) hl hr h present = (refl, h, hr)
  with_child-IsPruned false (some v) l r (node p a b) hl hr h present = (refl, h, hr)

  with_child-Updates :
      (d : Bool) (ds : List Bool) (v : V) (o : Option V) (l r t : Tree V) (fresh : Bool)
      → IsPruned l
      → IsPruned r
      → Updates ds v (child d l r) t fresh
      → Updates (d ∷ ds) v (node o l r) (with_child d o l r t) fresh
  with_child-Updates d ds v o l r t fresh hl hr u = record {
    reads = λ q. with_child-reads d ds v o l r t q u.reads;
    counts = omega (arith, count-with_child d o l r t, u.counts);
    pruned = with_child-IsPruned d o l r t hl hr u.pruned (λ e.
        Updates-some ds v (child d l r) fresh
          (subst (λ x. Updates ds v (child d l r) x fresh) e u));
  }

  attach-Outcome :
      (d : Bool) (ds : List Bool) (v : V) (o : Option V) (l r : Tree V) (w : Walk V)
      → IsPruned l
      → IsPruned r
      → OutcomeOf ds v (child d l r) w
      → OutcomeAt (d ∷ ds) v (node o l r) (attach d o l r w)
  unfolding attach
  attach-Outcome d ds v o l r (done t fresh m) hl hr u =
      with_child-Updates d ds v o l r t fresh hl hr u
  attach-Outcome d ds v o l r (failed t m) hl hr e =
      ap (with_child d o l r) e ∙ with_child-child d o l r

  -- A node that this insertion allocated reads like the NULL pointer that was there.
  from_fresh :
      (ds : List Bool) (v : V) (w : Walk V)
      → OutcomeAt ds v (node none nil nil) w
      → OutcomeOf ds v nil w
  from_fresh ds v (done t fresh m) u = record {
    reads = λ q.
        u.reads q
        ∙ ap (λ x. if same_path q ds then some v else x) (find-empty q ∙ sym (find-nil q));
    counts = unfold count in u.counts;
    pruned = u.pruned;
  }
  from_fresh ds v (failed t m) e = ap prune e ∙ (unfold prune in refl)

  from_existing :
      (ds : List Bool) (v : V) (t : Tree V) (w : Walk V)
      → IsPruned t
      → OutcomeAt ds v t w
      → OutcomeOf ds v t w
  from_existing ds v t (done t' fresh m) h u = u
  from_existing ds v t (failed t' m) h e = ap prune e ∙ prune-pruned t h

  abbrev pub InsertsAt : List Bool → V → Type ℓ
  InsertsAt ds v =
      (o : Option V) (l r : Tree V)
      → IsPruned l
      → IsPruned r
      → (m : Mem) → OutcomeAt ds v (node o l r) (insert_node ds v o l r m)

  descend-Outcome :
      (ds : List Bool) (v : V)
      → InsertsAt ds v
      → (t : Tree V) → IsPruned t
      → (m : Mem) → OutcomeOf ds v t (descend (insert_node ds v) t m)
  unfolding descend
  descend-Outcome ds v ih nil h [] = from_fresh ds v _ (ih none nil nil tt tt [])
  descend-Outcome ds v ih nil h (true ∷ m) = from_fresh ds v _ (ih none nil nil tt tt m)
  descend-Outcome ds v ih nil h (false ∷ m) = unfold prune in refl
  descend-Outcome ds v ih (node o l r) h m =
      from_existing ds v (node o l r) _ h (ih o l r h.1 h.2 m)

  insert_node-Outcome : (ds : List Bool) (v : V) → InsertsAt ds v
  unfolding insert_node
  insert_node-Outcome [] v o l r hl hr m = leaf-Updates v o l r hl hr m
  insert_node-Outcome (d ∷ ds) v o l r hl hr m =
      attach-Outcome d ds v o l r (descend (insert_node ds v) (child d l r) m) hl hr (
        descend-Outcome ds v (insert_node-Outcome ds v) (child d l r) (child-IsPruned d l r hl hr)
          m)

  -- The whole walk, from the root.
  pub insert-Outcome :
      (ds : List Bool) (v : V) (t : Tree V)
      → IsPruned t
      → (m : Mem) → OutcomeOf ds v t (descend (insert_node ds v) t m)
  insert-Outcome ds v t h m = descend-Outcome ds v (insert_node-Outcome ds v) t h m

  -- With an allocator that does not fail the walk ends in an entry.
  abbrev pub IsDone : Walk V → Type 0
  IsDone (done t fresh m) = Unit {0}
  IsDone (failed t m) = ⊥

  attach-IsDone :
      (d : Bool) (o : Option V) (l r : Tree V) (w : Walk V) → IsDone w → IsDone (attach d o l r w)
  unfolding attach
  attach-IsDone d o l r (done t fresh m) h = tt
  attach-IsDone d o l r (failed t m) h = h

  descend-IsDone :
      (ds : List Bool) (v : V) (t : Tree V)
      → ((o : Option V) (l r : Tree V) → IsDone (insert_node ds v o l r []))
      → IsDone (descend (insert_node ds v) t [])
  unfolding descend
  descend-IsDone ds v nil h = h none nil nil
  descend-IsDone ds v (node o l r) h = h o l r

  insert_node-IsDone :
      (ds : List Bool) (v : V) (o : Option V) (l r : Tree V) → IsDone (insert_node ds v o l r [])
  unfolding insert_node
  insert_node-IsDone [] v o l r = tt
  insert_node-IsDone (d ∷ ds) v o l r =
      attach-IsDone d o l r (descend (insert_node ds v) (child d l r) [])
        (descend-IsDone ds v (child d l r) (insert_node-IsDone ds v))

  pub insert-IsDone :
      (ds : List Bool) (v : V) (t : Tree V) → IsDone (descend (insert_node ds v) t [])
  insert-IsDone ds v t = descend-IsDone ds v t (insert_node-IsDone ds v)
