-- ===== src/Radix/Paths.antt =====
-- The path of a prefix in the trie, and when two prefixes have the same path.
use libbgp.Prelude.{
  ℕ, zero, suc, ◌+◌, ◌≤◌, ◌<◌, ◌≡◌, ◌↔◌, refl, sym, ap, List, ◌∷◌, Bool, true, false, arith, length,
  take, subst,
}
use libbgp.Radix.{directions, radix_bit}
use libbgp.Radix.Entries.{same_path}

pub length-directions : (addr : List ℕ) (bit n : ℕ) → length (directions addr bit n) ≡ n
unfolding directions
length-directions addr bit zero = refl
length-directions addr bit (suc n) = ap suc (length-directions addr (bit + 1) n)

pub take-directions :
    (addr : List ℕ) (bit n j : ℕ) → j ≤ n → take j (directions addr bit n) ≡ directions addr bit j
unfolding directions
take-directions addr bit n zero h = refl
take-directions addr bit zero (suc j) h = absurd (omega arith)
take-directions addr bit (suc n) (suc j) h =
    ap (λ t. radix_bit addr bit ∷ t) (take-directions addr (bit + 1) n j (omega arith))

-- The test whether two prefixes have the same path.
unfoldable pub same_prefix : List ℕ → ℕ → List ℕ → ℕ → Bool
same_prefix a n b k = same_path (directions a 0 n) (directions b 0 k)

same_path-cons :
    (x y : Bool) (ds es : List Bool)
    → (same_path (x ∷ ds) (y ∷ es) ≡ true) ↔ ((x ≡ y) × (same_path ds es ≡ true))
unfolding same_path
same_path-cons true true ds es = (λ e. (refl, e), λ e. e.1)
same_path-cons true false ds es = (λ e. cc, λ e. cc (e.0))
same_path-cons false true ds es = (λ e. cc, λ e. cc (e.0))
same_path-cons false false ds es = (λ e. (refl, e), λ e. e.1)

abbrev SameFrom : List ℕ → List ℕ → ℕ → ℕ → Type 0
SameFrom a b i n = (j : ℕ) → j < n → radix_bit a (i + j) ≡ radix_bit b (i + j)

SameFrom-suc :
    (a b : List ℕ) (i n : ℕ)
    → SameFrom a b i (suc n) ↔ ((radix_bit a i ≡ radix_bit b i) × SameFrom a b (i + 1) n)
SameFrom-suc a b i n =
    let at_start : i + 0 ≡ i = omega arith in
    let later = λ (j : ℕ). let e : i + suc j ≡ i + 1 + j = omega arith in e in
    (
      λ all. (
        subst (λ t. radix_bit a t ≡ radix_bit b t) at_start (all 0 (omega arith)),
        λ j lt. subst (λ t. radix_bit a t ≡ radix_bit b t) (later j) (all (suc j) (omega arith)),
      ),
      λ both. elim [
        | zero ↦ λ lt. subst (λ t. radix_bit a t ≡ radix_bit b t) (sym at_start) both.0
        | suc j ↦ λ lt.
            subst (λ t. radix_bit a t ≡ radix_bit b t) (sym (later j)) (both.1 j (omega arith))
      ],
    )

directions-same :
    (a b : List ℕ) (i n k : ℕ)
    → (same_path (directions a i n) (directions b i k) ≡ true) ↔ ((n ≡ k) × SameFrom a b i n)
unfolding directions
directions-same a b i zero zero =
    (λ e. (refl, λ j lt. absurd (omega arith)), λ e. unfold same_path in refl)
directions-same a b i zero (suc k) = (λ e. unfold same_path in cc, λ e. absurd (omega arith))
directions-same a b i (suc n) zero = (λ e. unfold same_path in cc, λ e. absurd (omega arith))
directions-same a b i (suc n) (suc k) =
    let cons =
      same_path-cons (radix_bit a i) (radix_bit b i) (directions a (i + 1) n)
        (directions b (i + 1) k) in
    let rest = directions-same a b (i + 1) n k in
    let split = SameFrom-suc a b i n in
    (
      λ e.
          let (here, there) = cons.0 e in
          (omega (arith, (rest.0 there).0), split.1 (here, (rest.0 there).1)),
      λ e. cons.1 ((split.0 e.1).0, rest.1 (omega (arith, e.0), (split.0 e.1).1)),
    )

-- Two prefixes have the same path exactly if they have one length and the same bits up to it.
pub same_prefix_iff :
    (a b : List ℕ) (n k : ℕ)
    → (same_prefix a n b k ≡ true)
      ↔ ((n ≡ k) × ((j : ℕ) → j < n → radix_bit a (0 + j) ≡ radix_bit b (0 + j)))
unfolding same_prefix
same_prefix_iff a b n k = directions-same a b 0 n k
