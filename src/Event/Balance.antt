-- ===== src/Event/Balance.antt =====
-- Contexts of subscribers of src/event.c are released as often as they were retained.
use libbgp.Prelude.{
  ℕ, ◌+◌, ◌≡◌, refl, ap, ◌∙◌, List, [], ◌∷◌, ◌++◌, Bool, true, false, ◌==◌, if◌then◌else◌, arith,
  All, Bool-cases, inl, inr,
}
use libbgp.Event.{
  Subscriber, Effect, retained, refused, released, called, retain_call, release_effect, release_all,
  receives, take_snapshot,
}

abbrev pub one_if : Bool → ℕ
one_if b = if b then 1 else 0

-- How often the context `c` was retained, and how often released.
abbrev pub gets : ℕ → List Effect → ℕ
gets c [] = 0
gets c (retained d ∷ es) = one_if (d == c) + gets c es
gets c (released d ∷ es) = gets c es
gets c (refused d ∷ es) = gets c es
gets c (called cb d ∷ es) = gets c es

abbrev pub puts : ℕ → List Effect → ℕ
puts c [] = 0
puts c (retained d ∷ es) = puts c es
puts c (refused d ∷ es) = puts c es
puts c (released d ∷ es) = one_if (d == c) + puts c es
puts c (called cb d ∷ es) = puts c es

-- The subscribers that hold the context `c`.
abbrev pub held : ℕ → List Subscriber → ℕ
held c [] = 0
held c (s ∷ subs) = (if s.has_retain then one_if (s.ctx == c) else 0) + held c subs

-- A subscriber passes both callbacks or none.
abbrev pub IsPaired : Subscriber → Type 0
IsPaired s = s.has_release ≡ s.has_retain

pub gets-append : (c : ℕ) (xs ys : List Effect) → gets c (xs ++ ys) ≡ gets c xs + gets c ys
gets-append c [] ys = omega arith
gets-append c (retained d ∷ xs) ys = omega (arith, gets-append c xs ys)
gets-append c (released d ∷ xs) ys = gets-append c xs ys
gets-append c (refused d ∷ xs) ys = gets-append c xs ys
gets-append c (called cb d ∷ xs) ys = gets-append c xs ys

pub puts-append : (c : ℕ) (xs ys : List Effect) → puts c (xs ++ ys) ≡ puts c xs + puts c ys
puts-append c [] ys = omega arith
puts-append c (retained d ∷ xs) ys = puts-append c xs ys
puts-append c (refused d ∷ xs) ys = puts-append c xs ys
puts-append c (released d ∷ xs) ys = omega (arith, puts-append c xs ys)
puts-append c (called cb d ∷ xs) ys = puts-append c xs ys

pub held-append : (c : ℕ) (xs ys : List Subscriber) → held c (xs ++ ys) ≡ held c xs + held c ys
held-append c [] ys = omega arith
held-append c (s ∷ xs) ys = omega (arith, held-append c xs ys)

-- What one subscriber gets or gives back.
abbrev pub share : ℕ → Subscriber → ℕ
share c s = if s.has_retain then one_if (s.ctx == c) else 0

-- A retain callback that answers true gets one share; one that answers false gets none.
pub retain_call-counts :
    (c : ℕ) (has : Bool) (ctx : ℕ) (answers : List Bool)
    → let r = retain_call has ctx answers in
      (gets c r.1 ≡ (if r.0 then (if has then one_if (ctx == c) else 0) else 0)) × (puts c r.1 ≡ 0)
unfolding retain_call
retain_call-counts c false ctx answers = (refl, refl)
retain_call-counts c true ctx [] = (omega arith, refl)
retain_call-counts c true ctx (true ∷ answers) = (omega arith, refl)
retain_call-counts c true ctx (false ∷ answers) = (refl, refl)

pub release_effect-counts :
    (c : ℕ) (has : Bool) (ctx : ℕ)
    → (puts c (release_effect has ctx) ≡ (if has then one_if (ctx == c) else 0))
      × (gets c (release_effect has ctx) ≡ 0)
release_effect-counts c true ctx = (omega arith, refl)
release_effect-counts c false ctx = (refl, refl)

-- A released subscriber gives back its share.
pub released-share :
    (c : ℕ) (s : Subscriber)
    → IsPaired s
    → (puts c (release_effect s.has_release s.ctx) ≡ share c s)
      × (gets c (release_effect s.has_release s.ctx) ≡ 0)
released-share c s h =
    let r = release_effect-counts c s.has_release s.ctx in
    (r.0 ∙ ap (λ b. if b then one_if (s.ctx == c) else 0) h, r.1)

pub release_all-counts :
    (c : ℕ) (subs : List Subscriber)
    → All IsPaired subs
    → (puts c (release_all subs) ≡ held c subs) × (gets c (release_all subs) ≡ 0)
unfolding release_all
release_all-counts c [] h = (refl, refl)
release_all-counts c (s ∷ subs) h =
    let ih = release_all-counts c subs h.1 in
    let one = released-share c s h.0 in
    let e = release_effect s.has_release s.ctx in
    (
      omega (arith, puts-append c (release_all subs) e, ih.0, one.0),
      omega (arith, gets-append c (release_all subs) e, ih.1, one.1),
    )

-- What is retained for a snapshot is what its members hold.
pub take_snapshot-counts :
    (c p t : ℕ) (subs : List Subscriber) (answers : List Bool)
    → All IsPaired subs
    → let r = take_snapshot p t subs answers in
      (gets c r.1 ≡ held c r.0) × (puts c r.1 ≡ 0) × All IsPaired r.0
unfolding take_snapshot
take_snapshot-counts c p t [] answers h = (refl, refl, tt)
take_snapshot-counts c p t (s ∷ subs) answers h = elim (Bool-cases (receives p t s)) [
  | inr x ↦ rw x (take_snapshot-counts c p t subs answers h.1)
  | inl x ↦
      let asked = retain_call s.has_retain s.ctx answers in
      let rest = take_snapshot p t subs asked.2 in
      let ih = take_snapshot-counts c p t subs asked.2 h.1 in
      let one = retain_call-counts c s.has_retain s.ctx answers in
      elim (Bool-cases asked.0) [
        | inl y ↦
            let got : gets c asked.1 ≡ share c s = one.0 ∙ ap (λ b. if b then share c s else 0) y in
            rw (x, y)
              (
                omega (arith, gets-append c asked.1 rest.1, got, ih.0),
                omega (arith, puts-append c asked.1 rest.1, one.1, ih.1),
                (h.0, ih.2),
              )
        | inr y ↦
            let got : gets c asked.1 ≡ 0 = one.0 ∙ ap (λ b. if b then share c s else 0) y in
            rw (x, y)
              (
                omega (arith, gets-append c asked.1 rest.1, got, ih.0),
                omega (arith, puts-append c asked.1 rest.1, one.1, ih.1),
                ih.2,
              )
      ]
]
