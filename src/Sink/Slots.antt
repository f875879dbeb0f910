-- ===== src/Sink/Slots.antt =====
-- Slots of a ring, read from its head on.
use libbgp.Prelude.{
  ℕ, zero, suc, ◌+◌, ◌-◌, ◌%◌, ◌<◌, ◌≡◌, ◌≢◌, inl, inr, refl, sym, ap, ap₂, ◌∙◌, List, [], ◌∷◌,
  ◌++◌, Option, none, ltb, ◌==◌, if◌then◌else◌, length, get_or, set, arith, get_or-set, Bool-cases,
  ne→==,
}
use native.Mathlib.Nat.{mod-eq_of_lt, mod-eq-sub-mod, mod-add-mod}
use libbgp.Sink.{slots}

-- Less than once round the ring leads to another slot.
pub round_ne : (c h j n : ℕ) → h < c → j < n → n < c → (h + n) % c ≢ (h + j) % c
round_ne c h j n hc jn nc = elim (Bool-cases (ltb (h + n) c)) [
  | inl e ↦
      let a = mod-eq_of_lt {n = h + n} {m = c} (ground arith) in
      let b = mod-eq_of_lt {n = h + j} {m = c} (ground arith) in λ same. omega arith
  | inr e ↦
      let a = mod-eq-sub-mod {n = h + n} {m = c} (ground arith) in
      let a' = mod-eq_of_lt {n = h + n - c} {m = c} (ground arith) in
      elim (Bool-cases (ltb (h + j) c)) [
        | inl f ↦ let b = mod-eq_of_lt {n = h + j} {m = c} (ground arith) in λ same. ground arith
        | inr f ↦
            let b = mod-eq-sub-mod {n = h + j} {m = c} (ground arith) in
            let b' = mod-eq_of_lt {n = h + j - c} {m = c} (ground arith) in λ same. ground arith
      ]
]

module _ {P : Type 0} where
  -- Slots are the same if each of them is.
  pub slots_ext :
      (p p' : List (Option P)) (c c' h h' i i' n : ℕ)
      → ((j : ℕ)
          → j < n
          → get_or p ((h + (i + j)) % c) none ≡ get_or p' ((h' + (i' + j)) % c') none)
      → slots p c h i n ≡ slots p' c' h' i' n
  unfolding slots
  slots_ext p p' c c' h h' i i' zero e = refl
  slots_ext p p' c c' h h' i i' (suc n) e =
      let here : get_or p ((h + i) % c) none ≡ get_or p' ((h' + i') % c') none =
        ap (λ (a : ℕ). get_or p ((h + a) % c) none) {x = i} {y = i + 0} (omega arith)
        ∙ e 0 (omega arith)
        ∙ ap (λ (a : ℕ). get_or p' ((h' + a) % c') none) {x = i' + 0} {y = i'} (omega arith) in
      ap₂ ◌∷◌ here (
        slots_ext p p' c c' h h' (i + 1) (i' + 1) n (λ j k.
          ap (λ (a : ℕ). get_or p ((h + a) % c) none) {x = i + 1 + j} {y = i + suc j} (omega arith)
          ∙ e (suc j) (omega arith)
          ∙ ap (λ (a : ℕ). get_or p' ((h' + a) % c') none) {x = i' + suc j} {y = i' + 1 + j}
              (omega arith)))

  pub length-slots : (p : List (Option P)) (c h i n : ℕ) → length (slots p c h i n) ≡ n
  unfolding slots
  length-slots p c h i zero = refl
  length-slots p c h i (suc n) = ap suc (length-slots p c h (i + 1) n)

  pub get_or-slots :
      (p : List (Option P)) (c h i n j : ℕ)
      → j < n
      → get_or (slots p c h i n) j none ≡ get_or p ((h + (i + j)) % c) none
  unfolding slots
  get_or-slots p c h i zero j k = absurd (omega arith)
  get_or-slots p c h i (suc n) zero k = ap (λ (a : ℕ). get_or p ((h + a) % c) none) (omega arith)
  get_or-slots p c h i (suc n) (suc j) k =
      get_or-slots p c h (i + 1) n j (omega arith)
      ∙ ap (λ (a : ℕ). get_or p ((h + a) % c) none) (omega arith)

  pub slots-last :
      (p : List (Option P)) (c h i n : ℕ)
      → slots p c h i (suc n) ≡ slots p c h i n ++ get_or p ((h + (i + n)) % c) none ∷ []
  unfolding slots
  slots-last p c h i zero = ap (λ (a : ℕ). get_or p ((h + a) % c) none ∷ []) (omega arith)
  slots-last p c h i (suc n) =
      ap₂ ◌∷◌ (λ k. get_or p ((h + i) % c) none)
        (slots-last p c h (i + 1) n
          ∙ ap (λ (a : ℕ). slots p c h (i + 1) n ++ get_or p ((h + a) % c) none ∷ []) (omega arith))

  -- The slots without the first one start at the next slot.
  pub slots_pop :
      (p : List (Option P)) (c h n : ℕ)
      → length p ≡ c
      → h < c
      → n < c
      → slots p c h 0 (suc n)
        ≡ get_or p h none ∷ slots (set p h none) c (if n == 0 then 0 else (h + 1) % c) 0 n
  unfolding slots
  slots_pop p c h n size head lt =
      let at_head : (h + 0) % c ≡ h =
        ap (λ (a : ℕ). a % c) {x = h + 0} {y = h} (omega arith)
        ∙ mod-eq_of_lt {n = h} {m = c} head in
      let other = λ (j : ℕ) (k : j < n).
        get_or-set p h ((h + (0 + 1 + j)) % c) none none (omega arith)
        ∙ ap (λ b. if b then none else get_or p ((h + (0 + 1 + j)) % c) none)
            (ne→== h ((h + (0 + 1 + j)) % c) (λ e.
              round_ne c h 0 (0 + 1 + j) head (omega arith) (omega arith) (sym e ∙ sym at_head))) in
      ap₂ ◌∷◌ (ap (λ (a : ℕ). get_or p a none) at_head) (elim (Bool-cases (n == 0)) [
        | inl z ↦ let zero_left : n ≡ 0 = ground arith in rw (z, zero_left) refl
        | inr nz ↦ rw nz (
            slots_ext p (set p h none) c c h ((h + 1) % c) (0 + 1) 0 n (λ j k.
              sym (other j k)
              ∙ ap (λ (a : ℕ). get_or (set p h none) a none) {x = (h + (0 + 1 + j)) % c}
                  {y = ((h + 1) % c + (0 + j)) % c}
                  (ap (λ (a : ℕ). a % c) {x = h + (0 + 1 + j)} {y = h + 1 + (0 + j)} (omega arith)
                    ∙ sym (mod-add-mod (h + 1) c (0 + j)))))
      ])
