-- ===== src/Prefix/Bits.antt =====
-- Two addresses agree under a mask exactly when their leading bits agree.
use libbgp.Prelude.{
  ℕ, zero, suc, ◌+◌, ◌-◌, ◌/◌, ◌%◌, ◌*◌, ◌^◌, ◌≤◌, ◌<◌, ◌≡◌, ◌↔◌, refl, ap, ap₂, ◌∙◌, sym, List, [],
  ◌∷◌, min, length, arith, Bool-cases, ltb, ltb→lt, inl, inr,
}
use libbgp.Prelude.Bits.{AllBytes, high_bits, bit_of}
use libbgp.Prefix.{mask_bytes}

-- Bit `i` of a byte, 0 being the highest.
abbrev bit_at : ℕ → ℕ → ℕ
bit_at b i = b / 2 ^ (7 - i) % 2

-- One more bit under the mask.
high_bits-suc :
    (k x y : ℕ)
    → k < 8
    → x < 256
    → y < 256
    → (high_bits (suc k) x ≡ high_bits (suc k) y)
      ↔ ((high_bits k x ≡ high_bits k y) × (bit_at x k ≡ bit_at y k))
high_bits-suc zero x y h p q = (λ e. omega arith, λ e. omega arith)
high_bits-suc (suc zero) x y h p q = (λ e. omega arith, λ e. omega arith)
high_bits-suc (suc (suc zero)) x y h p q = (λ e. omega arith, λ e. omega arith)
high_bits-suc (suc (suc (suc zero))) x y h p q = (λ e. omega arith, λ e. omega arith)
high_bits-suc (suc (suc (suc (suc zero)))) x y h p q = (λ e. omega arith, λ e. omega arith)
high_bits-suc (suc (suc (suc (suc (suc zero))))) x y h p q = (λ e. omega arith, λ e. omega arith)
high_bits-suc (suc (suc (suc (suc (suc (suc zero)))))) x y h p q =
    (λ e. omega arith, λ e. omega arith)
high_bits-suc (suc (suc (suc (suc (suc (suc (suc zero))))))) x y h p q =
    (λ e. omega arith, λ e. omega arith)
high_bits-suc (suc (suc (suc (suc (suc (suc (suc (suc k)))))))) x y h p q = absurd (omega arith)

abbrev SameByteBits : ℕ → ℕ → ℕ → Type 0
SameByteBits k x y = (i : ℕ) → i < k → bit_at x i ≡ bit_at y i

SameByteBits-suc :
    (k x y : ℕ) → SameByteBits k x y → bit_at x k ≡ bit_at y k → SameByteBits (suc k) x y
SameByteBits-suc k x y below last i lt = elim (Bool-cases (ltb i k)) [
  | inl h ↦ below i (ltb→lt i k h)
  | inr h ↦ let here : i ≡ k = ground arith in rw here last
]

high_bits_iff :
    (k x y : ℕ) → k ≤ 8 → x < 256 → y < 256 → (high_bits k x ≡ high_bits k y) ↔ SameByteBits k x y
high_bits_iff zero x y h p q = (λ e i lt. absurd (omega arith), λ e. omega arith)
high_bits_iff (suc k) x y h p q =
    let step = high_bits-suc k x y (omega arith) p q in
    let below = high_bits_iff k x y (omega arith) p q in
    (
      λ e. SameByteBits-suc k x y (below.0 (step.0 e).0) (step.0 e).1,
      λ all. step.1 (below.1 (λ i lt. all i (omega arith)), all k (omega arith)),
    )

bit_of_head : (x : ℕ) (xs : List ℕ) (i : ℕ) → i < 8 → bit_of (x ∷ xs) i ≡ bit_at x i
bit_of_head x xs i h =
    let first : i / 8 ≡ 0 = omega arith in
    let within : i % 8 ≡ i = omega arith in rw (first, within)

bit_of_tail : (x : ℕ) (xs : List ℕ) (i : ℕ) → bit_of (x ∷ xs) (8 + i) ≡ bit_of xs i
bit_of_tail x xs i =
    let later : (8 + i) / 8 ≡ suc (i / 8) = omega arith in
    let within : (8 + i) % 8 ≡ i % 8 = omega arith in rw (later, within)

abbrev pub SameBits : ℕ → List ℕ → List ℕ → Type 0
SameBits c xs ys = (i : ℕ) → i < c → bit_of xs i ≡ bit_of ys i

cons_injective : {x y : ℕ} {xs ys : List ℕ} → x ∷ xs ≡ y ∷ ys → (x ≡ y) × (xs ≡ ys)
cons_injective e = (cc, cc)

pub mask_bytes-same :
    (c : ℕ) (xs ys : List ℕ)
    → AllBytes xs
    → AllBytes ys
    → length xs ≡ length ys
    → mask_bytes c xs ≡ mask_bytes c ys
    → c ≤ 8 * length xs
    → SameBits c xs ys
unfolding mask_bytes
mask_bytes-same c [] [] hx hy e m le i lt = refl
mask_bytes-same c [] (y ∷ ys) hx hy e m le i lt = absurd (omega arith)
mask_bytes-same c (x ∷ xs) [] hx hy e m le i lt = absurd (omega arith)
mask_bytes-same c (x ∷ xs) (y ∷ ys) hx hy e m le i lt = elim (Bool-cases (ltb i 8)) [
  | inl head ↦
      let lt8 : i < 8 = ltb→lt i 8 head in
      bit_of_head x xs i lt8
      ∙ (high_bits_iff (min 8 c) x y (omega arith) hx.0 hy.0).0 (cons_injective m).0 i (omega arith)
      ∙ sym (bit_of_head y ys i lt8)
  | inr tail ↦
      let ge : 8 ≤ i = ground arith in
      let at : i ≡ 8 + (i - 8) = omega arith in
      ap (bit_of (x ∷ xs)) at
      ∙ bit_of_tail x xs (i - 8)
      ∙ mask_bytes-same (c - 8) xs ys hx.1 hy.1 (omega arith) (cons_injective m).1 (omega arith)
          (i - 8) (omega arith)
      ∙ sym (bit_of_tail y ys (i - 8))
      ∙ ap (bit_of (y ∷ ys)) (sym at)
]

pub same-mask_bytes :
    (c : ℕ) (xs ys : List ℕ)
    → AllBytes xs
    → AllBytes ys
    → length xs ≡ length ys
    → SameBits c xs ys
    → mask_bytes c xs ≡ mask_bytes c ys
unfolding mask_bytes
same-mask_bytes c [] [] hx hy e same = refl
same-mask_bytes c [] (y ∷ ys) hx hy e same = absurd (omega arith)
same-mask_bytes c (x ∷ xs) [] hx hy e same = absurd (omega arith)
same-mask_bytes c (x ∷ xs) (y ∷ ys) hx hy e same =
    ap₂ ◌∷◌
      ((high_bits_iff (min 8 c) x y (omega arith) hx.0 hy.0).1 (λ i lt.
        sym (bit_of_head x xs i (omega arith))
        ∙ same i (omega arith)
        ∙ bit_of_head y ys i (omega arith)))
      (same-mask_bytes (c - 8) xs ys hx.1 hy.1 (omega arith)
        (λ i lt. sym (bit_of_tail x xs i) ∙ same (8 + i) (omega arith) ∙ bit_of_tail y ys i))
