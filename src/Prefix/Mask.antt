-- ===== src/Prefix/Mask.antt =====
-- The masks of src/prefix4.c and src/prefix6.c are `mask_bytes`, and `mask_bytes` reads off the
-- leading bits of an address.
use libbgp.Prelude.{
  ℕ, zero, suc, ◌+◌, ◌-◌, ◌/◌, ◌%◌, ◌*◌, ◌≤◌, ◌<◌, ◌≡◌, ◌≢◌, refl, sym, ap, ap₂, ◌∙◌, List, [], ◌∷◌,
  ◌++◌, ◌==◌, min, length, take, replicate, arith, false, true, Bool-cases, inl, inr, ltb, ltb→lt,
  ==→eq, length-replicate,
}
use libbgp.Prelude.Bits.{AllBytes, high_bits, bit_and-partial_mask_byte, high_bits_idem}
use libbgp.Prefix.{prefix_octets, mask_partial, mask_bytes}

pub length-mask_bytes : (c : ℕ) (xs : List ℕ) → length (mask_bytes c xs) ≡ length xs
unfolding mask_bytes
length-mask_bytes c [] = refl
length-mask_bytes c (x ∷ xs) = ap suc (length-mask_bytes (c - 8) xs)

high_bits-le : (k b : ℕ) → high_bits k b ≤ b
high_bits-le k b = grind arith

pub mask_bytes-AllBytes : (c : ℕ) (xs : List ℕ) → AllBytes xs → AllBytes (mask_bytes c xs)
unfolding mask_bytes
mask_bytes-AllBytes c [] h = tt
mask_bytes-AllBytes c (x ∷ xs) h =
    (omega (arith, high_bits-le (min 8 c) x), mask_bytes-AllBytes (c - 8) xs h.1)

pub mask_bytes_idem :
    (c : ℕ) (xs : List ℕ) → AllBytes xs → mask_bytes c (mask_bytes c xs) ≡ mask_bytes c xs
unfolding mask_bytes
mask_bytes_idem c [] h = refl
mask_bytes_idem c (x ∷ xs) h =
    ap₂ ◌∷◌ (high_bits_idem (min 8 c) x (omega arith) h.0) (mask_bytes_idem (c - 8) xs h.1)

high_bits_all : (b : ℕ) → high_bits 8 b ≡ b
high_bits_all b = omega arith

high_bits_none : (b : ℕ) → b < 256 → high_bits 0 b ≡ 0
high_bits_none b h = omega arith

pub mask_bytes_zero : (xs : List ℕ) → AllBytes xs → mask_bytes 0 xs ≡ replicate (length xs) 0
unfolding mask_bytes
mask_bytes_zero [] h = refl
mask_bytes_zero (x ∷ xs) h = ap₂ ◌∷◌ (high_bits_none x h.0) (mask_bytes_zero xs h.1)

-- Below a whole octet the mask of the head is all there is.
mask_head :
    (c b : ℕ) (bs : List ℕ)
    → 0 < c
    → c < 8
    → b < 256
    → mask_partial c (b ∷ bs) ≡ high_bits (min 8 c) b ∷ bs
unfolding mask_partial
mask_head c b bs pos small hb =
    let here : prefix_octets c - 1 ≡ 0 = omega arith in
    let part : c % 8 ≡ c = omega arith in
    let test : (c == 0) ≡ false = ground arith in
    let whole : min 8 c ≡ c = omega arith in
    rw (here, part, test, whole) (ap (λ t. t ∷ bs) (bit_and-partial_mask_byte c b (omega arith) hb))

mask_partial_suc :
    (c b : ℕ) (bs : List ℕ) → 8 ≤ c → mask_partial c (b ∷ bs) ≡ b ∷ mask_partial (c - 8) bs
unfolding mask_partial
mask_partial_suc c b bs h = elim (Bool-cases (c % 8 == 0)) [
  | inl e ↦ let e' : ((c - 8) % 8 == 0) ≡ true = ground arith in rw (e, e')
  | inr e ↦
      let part : (c - 8) % 8 ≡ c % 8 = omega arith in
      let ne : c % 8 ≢ 0 = ground arith in
      let later : prefix_octets c - 1 ≡ suc (prefix_octets (c - 8) - 1) = omega arith in
      rw (part, e, later)
]

mask_bytes_small :
    (c x : ℕ) (xs : List ℕ)
    → c < 8
    → AllBytes xs
    → mask_bytes c (x ∷ xs) ≡ high_bits (min 8 c) x ∷ replicate (length xs) 0
unfolding mask_bytes
mask_bytes_small c x xs small h =
    let none_left : c - 8 ≡ 0 = omega arith in
    rw none_left (ap (λ t. high_bits (min 8 c) x ∷ t) (mask_bytes_zero xs h))

mask_bytes_large :
    (c x : ℕ) (xs : List ℕ) → 8 ≤ c → mask_bytes c (x ∷ xs) ≡ x ∷ mask_bytes (c - 8) xs
unfolding mask_bytes
mask_bytes_large c x xs h =
    let whole : min 8 c ≡ 8 = omega arith in
    rw whole (ap (λ t. t ∷ mask_bytes (c - 8) xs) (high_bits_all x))

-- The octets that are copied, masked and filled up with zeros.
pub take-mask_partial :
    (n c : ℕ) (xs : List ℕ)
    → AllBytes xs
    → length xs ≡ n
    → c ≤ 8 * n
    → take (prefix_octets c) (mask_partial c xs) ++ replicate (n - prefix_octets c) 0
      ≡ mask_bytes c xs
take-mask_partial n c [] h e le =
    let none_left : c ≡ 0 = omega arith in
    rw (none_left, ← e) (unfold mask_partial mask_bytes in refl)
take-mask_partial n c (x ∷ xs) h e le = elim (Bool-cases (ltb c 8)) [
  | inl small ↦ elim (Bool-cases (c == 0)) [
    | inl none_left ↦
        let c0 : c ≡ 0 = ==→eq c 0 none_left in
        let all : length (x ∷ xs) - (0 + 7) / 8 ≡ length (x ∷ xs) = omega arith in
        rw (c0, ← e) (ap (λ m. replicate m 0) all ∙ sym (mask_bytes_zero (x ∷ xs) h))
    | inr some_left ↦
        let one : prefix_octets c ≡ 1 = ground arith in
        let rest : n - 1 ≡ length xs = omega arith in
        rw (
          one,
          rest,
          mask_head c x xs (ground arith) (ground arith) h.0,
          mask_bytes_small c x xs (ground arith) h.1,
        )
  ]
  | inr large ↦
      let ge : 8 ≤ c = ground arith in
      let more : prefix_octets c ≡ suc (prefix_octets (c - 8)) = omega arith in
      let rest : n - suc (prefix_octets (c - 8)) ≡ n - 1 - prefix_octets (c - 8) = omega arith in
      rw (more, rest, mask_partial_suc c x xs ge, mask_bytes_large c x xs ge)
        (ap (λ t. x ∷ t) (take-mask_partial (n - 1) (c - 8) xs h.1 (omega arith) (omega arith)))
]

pub zeros-AllBytes : (k : ℕ) → AllBytes (replicate k 0)
zeros-AllBytes zero = tt
zeros-AllBytes (suc k) = (omega arith, zeros-AllBytes k)

pub mask_bytes-zeros : (k : ℕ) → mask_bytes 0 (replicate k 0) ≡ replicate k 0
unfolding mask_bytes
mask_bytes-zeros zero = refl
mask_bytes-zeros (suc k) = ap (λ t. 0 ∷ t) (mask_bytes-zeros k)

-- So too if the bytes behind the copied octets are zeros already.
pub mask_partial-zeros :
    (c : ℕ) (xs : List ℕ) (k : ℕ)
    → AllBytes xs
    → length xs ≡ prefix_octets c
    → mask_partial c (xs ++ replicate k 0) ≡ mask_bytes c (xs ++ replicate k 0)
mask_partial-zeros c [] k h e =
    let c0 : c ≡ 0 = omega arith in rw c0 (unfold mask_partial in sym (mask_bytes-zeros k))
mask_partial-zeros c (x ∷ xs) k h e = elim (Bool-cases (ltb c 8)) [
  | inl small ↦
      let lt : c < 8 = ltb→lt c 8 small in
      let pos : 0 < c = omega arith in
      let last : xs ≡ [] = ground arith in
      rw (last, mask_head c x (replicate k 0) pos lt h.0)
        (sym (
          mask_bytes_small c x (replicate k 0) lt (zeros-AllBytes k)
          ∙ ap (λ m. high_bits (min 8 c) x ∷ replicate m 0) (length-replicate k 0)))
  | inr large ↦
      let ge : 8 ≤ c = ground arith in
      rw (mask_partial_suc c x _ ge, mask_bytes_large c x _ ge)
        (ap (λ t. x ∷ t) (mask_partial-zeros (c - 8) xs k h.1 (omega arith)))
]
