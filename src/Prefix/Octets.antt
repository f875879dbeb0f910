-- ===== src/Prefix/Octets.antt =====
-- The octets of a prefix on the wire, for any width: what writing copies and what parsing fills up.
use libbgp.Prelude.{
  ℕ, ◌-◌, ◌*◌, ◌%◌, ◌≤◌, ◌≡◌, inl, inr, sym, ap, ◌∙◌, List, [], ◌∷◌, ◌++◌, ◌==◌, false, Bool-cases,
  length, take, replicate, arith, length-append, length-take, length-replicate, take-append_length,
  All-take, All-append, if◌then◌else◌, length-set,
}
use libbgp.Prelude.Bits.{AllBytes, IsByte}
use libbgp.Prefix.{prefix_octets, mask_partial, mask_bytes, IsAddress}
use libbgp.Prefix.Mask.{
  take-mask_partial, mask_partial-zeros, mask_bytes-AllBytes, mask_bytes_zero, mask_bytes-zeros,
  zeros-AllBytes,
}

-- The octets that are copied out of an address.
abbrev pub wire_octets : ℕ → List ℕ → List ℕ
wire_octets c addr =
    take (prefix_octets c) (if prefix_octets c == 0 then addr else mask_partial c addr)

-- The octets of an address whose host bits are cleared.
abbrev pub masked_octets : ℕ → List ℕ → List ℕ
masked_octets c addr = take (prefix_octets c) (mask_bytes c addr)

-- Octets filled up with zeros to an address of `width` bytes.
abbrev pub fill : ℕ → ℕ → List ℕ → List ℕ
fill width c xs = xs ++ replicate (width - prefix_octets c) 0

pub length-mask_partial : (c : ℕ) (addr : List ℕ) → length (mask_partial c addr) ≡ length addr
unfolding mask_partial
length-mask_partial c addr = elim (Bool-cases (c % 8 == 0)) [
  | inl e ↦ rw e
  | inr e ↦ rw e (length-set addr (prefix_octets c - 1) _)
]

module _ (width c : ℕ) (xs : List ℕ) (h : AllBytes xs) (e : length xs ≡ prefix_octets c)
    (le : c ≤ 8 * width) where
  pub fill-AllBytes : AllBytes (fill width c xs)
  fill-AllBytes = All-append IsByte xs (replicate (width - prefix_octets c) 0) h (zeros-AllBytes _)

  pub length-fill : length (fill width c xs) ≡ width
  length-fill =
      length-append xs (replicate (width - prefix_octets c) 0)
      ∙ omega (arith, length-replicate {A = ℕ} (width - prefix_octets c) 0)

module _ {width c : ℕ} {addr : List ℕ} (a : IsAddress width addr c) where
  fill-wire_octets : fill width c (wire_octets c addr) ≡ mask_bytes c addr
  fill-wire_octets = elim (Bool-cases (prefix_octets c == 0)) [
    | inl e ↦
        let none : c ≡ 0 = ground arith in
        let all : width - 0 ≡ length addr = omega (arith, a.sized) in
        rw none (ap (λ m. replicate m 0) all ∙ sym (mask_bytes_zero addr a.bytes))
    | inr e ↦ rw e (take-mask_partial width c addr a.bytes a.sized a.short)
  ]

  length-wire_octets : length (wire_octets c addr) ≡ prefix_octets c
  length-wire_octets = elim (Bool-cases (prefix_octets c == 0)) [
    | inl e ↦ rw (e, length-take) (omega (arith, a.sized, a.short))
    | inr e ↦ rw (e, length-take, length-mask_partial c addr) (omega (arith, a.sized, a.short))
  ]

  -- What is copied is the front of the masked address.
  pub wire_octets-masked : wire_octets c addr ≡ masked_octets c addr
  wire_octets-masked =
      sym (
        take-append_length (prefix_octets c) (wire_octets c addr)
          (replicate (width - prefix_octets c) 0) length-wire_octets)
      ∙ ap (take (prefix_octets c)) fill-wire_octets

  pub length-masked_octets : length (masked_octets c addr) ≡ prefix_octets c
  length-masked_octets = ap length (sym wire_octets-masked) ∙ length-wire_octets

  pub masked_octets-AllBytes : AllBytes (masked_octets c addr)
  masked_octets-AllBytes =
      All-take IsByte (prefix_octets c) (mask_bytes c addr) (mask_bytes-AllBytes c addr a.bytes)

  pub fill-masked_octets : fill width c (masked_octets c addr) ≡ mask_bytes c addr
  fill-masked_octets = ap (fill width c) (sym wire_octets-masked) ∙ fill-wire_octets

-- The filled octets with the mask on the last one.
pub mask-fill :
    (width c : ℕ) (xs : List ℕ)
    → AllBytes xs
    → length xs ≡ prefix_octets c
    → (if prefix_octets c == 0 then replicate width 0 else mask_partial c (fill width c xs))
      ≡ mask_bytes c (fill width c xs)
mask-fill width c [] h e =
    let none : c ≡ 0 = omega arith in
    let all : width ≡ width - 0 = omega arith in
    rw none (ap (λ m. replicate m 0) all ∙ sym (mask_bytes-zeros (width - 0)))
mask-fill width c (x ∷ xs) h e =
    let test : (prefix_octets c == 0) ≡ false = ground arith in
    rw test (mask_partial-zeros c (x ∷ xs) _ h e)

pub zero-fill :
    (width c : ℕ) (xs : List ℕ)
    → AllBytes xs
    → length xs ≡ prefix_octets c
    → (if prefix_octets c == 0 then replicate width 0 else mask_bytes c (fill width c xs))
      ≡ mask_bytes c (fill width c xs)
zero-fill width c xs h e = elim (Bool-cases (prefix_octets c == 0)) [
  | inl none ↦ rw none (rw none at (mask-fill width c xs h e))
  | inr some ↦ rw some
]
