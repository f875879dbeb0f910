-- ===== src/Prefix/Agree.antt =====
-- Comparing two addresses under one mask, the test that decides containment in both files.
use libbgp.Prelude.{ℕ, ◌≤◌, ◌≡◌, ◌↔◌, sym, ◌∙◌, List, Bool, true, ◌&&◌, leb, length, arith}
use libbgp.Prefix.{mask_bytes, bytes_eq, IsAddress}
use libbgp.Prefix.Mask.{length-mask_bytes}
use libbgp.Prefix.Order.{memcmp_refl, memcmp-eq, memcmp_swap}
use libbgp.Prefix.Bits.{SameBits, mask_bytes-same, same-mask_bytes}

-- The two addresses are equal once the bits behind the first `c` are cleared.
unfoldable pub agree : ℕ → List ℕ → List ℕ → Bool
agree c outer inner = bytes_eq (mask_bytes c inner) (mask_bytes c outer)

pub bytes_eq_iff : (xs ys : List ℕ) → length xs ≡ length ys → (bytes_eq xs ys ≡ true) ↔ (xs ≡ ys)
unfolding bytes_eq
bytes_eq_iff xs ys h = (λ e. ground (arith, memcmp-eq xs ys), λ e. ground (arith, memcmp_refl xs))

pub bytes_eq_symm : (xs ys : List ℕ) → length xs ≡ length ys → bytes_eq xs ys ≡ bytes_eq ys xs
unfolding bytes_eq
bytes_eq_symm xs ys h = ground (arith, memcmp_swap xs ys)

module _ {width : ℕ} {outer inner : List ℕ} (c d : ℕ) (ho : IsAddress width outer c)
    (hi : IsAddress width inner d) where
  pub agree_iff : (agree c outer inner ≡ true) ↔ SameBits c inner outer
  unfolding agree
  agree_iff =
      let same = hi.sized ∙ sym ho.sized in
      let masked = length-mask_bytes c inner ∙ same ∙ sym (length-mask_bytes c outer) in
      let iff = bytes_eq_iff (mask_bytes c inner) (mask_bytes c outer) masked in
      (
        λ e.
            mask_bytes-same c inner outer hi.bytes ho.bytes same (iff.0 e)
              (omega (arith, ho.short, hi.sized)),
        λ e. iff.1 (same-mask_bytes c inner outer hi.bytes ho.bytes same e),
      )

  pub longer_agree_iff :
      ((leb c d && agree c outer inner) ≡ true) ↔ ((c ≤ d) × SameBits c inner outer)
  longer_agree_iff =
      (λ e. (ground arith, agree_iff.0 (ground arith)), λ e. ground (arith, agree_iff.1 e.1))
