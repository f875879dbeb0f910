-- ===== src/Prelude/Bits.antt =====
-- The bits of one byte, the highest first, and masks of high bits.
use Prim.Native.Nat.{ℕ, zero, suc, ◌-◌, ◌*◌, ◌/◌, ◌%◌, ◌^◌, ◌<◌, bit_and}
use mathlib.Core.Path.{◌≡◌, refl}
use mathlib.Core.Bool.{Bool, true, ◌&&◌}
use native.Mathlib.Omega.{arith}
use libbgp.Prelude.Tests.{◌==◌, ==→eq}
use mathlib.Core.List.{List}
use libbgp.Prelude.Lists.{All, get_or}

abbrev pub IsByte : ℕ → Type 0
IsByte b = b < 256

abbrev pub AllBytes : List ℕ → Type 0
AllBytes = All IsByte

-- A test holds of every number below a bound, which evaluation decides.
unfoldable pub all_below : (bound : ℕ) → (test : ℕ → Bool) → Bool
all_below zero test = true
all_below (suc bound) test = all_below bound test && test bound

pub all_below_sound :
    (bound : ℕ) (test : ℕ → Bool) (k : ℕ) → all_below bound test ≡ true → k < bound → test k ≡ true
unfolding all_below
all_below_sound (suc bound) test k checked lt =
    let earlier = all_below_sound bound test k in ground arith
all_below_sound zero test k checked lt = absurd (omega arith)

-- A byte with its highest `k` bits kept and the others cleared.
abbrev pub high_bits : ℕ → ℕ → ℕ
high_bits k b = b / 2 ^ (8 - k) * 2 ^ (8 - k)

-- `(uint8_t)(0xffu << (8u - bits))`
abbrev pub partial_mask_byte : ℕ → ℕ
partial_mask_byte bits = 255 * 2 ^ (8 - bits) % 256

mask_table :
    all_below 9 (λ k. all_below 256 (λ b. bit_and b (partial_mask_byte k) == high_bits k b)) ≡ true
unfolding all_below
mask_table = refl

pub bit_and-partial_mask_byte :
    (k b : ℕ) → k < 9 → b < 256 → bit_and b (partial_mask_byte k) ≡ high_bits k b
bit_and-partial_mask_byte k b hk hb = ==→eq _ _ (
    all_below_sound 256 _ b
      (all_below_sound 9
        (λ k. all_below 256 (λ b. bit_and b (partial_mask_byte k) == high_bits k b)) k mask_table
        hk)
      hb)

high_table :
    all_below 9 (λ k. all_below 256 (λ b. high_bits k (high_bits k b) == high_bits k b)) ≡ true
unfolding all_below
high_table = refl

pub high_bits_idem : (k b : ℕ) → k < 9 → b < 256 → high_bits k (high_bits k b) ≡ high_bits k b
high_bits_idem k b hk hb = ==→eq _ _ (
    all_below_sound 256 _ b
      (all_below_sound 9 (λ k. all_below 256 (λ b. high_bits k (high_bits k b) == high_bits k b)) k
        high_table hk)
      hb)

-- Bit `i` of a byte string, the highest bit of the first byte being bit 0; 0 behind the end.
abbrev pub bit_of : List ℕ → ℕ → ℕ
bit_of bytes i = get_or bytes (i / 8) 0 / 2 ^ (7 - i % 8) % 2
