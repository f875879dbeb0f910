-- ===== src/Prelude/Growth.antt =====
-- Sizes of memory, and the loop by which the growing arrays of the library choose a capacity.
use Prim.Native.Nat.{ℕ, zero, suc, ◌-◌, ◌*◌, ◌/◌, ◌^◌, ◌≤◌, ◌<◌}
use mathlib.Core.Path.{◌≡◌, ap, sym, ◌∙◌}
use mathlib.Core.Logic.{inl, inr}
use mathlib.Core.Option.{Option, none, some}
use native.Mathlib.Nat.{mul_comm, mul_assoc, pow-suc}
use native.Mathlib.Omega.{arith}
use libbgp.Prelude.Tests.{ltb, if◌then◌else◌, ge→ltb, Bool-cases}
use mathlib.Core.Bool.{false}

-- SIZE_MAX on a machine of 64 bits.
abbrev pub size_max : ℕ
size_max = 2 ^ 64 - 1

-- `while (new_cap < needed) { if (new_cap > SIZE_MAX / 2u) return false; new_cap *= 2u; }`, with `none`
-- for the return; a capacity above zero is doubled at most 64 times.
unfoldable pub double_until : ℕ → ℕ → ℕ → Option ℕ
double_until zero new_cap needed = none
double_until (suc fuel) new_cap needed =
    let next = double_until fuel (new_cap * 2) needed in
    if ltb new_cap needed then (if ltb (size_max / 2) new_cap then none else next) else some new_cap

-- A capacity that is large enough is kept.
pub double_until-once : (n needed : ℕ) → needed ≤ n → double_until 65 n needed ≡ some n
unfolding double_until
double_until-once n needed h = rw (ge→ltb n needed h)

-- What the loop answers is large enough, not below where it started, and a size.
pub double_until-enough :
    (fuel n needed k : ℕ)
    → n ≤ size_max
    → double_until fuel n needed ≡ some k
    → (needed ≤ k) × (n ≤ k) × (k ≤ size_max)
unfolding double_until
double_until-enough zero n needed k s e = cc
double_until-enough (suc fuel) n needed k s e = elim (Bool-cases (ltb n needed)) [
  | inr h ↦ ground arith
  | inl h ↦ elim (Bool-cases (ltb (size_max / 2) n)) [
    | inl big ↦ absurd (ground arith)
    | inr small ↦
        let rest = double_until-enough fuel (n * 2) needed k (ground arith) (ground arith) in
        (rest.0, omega arith, rest.2)
  ]
]

twice_pow : (n f : ℕ) → n * 2 ^ suc f ≡ n * 2 * 2 ^ f
twice_pow n f = ap (λ x. n * x) (pow-suc 2 f ∙ mul_comm (2 ^ f) 2) ∙ sym (mul_assoc n 2 (2 ^ f))

-- The loop finds a capacity for every size up to half the address space.
pub double_until-some :
    (fuel n needed : ℕ)
    → 0 < n
    → needed ≤ 2 ^ 63
    → needed ≤ n * 2 ^ fuel
    → (k : ℕ) × (double_until (suc fuel) n needed ≡ some k)
unfolding double_until
double_until-some zero n needed pos s room = (n, rw (ge→ltb n needed (omega arith)))
double_until-some (suc fuel) n needed pos s room = elim (Bool-cases (ltb n needed)) [
  | inr h ↦ (n, rw h)
  | inl h ↦
      let small : ltb (size_max / 2) n ≡ false = ground arith in
      let rest =
        double_until-some fuel (n * 2) needed (omega arith) s (omega (arith, twice_pow n fuel)) in
      (rest.0, rw (h, small) rest.1)
]
