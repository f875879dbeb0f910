-- ===== src/Prelude/Errors.antt =====
-- include/libbgp/types.h: the error codes that a function returns beside its result, and src/alloc.c
-- as seen by its callers.
use mathlib.Core.Path.{◌≡◌, refl}
use mathlib.Core.Logic.{◌⊎◌, inl, inr}
use mathlib.Core.Bool.{Bool, true}
use libbgp.Prelude.Tests.{if◌then◌else◌}
use mathlib.Core.List.{List, [], ◌∷◌}

-- `libbgp_err_t` without LIBBGP_OK, which is the constructor `ok` below.
pub data ErrorCode : Type 0 where
  generic parse_failed write_failed bad_type bad_len buffer invalid exists not_found nomem :
      ErrorCode

pub data Result {ℓ} (A : Type ℓ) : Type ℓ where
  ok : A → Result A
  err : ErrorCode → Result A

-- An early return with the error code unless the condition holds.
abbrev pub guard : Bool → ErrorCode → Result (Unit {0})
guard condition code = if condition then ok tt else err code

infixl 5 ◌>>=◌
-- The rest of a function, which runs if no error was returned.
abbrev pub ◌>>=◌ {ℓ₁ ℓ₂} :
    {A : Type ℓ₁} {B : Type ℓ₂} (result : Result A) (rest : A → Result B) → Result B
◌>>=◌ (err code) rest = err code
◌>>=◌ (ok value) rest = rest value

infixl 5 ◌>>◌
abbrev pub ◌>>◌ {ℓ₂} : {B : Type ℓ₂} (result : Result (Unit {0})) (rest : Result B) → Result B
◌>>◌ result rest = ◌>>=◌ result (λ _. rest)

-- The outcomes of the coming calls of the allocator hooks; behind the end of the list each succeeds.
abbrev pub Mem : Type 0
Mem = List Bool

-- One call of malloc, calloc or realloc: whether it returns memory, and the outcomes still to come.
abbrev pub allocate : Mem → Bool × Mem
allocate [] = (true, [])
allocate (b ∷ m) = (b, m)

pub ok_injective {ℓ} : {A : Type ℓ} {a b : A} → ok a ≡ ok b → a ≡ b
ok_injective e = cc

pub Result-cases {ℓ} :
    {A : Type ℓ} (r : Result A) → ((a : A) × (r ≡ ok a)) ⊎ ((e : ErrorCode) × (r ≡ err e))
Result-cases (ok a) = inl (a, refl)
Result-cases (err e) = inr (e, refl)
