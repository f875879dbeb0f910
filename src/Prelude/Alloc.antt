-- ===== src/Prelude/Alloc.antt =====
-- Functions that allocate: they pass the allocator's coming outcomes on, and may end in an error code.
use Prim.Native.Nat.{ℕ, zero, suc}
use mathlib.Core.Path.{◌≡◌, refl}
use mathlib.Core.Logic.{◌⊎◌, inl, inr}
use mathlib.Core.Bool.{Bool, true, false}
use mathlib.Core.List.{[], ◌∷◌}
use libbgp.Prelude.Tests.{if◌then◌else◌}
use libbgp.Prelude.Errors.{Result, ok, err, ErrorCode, nomem, Mem, allocate}

abbrev pub Alloc {ℓ} : Type ℓ → Type ℓ
Alloc A = Mem → Result A × Mem

abbrev pub continue {ℓ κ} :
    {A : Type ℓ} {B : Type κ} → Result A → Mem → (A → Alloc B) → Result B × Mem
continue (ok a) m f = f a m
continue (err e) m f = (err e, m)

infixl 5 ◌>>=◌ ◌>>◌
abbrev pub ◌>>=◌ {ℓ κ} : {A : Type ℓ} {B : Type κ} → Alloc A → (A → Alloc B) → Alloc B
◌>>=◌ c f m = let r = c m in continue r.0 r.1 f

abbrev pub ◌>>◌ {ℓ} : {B : Type ℓ} → Alloc (Unit {0}) → Alloc B → Alloc B
c >> k = c >>= λ _. k

abbrev pub give {ℓ} : {A : Type ℓ} → A → Alloc A
give a m = (ok a, m)

abbrev pub fail {ℓ} : {A : Type ℓ} → ErrorCode → Alloc A
fail e m = (err e, m)

-- An early return with `e` unless the condition holds.
abbrev pub require : Bool → ErrorCode → Alloc (Unit {0})
require true e m = (ok tt, m)
require false e m = (err e, m)

-- A call of the allocator whose failure is answered by LIBBGP_ERR_NOMEM.
abbrev pub malloc : Alloc (Unit {0})
malloc m = let got = allocate m in if got.0 then (ok tt, got.1) else (err nomem, got.1)

-- `if (n != 0) { copy = malloc(n); if (copy == NULL) return LIBBGP_ERR_NOMEM; … }`
unfoldable pub malloc_bytes : ℕ → Alloc (Unit {0})
malloc_bytes zero m = (ok tt, m)
malloc_bytes (suc n) m = malloc m

pub malloc_bytes-ok : (n : ℕ) → malloc_bytes n [] ≡ (ok tt, [])
unfolding malloc_bytes
malloc_bytes-ok zero = refl
malloc_bytes-ok (suc n) = refl

pub malloc_bytes-cases :
    (n : ℕ) (m : Mem) → ((malloc_bytes n m).0 ≡ ok tt) ⊎ ((malloc_bytes n m).0 ≡ err nomem)
unfolding malloc_bytes
malloc_bytes-cases zero m = inl refl
malloc_bytes-cases (suc n) [] = inl refl
malloc_bytes-cases (suc n) (true ∷ m) = inl refl
malloc_bytes-cases (suc n) (false ∷ m) = inr refl
