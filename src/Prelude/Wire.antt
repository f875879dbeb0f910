-- ===== src/Prelude/Wire.antt =====
-- src/internal.h: numbers of two and four bytes, the highest byte first. The bytes that the code joins
-- by `|` after shifts do not overlap, so the join is their sum.
use Prim.Native.Nat.{ℕ, ◌+◌, ◌*◌, ◌/◌, ◌%◌, ◌^◌, ◌<◌}
use mathlib.Core.Path.{◌≡◌}
use mathlib.Core.List.{List, [], ◌∷◌, ◌++◌}
use native.Mathlib.Omega.{arith}
use libbgp.Prelude.Lists.{get_or}

abbrev pub bgp_get_be16 : List ℕ → ℕ
bgp_get_be16 p = get_or p 0 0 * 2 ^ 8 + get_or p 1 0

abbrev pub bgp_get_be32 : List ℕ → ℕ
bgp_get_be32 p = get_or p 0 0 * 2 ^ 24 + get_or p 1 0 * 2 ^ 16 + get_or p 2 0 * 2 ^ 8 + get_or p 3 0

abbrev pub bgp_put_be16 : ℕ → List ℕ
bgp_put_be16 v = (v / 2 ^ 8 % 256) ∷ (v % 256) ∷ []

abbrev pub bgp_put_be32 : ℕ → List ℕ
bgp_put_be32 v = (v / 2 ^ 24 % 256) ∷ (v / 2 ^ 16 % 256) ∷ (v / 2 ^ 8 % 256) ∷ (v % 256) ∷ []

pub get-put_be16 : (v : ℕ) (rest : List ℕ) → v < 2 ^ 16 → bgp_get_be16 (bgp_put_be16 v ++ rest) ≡ v
get-put_be16 v rest h = omega arith

pub get-put_be32 : (v : ℕ) (rest : List ℕ) → v < 2 ^ 32 → bgp_get_be32 (bgp_put_be32 v ++ rest) ≡ v
get-put_be32 v rest h = omega arith
