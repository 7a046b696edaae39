-- ===== src/Prelude/Map.antt =====
-- `HashMap` keyed by UUIDs, as the list of its entries in iteration order. The program relies on no
-- order of iteration; where a result could depend on it, that is a theorem of the client.
use mathlib.Core.Path.{◌≡◌}
use mathlib.Core.List.{List, [], ◌∷◌}
use mathlib.Core.Option.{Option, none, some}
use Prim.Native.Nat.{ℕ}
use native.Mathlib.Omega.{arith}
use fubun.Prelude.Tests.{◌==◌, if◌then◌else◌}
use fubun.Prelude.Lists.{All}

abbrev pub Map {ℓ} : Type ℓ → Type ℓ
Map V = List (ℕ × V)

module _ {ℓ} {V : Type ℓ} where
  unfoldable pub get : ℕ → Map V → Option V
  get k [] = none
  get k ((j, v) ∷ m) = if j == k then some v else get k m

  unfoldable pub remove : ℕ → Map V → Map V
  remove k [] = []
  remove k ((j, v) ∷ m) = let rest = remove k m in if j == k then rest else (j, v) ∷ rest

  -- `insert` replaces an entry of that key.
  unfoldable pub put : ℕ → V → Map V → Map V
  put k v m = (k, v) ∷ remove k m

  pub get-remove : (k j : ℕ) (m : Map V) → get j (remove k m) ≡ (if k == j then none else get j m)
  unfolding get remove
  get-remove k j [] = ground arith
  get-remove k j ((i, v) ∷ m) = ground (arith, get-remove k j m)

  pub get-put :
      (k j : ℕ) (v : V) (m : Map V) → get j (put k v m) ≡ (if k == j then some v else get j m)
  unfolding get put
  get-put k j v m = ground (arith, get-remove k j m)

  pub All-remove {κ} : (P : ℕ × V → Type κ) (k : ℕ) (m : Map V) → All P m → All P (remove k m)
  unfolding remove
  All-remove P k [] h = tt
  All-remove P k ((j, v) ∷ m) h = ground (arith, All-remove P k m h.1)

  pub All-put {κ} :
      (P : ℕ × V → Type κ) (k : ℕ) (v : V) (m : Map V) → P (k, v) → All P m → All P (put k v m)
  unfolding put
  All-put P k v m p h = (p, All-remove P k m h)
