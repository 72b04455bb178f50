-- ===== src/Common/Dict.antt =====
-- Maps from numbers, such as `std::unordered_map` with an integer key, as association lists.
use Prim.Native.Nat.{ℕ}
use mathlib.Core.Path.{◌≡◌, refl}
use mathlib.Core.List.{List, [], ◌∷◌}
use mathlib.Core.Option.{Option, none, some}
use native.Mathlib.Omega.{arith}
use cmu.Common.Tests.{◌==◌, if◌then◌else◌}

abbrev pub Dict {ℓ} : Type ℓ → Type ℓ
Dict V = List (ℕ × V)

module _ {ℓ} {V : Type ℓ} where
  unfoldable pub get : ℕ → Dict V → Option V
  get k [] = none
  get k ((j, v) ∷ m) = if j == k then some v else get k m

  unfoldable pub put : ℕ → V → Dict V → Dict V
  put k v [] = (k, v) ∷ []
  put k v ((j, w) ∷ m) = if j == k then (k, v) ∷ m else (j, w) ∷ put k v m

  unfoldable pub drop_key : ℕ → Dict V → Dict V
  drop_key k [] = []
  drop_key k ((j, w) ∷ m) = if j == k then drop_key k m else (j, w) ∷ drop_key k m

  pub get-put :
      (k j : ℕ) (v : V) (m : Dict V) → get j (put k v m) ≡ (if k == j then some v else get j m)
  unfolding get put
  get-put k j v [] = refl
  get-put k j v ((i, w) ∷ m) = ground (arith, get-put k j v m)

  pub get-drop_key :
      (k j : ℕ) (m : Dict V) → get j (drop_key k m) ≡ (if k == j then none else get j m)
  unfolding get drop_key
  get-drop_key k j [] = ground arith
  get-drop_key k j ((i, w) ∷ m) = ground (arith, get-drop_key k j m)
