-- ===== src/Prelude/Dict.antt =====
-- A JavaScript `Map`, or an object used as a record, in insertion order.
use Prim.Native.Nat.{◌+◌, ◌≤◌}
use mathlib.Core.Path.{◌≡◌, refl}
use mathlib.Core.Option.{Option, none, some}
use mathlib.Core.List.{List, [], ◌∷◌}
use native.Mathlib.Omega.{arith}
use winkd.Prelude.Tests.{Eq, if◌then◌else◌}
use winkd.Prelude.Lists.{length}

abbrev pub Dict {ℓ} : Type 0 → Type ℓ → Type ℓ
Dict K V = List (K × V)

module _ {ℓ} {K : Type 0} {V : Type ℓ} ⦃e : Eq K⦄ where
  -- `map.get(key)`, `object[key]`
  unfoldable pub get : K → Dict K V → Option V
  get k [] = none
  get k ((i, v) ∷ d) = if e.beq i k then some v else get k d

  -- `map.set(key, value)`, `object[key] = value`: an old key keeps its place.
  unfoldable pub put : K → V → Dict K V → Dict K V
  put k v [] = (k, v) ∷ []
  put k v ((i, w) ∷ d) = if e.beq i k then (i, v) ∷ d else (i, w) ∷ put k v d

  -- `map.delete(key)`, `delete object[key]`
  unfoldable pub remove : K → Dict K V → Dict K V
  remove k [] = []
  remove k ((i, w) ∷ d) = let rest = remove k d in if e.beq i k then rest else (i, w) ∷ rest

  pub get-put :
      (k j : K) (v : V) (d : Dict K V) → get j (put k v d) ≡ (if e.beq k j then some v else get j d)
  unfolding get put
  get-put k j v [] = refl
  get-put k j v ((i, w) ∷ d) =
      ground (arith, e.beq_iff i k, e.beq_iff i j, e.beq_iff k j, get-put k j v d)

  pub put-put : (k : K) (v w : V) (d : Dict K V) → put k w (put k v d) ≡ put k w d
  unfolding put
  put-put k v w [] = ground (arith, e.beq_iff k k)
  put-put k v w ((i, u) ∷ d) = ground (arith, e.beq_iff k k, put-put k v w d)

  pub get-put_same : (k : K) (v : V) (d : Dict K V) → get k (put k v d) ≡ some v
  get-put_same k v d = ground (arith, get-put k k v d, e.beq_iff k k)

  pub get-remove :
      (k j : K) (d : Dict K V) → get j (remove k d) ≡ (if e.beq k j then none else get j d)
  unfolding get remove
  get-remove k j [] = ground arith
  get-remove k j ((i, w) ∷ d) =
      ground (arith, e.beq_iff i k, e.beq_iff i j, e.beq_iff k j, get-remove k j d)

  pub length-put-le : (k : K) (v : V) (d : Dict K V) → length (put k v d) ≤ length d + 1
  unfolding put
  length-put-le k v [] = omega arith
  length-put-le k v ((i, w) ∷ d) = ground (arith, length-put-le k v d)

  pub length-remove-le : (k : K) (d : Dict K V) → length (remove k d) ≤ length d
  unfolding remove
  length-remove-le k [] = omega arith
  length-remove-le k ((i, w) ∷ d) = ground (arith, length-remove-le k d)
