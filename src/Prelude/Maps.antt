-- ===== src/Prelude/Maps.antt =====
-- Go's maps as association lists over keys with a decidable equality: `m[k]` with `ok`,
-- `m[k] = v` and `delete(m, k)`. The iteration order of `range` is the list's order.
use mathlib.Core.Path.{◌≡◌, refl}
use mathlib.Core.Logic.{◌≢◌, ite}
use mathlib.Core.List.{List, [], ◌∷◌}
use mathlib.Core.Option.{Option, none, some}
use native.Mathlib.Omega.{arith}

module _ {ℓ} {K V : Type ℓ} (dec : Discrete K) where
  unfoldable pub find : K → List (K × V) → Option V
  find k [] = none
  find k ((j, v) ∷ m) = ite (dec j k) (some v) (find k m)

  unfoldable pub store : K → V → List (K × V) → List (K × V)
  store k v [] = (k, v) ∷ []
  store k v ((j, w) ∷ m) = ite (dec j k) ((k, v) ∷ m) ((j, w) ∷ store k v m)

  unfoldable pub delete : K → List (K × V) → List (K × V)
  delete k [] = []
  delete k ((j, w) ∷ m) = ite (dec j k) (delete k m) ((j, w) ∷ delete k m)

  pub find-store :
      (k j : K) (v : V) (m : List (K × V))
      → find j (store k v m) ≡ ite (dec k j) (some v) (find j m)
  unfolding find store
  find-store k j v [] = refl
  find-store k j v ((i, w) ∷ m) = ground (arith, find-store k j v m)

  pub find-delete :
      (k j : K) (m : List (K × V)) → find j (delete k m) ≡ ite (dec k j) none (find j m)
  unfolding find delete
  find-delete k j [] = ground arith
  find-delete k j ((i, w) ∷ m) = ground (arith, find-delete k j m)

  pub find-store_self : (k : K) (v : V) (m : List (K × V)) → find k (store k v m) ≡ some v
  find-store_self k v m = ground (arith, find-store k k v m)

  pub find-delete_self : (k : K) (m : List (K × V)) → find k (delete k m) ≡ none
  find-delete_self k m = ground (arith, find-delete k k m)

  pub find-store_ne : (k j : K) (v : V) (m : List (K × V)) → k ≢ j → find j (store k v m) ≡ find j m
  find-store_ne k j v m h = ground (arith, find-store k j v m)

  pub find-delete_ne : (k j : K) (m : List (K × V)) → k ≢ j → find j (delete k m) ≡ find j m
  find-delete_ne k j m h = ground (arith, find-delete k j m)
