-- ===== src/Prelude/Maps.antt =====
-- Go's `map[string]A` as the list of its entries, with the laws of its three operations.
use mathlib.Core.Path.{◌≡◌, refl}
use mathlib.Core.List.{List, [], ◌∷◌}
use mathlib.Core.Option.{Option, none, some}
use native.Mathlib.Omega.{arith}
use xmqtt.Prelude.Tests.{Bytes, bytes_eq, bytes_eq_iff, if◌then◌else◌}

module _ {A : Type 0} where
  unfoldable pub find_key : Bytes → List (Bytes × A) → Option A
  find_key k [] = none
  find_key k ((j, v) ∷ m) = if bytes_eq k j then some v else find_key k m

  unfoldable pub put_key : Bytes → A → List (Bytes × A) → List (Bytes × A)
  put_key k v [] = (k, v) ∷ []
  put_key k v ((j, w) ∷ m) = if bytes_eq k j then (j, v) ∷ m else (j, w) ∷ put_key k v m

  unfoldable pub delete_key : Bytes → List (Bytes × A) → List (Bytes × A)
  delete_key k [] = []
  delete_key k ((j, v) ∷ m) =
      let rest = delete_key k m in if bytes_eq k j then rest else (j, v) ∷ rest

  pub find_key-put_key :
      (k l : Bytes) (v : A) (m : List (Bytes × A))
      → find_key k (put_key l v m) ≡ (if bytes_eq k l then some v else find_key k m)
  unfolding find_key put_key
  find_key-put_key k l v [] = refl
  find_key-put_key k l v ((j, w) ∷ m) =
      ground (arith, bytes_eq_iff l j, bytes_eq_iff k j, bytes_eq_iff k l, find_key-put_key k l v m)

  pub find_key-delete_key :
      (k l : Bytes) (m : List (Bytes × A))
      → find_key k (delete_key l m) ≡ (if bytes_eq k l then none else find_key k m)
  unfolding find_key delete_key
  find_key-delete_key k l [] = ground arith
  find_key-delete_key k l ((j, w) ∷ m) =
      ground
        (arith, bytes_eq_iff l j, bytes_eq_iff k j, bytes_eq_iff k l, find_key-delete_key k l m)
