-- ===== src/Prelude/Rotation.antt =====
-- What stands at a place of a list that is cut, joined or turned.
use Prim.Native.Nat.{ℕ, zero, suc, ◌+◌, ◌-◌, ◌<◌, ◌≤◌, ◌%◌}
use mathlib.Core.Path.{◌≡◌, refl, ap, sym, ◌∙◌}
use mathlib.Core.Logic.{inl, inr}
use mathlib.Core.List.{List, [], ◌∷◌, ◌++◌}
use native.Mathlib.Omega.{arith}
use native.Mathlib.Nat.{mod-lt}
use xmqtt.Prelude.Lists.{length, get_elem?, take, drop, length-append, length-take, length-drop}
use xmqtt.Prelude.Masks.{mod-sum_cases}

module _ {A : Type 0} where
  pub get_elem?-drop :
      (i : ℕ) (xs : List A) (j : ℕ) → get_elem? (drop i xs) j ≡ get_elem? xs (i + j)
  get_elem?-drop zero xs j = ap (get_elem? xs) (omega arith)
  get_elem?-drop (suc i) [] j = refl
  get_elem?-drop (suc i) (x ∷ xs) j =
      get_elem?-drop i xs j ∙ ap (get_elem? (x ∷ xs)) {x = suc (i + j)} (omega arith)

  pub get_elem?-take :
      (n : ℕ) (xs : List A) (j : ℕ) → j < n → get_elem? (take n xs) j ≡ get_elem? xs j
  get_elem?-take zero xs j h = absurd (omega arith)
  get_elem?-take (suc n) [] j h = refl
  get_elem?-take (suc n) (x ∷ xs) zero h = refl
  get_elem?-take (suc n) (x ∷ xs) (suc j) h = get_elem?-take n xs j (omega arith)

  pub get_elem?-append_left :
      (xs ys : List A) (j : ℕ) → j < length xs → get_elem? (xs ++ ys) j ≡ get_elem? xs j
  get_elem?-append_left [] ys j h = absurd (omega arith)
  get_elem?-append_left (x ∷ xs) ys zero h = refl
  get_elem?-append_left (x ∷ xs) ys (suc j) h = get_elem?-append_left xs ys j (omega arith)

  pub get_elem?-append_right :
      (xs ys : List A) (j : ℕ)
      → length xs ≤ j
      → get_elem? (xs ++ ys) j ≡ get_elem? ys (j - length xs)
  get_elem?-append_right [] ys j h = ap (get_elem? ys) (omega arith)
  get_elem?-append_right (x ∷ xs) ys zero h = absurd (omega arith)
  get_elem?-append_right (x ∷ xs) ys (suc j) h =
      get_elem?-append_right xs ys j (omega arith)
      ∙ ap (get_elem? ys) {y = suc j - length (x ∷ xs)} (omega arith)

  -- The list from place `h` on, round its end.
  unfoldable pub rotated : ℕ → List A → List A
  rotated h xs = take (length xs - h) (drop h xs) ++ take h xs

  pub length-rotated : (h : ℕ) (xs : List A) → h < length xs → length (rotated h xs) ≡ length xs
  unfolding rotated
  length-rotated h xs l = omega (
    arith,
    length-append (take (length xs - h) (drop h xs)) (take h xs),
    length-take (length xs - h) (drop h xs),
    length-drop h xs,
    length-take h xs,
  )

  pub get_elem?-rotated :
      (h : ℕ) (xs : List A) (j : ℕ)
      → h < length xs
      → j < length xs
      → get_elem? (rotated h xs) j ≡ get_elem? xs ((h + j) % length xs)
  unfolding rotated
  get_elem?-rotated h xs j lh lj = elim (mod-sum_cases h j (length xs) lh lj) [
    | inl e ↦
        get_elem?-append_left front (take h xs) j (omega (arith, long, e, below))
        ∙ get_elem?-take (length xs - h) (drop h xs) j (omega (arith, e, below))
        ∙ get_elem?-drop h xs j
        ∙ ap (get_elem? xs) (sym e)
    | inr e ↦
        get_elem?-append_right front (take h xs) j (omega (arith, long, e))
        ∙ get_elem?-take h xs (j - length front) (omega (arith, long, e))
        ∙ ap (get_elem? xs) (omega (arith, long, e))
  ]
    where
      front : List A
      front = take (length xs - h) (drop h xs)

      below : (h + j) % length xs < length xs
      below = mod-lt (h + j) {m = length xs} (omega (arith, lh))

      long : length front ≡ length xs - h
      long = omega (arith, length-take (length xs - h) (drop h xs), length-drop h xs)
