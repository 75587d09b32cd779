-- ===== src/Prelude/Masks.antt =====
-- A mask of ones is a remainder, and remainders on a ring.
use Prim.Native.Nat.{
  ℕ, zero, suc, ◌+◌, ◌-◌, ◌*◌, ◌/◌, ◌%◌, ◌^◌, ◌≤◌, ◌<◌, min, bit_and, digits, bit_and-bitwise,
}
use mathlib.Core.Path.{◌≡◌, refl, ap, sym, ◌∙◌}
use mathlib.Core.Logic.{◌⊎◌, inl, inr}
use native.Mathlib.Omega.{arith}
use xmqtt.Prelude.Tests.{Bool-cases, ltb, ltb→lt}
use native.Mathlib.Nat.{
  mod-eq_of_lt, mod-lt, div-add-mod, add-mod_right, one-le-pow, pow-suc, add-mul-mod_self_left,
}

-- Twice a ring: the lowest digit stays, and the rest goes round the half.
mod_double : (a p : ℕ) → 0 < p → (a / 2) % p * 2 + a % 2 ≡ a % (p * 2)
mod_double a p pos =
    let h = a / 2 in
    let small = h % p * 2 + a % 2 in
    let below : small < p * 2 = omega (arith, mod-lt h pos) in
    let whole : a ≡ small + p * 2 * (h / p) = omega (arith, div-add-mod h p) in
    sym (
      ap (λ x. x % (p * 2)) whole
      ∙ add-mul-mod_self_left small (p * 2) (h / p)
      ∙ mod-eq_of_lt below)

abbrev ones : ℕ → ℕ
ones k = 2 ^ k - 1

-- With enough digits to go, the digits under the mask are those of the remainder.
digits-ones : (n k a : ℕ) → a ≤ n → digits (λ b. zero) min n a (ones k) ≡ a % 2 ^ k
digits-ones zero k zero h = sym (mod-eq_of_lt (one-le-pow k 2 (omega arith)))
digits-ones zero k (suc a) h = absurd (omega arith)
digits-ones (suc n) k zero h = sym (mod-eq_of_lt (one-le-pow k 2 (omega arith)))
digits-ones (suc n) zero (suc a) h = omega (arith, digits-ones n zero (suc a / 2) (omega arith))
digits-ones (suc n) (suc k) (suc a) h =
    let pos : 1 ≤ 2 ^ k = one-le-pow k 2 (omega arith) in
    let half : ones (suc k) / 2 ≡ ones k = omega arith in
    let odd : ones (suc k) % 2 ≡ 1 = omega arith in
    let deeper =
      ap (λ m. digits (λ b. zero) min n (suc a / 2) m) half
      ∙ digits-ones n k (suc a / 2) (omega arith) in
    let low : min (suc a % 2) (ones (suc k) % 2) ≡ suc a % 2 = omega (arith, odd) in
    omega (arith, deeper, low, mod_double (suc a) (2 ^ k) pos)
    ∙ sym (ap (λ m. suc a % m) (pow-suc 2 k))

pub bit_and-ones : (a k : ℕ) → bit_and a (2 ^ k - 1) ≡ a % 2 ^ k
bit_and-ones a k = bit_and-bitwise a (ones k) ∙ digits-ones a k a (omega arith)

pub lt_or_le : (a b : ℕ) → (a < b) ⊎ (b ≤ a)
lt_or_le a b = elim (Bool-cases (ltb a b)) [
  | inl h ↦ inl (ltb→lt a b h)
  | inr h ↦ inr (ground arith)
]

pub mod-sum_cases : (a b p : ℕ) → a < p → b < p → ((a + b) % p ≡ a + b) ⊎ ((a + b) % p + p ≡ a + b)
mod-sum_cases a b p h k = elim (lt_or_le (a + b) p) [
  | inl l ↦ inl (mod-eq_of_lt l)
  | inr l ↦ inr (omega (arith, fits l))
]
  where
    fits : p ≤ a + b → (a + b) % p ≡ a + b - p
    fits l =
        ap (λ x. x % p) (omega arith) ∙ add-mod_right (a + b - p) p ∙ mod-eq_of_lt (omega arith)

-- A number has all its digits in common with itself.
digits_self : (n a : ℕ) → a ≤ n → digits (λ b. zero) min n a a ≡ a
digits_self zero zero h = refl
digits_self zero (suc a) h = absurd (omega arith)
digits_self (suc n) zero h = refl
digits_self (suc n) (suc a) h = omega (arith, digits_self n (suc a / 2) (omega arith))

-- A number that has no digit in common with the one before it is a power of two.
digits_power :
    (n a : ℕ) → a ≤ n → 0 < a → digits (λ b. zero) min n a (a - 1) ≡ 0 → (k : ℕ) × (a ≡ 2 ^ k)
digits_power zero a h pos e = absurd (omega arith)
digits_power (suc n) zero h pos e = absurd (omega arith)
digits_power (suc n) (suc a) h pos e = elim (lt_or_le 0 (suc a % 2)) [
  | inl odd ↦
      let half =
        ap (λ m. digits (λ b. zero) min n (suc a / 2) m) {x = (suc a - 1) / 2} {y = suc a / 2}
          (omega (arith, odd)) in
      (0, omega (arith, e, half, odd, digits_self n (suc a / 2) (omega arith)))
  | inr even ↦
      let half =
        ap (λ m. digits (λ b. zero) min n (suc a / 2) m) {x = (suc a - 1) / 2} {y = suc a / 2 - 1}
          (omega (arith, even)) in
      let (k, p) =
        digits_power n (suc a / 2) (omega arith) (omega (arith, even)) (omega (arith, e, half)) in
      (suc k, omega (arith, p, even, pow-suc 2 k))
]

pub power-bit_and : (a : ℕ) → 0 < a → bit_and a (a - 1) ≡ 0 → (k : ℕ) × (a ≡ 2 ^ k)
power-bit_and a pos e = digits_power a a (omega arith) pos (sym (bit_and-bitwise a (a - 1)) ∙ e)
