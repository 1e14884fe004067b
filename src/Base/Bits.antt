-- ===== src/Base/Bits.antt =====
-- Masks and disjoint ors: the laws of `bit_and` and `bit_or` that fields packed in a word need.
use Prim.Native.Nat.{
  ℕ, zero, suc, ◌+◌, ◌-◌, ◌*◌, ◌/◌, ◌%◌, ◌^◌, ◌≤◌, ◌<◌, min, max, bit_and, bit_or, digits,
  bit_and-bitwise, bit_or-bitwise,
}
use mathlib.Core.Path.{◌≡◌, refl, sym, ◌∙◌, ap}
use native.Mathlib.Nat.{pow-suc, div-add-mod', mod-lt, mod-eq_of_lt, mul-add-mod_self_right}
use native.Mathlib.Omega.{arith}

-- Both operations go through the digits of the first number, and stop when none is left.
module _ (past_end : ℕ → ℕ) (on_digits : ℕ → ℕ → ℕ) where
  abbrev combined : ℕ → ℕ → ℕ → ℕ
  combined limit x y = digits past_end on_digits limit x y

  combined-zero : (limit y : ℕ) → combined limit 0 y ≡ past_end y
  combined-zero zero y = refl
  combined-zero (suc limit) y = refl

  one_more : (limit x y : ℕ) → x ≤ limit → combined (suc limit) x y ≡ combined limit x y
  one_more limit zero y enough = combined-zero (suc limit) y ∙ sym (combined-zero limit y)
  one_more zero (suc x) y enough = absurd (omega arith)
  one_more (suc limit) (suc x) y enough =
      let halves = one_more limit (suc x / 2) (y / 2) (omega arith) in
      ap (λ h. h * 2 + on_digits (suc x % 2) (y % 2)) halves

  some_more : (spare limit x y : ℕ) → x ≤ limit → combined (spare + limit) x y ≡ combined limit x y
  some_more zero limit x y enough = ap (λ n. combined n x y) (omega arith)
  some_more (suc spare) limit x y enough =
      let next : suc spare + limit ≡ suc (spare + limit) = omega arith in
      ap (λ n. combined n x y) next
      ∙ one_more (spare + limit) x y (omega arith)
      ∙ some_more spare limit x y enough

  -- The law of the lowest digit, for an operation that is given by its digits.
  lowest_digit :
      (operation : ℕ → ℕ → ℕ)
      → ((x y : ℕ) → operation x y ≡ combined x x y)
      → (x y : ℕ)
      → operation (suc x) y ≡ operation (suc x / 2) (y / 2) * 2 + on_digits (suc x % 2) (y % 2)
  lowest_digit operation by_digits x y =
      let half = suc x / 2 in
      let spare : x ≡ x - half + half = omega arith in
      let shorter =
        ap (λ n. combined n half (y / 2)) spare
        ∙ some_more (x - half) half half (y / 2) (omega arith)
        ∙ sym (by_digits half (y / 2)) in
      by_digits (suc x) y ∙ ap (λ h. h * 2 + on_digits (suc x % 2) (y % 2)) shorter

or_lowest : (x y : ℕ) → bit_or x y ≡ bit_or (x / 2) (y / 2) * 2 + max (x % 2) (y % 2)
or_lowest zero y = omega (arith, bit_or-bitwise 0 y, bit_or-bitwise 0 (y / 2))
or_lowest (suc x) y = lowest_digit (λ d. d) max bit_or bit_or-bitwise x y

and_lowest : (x y : ℕ) → bit_and x y ≡ bit_and (x / 2) (y / 2) * 2 + min (x % 2) (y % 2)
and_lowest zero y = omega (arith, bit_and-bitwise 0 y, bit_and-bitwise 0 (y / 2))
and_lowest (suc x) y = lowest_digit (λ d. 0) min bit_and bit_and-bitwise x y

-- Beside zero, below any limit on the number.
beside_zero : (limit x : ℕ) → x ≤ limit → (bit_or x 0 ≡ x) × (bit_and x 0 ≡ 0)
beside_zero zero x small = let none : x ≡ 0 = omega arith in rw none (refl, refl)
beside_zero (suc limit) x small =
    let (or_half, and_half) = beside_zero limit (x / 2) (omega arith) in
    (omega (arith, or_lowest x 0, or_half), omega (arith, and_lowest x 0, and_half))

double_pow : (k : ℕ) → 2 ^ suc k ≡ 2 ^ k * 2
double_pow k = pow-suc 2 k

-- A value shifted by k digits, or'ed with one of k digits, is their sum.
pub bit_or_shifted : (k a b : ℕ) → b < 2 ^ k → bit_or (a * 2 ^ k) b ≡ a * 2 ^ k + b
bit_or_shifted zero a b h =
    let none : b ≡ 0 = omega arith in
    rw none ((beside_zero (a * 2 ^ 0) (a * 2 ^ 0) (omega arith)).0 ∙ omega arith)
bit_or_shifted (suc k) a b h =
    let half : a * 2 ^ suc k / 2 ≡ a * 2 ^ k = omega (arith, ap (λ p. a * p) (double_pow k)) in
    let rest = bit_or_shifted k a (b / 2) (omega (arith, double_pow k)) in
    let step = or_lowest (a * 2 ^ suc k) b in
    omega (arith, step, ap (λ n. bit_or n (b / 2)) half, rest, ap (λ p. a * p) (double_pow k))

mod_double : (a p : ℕ) → 0 < p → a % (p * 2) ≡ a / 2 % p * 2 + a % 2
mod_double a p h =
    let q = a / 2 / p in
    let r = a / 2 % p * 2 + a % 2 in
    let whole : q * (p * 2) + r ≡ a = omega (arith, div-add-mod' (a / 2) p) in
    let small : r < p * 2 = omega (arith, mod-lt (a / 2) h) in
    ap (λ n. n % (p * 2)) (sym whole) ∙ mul-add-mod_self_right q (p * 2) r ∙ mod-eq_of_lt small

pow_pos : (k : ℕ) → 0 < 2 ^ k
pow_pos zero = omega arith
pow_pos (suc k) = omega (arith, double_pow k, pow_pos k)

-- A mask of k ones keeps the lowest k digits.
pub bit_and_mask : (k a m : ℕ) → m + 1 ≡ 2 ^ k → bit_and a m ≡ a % 2 ^ k
bit_and_mask zero a m e =
    let none : m ≡ 0 = omega arith in rw none ((beside_zero a a (omega arith)).1 ∙ omega arith)
bit_and_mask (suc k) a m e = omega (
  arith,
  and_lowest a m,
  bit_and_mask k (a / 2) (m / 2) (omega (arith, double_pow k)),
  mod_double a (2 ^ k) (pow_pos k),
  ap (λ p. a % p) (double_pow k),
  double_pow k,
  pow_pos k,
)
