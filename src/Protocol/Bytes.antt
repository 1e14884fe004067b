-- ===== src/Protocol/Bytes.antt =====
-- Bytes in order: `to_be_bytes` and `from_be_bytes` of the standard library, and the part of the
-- `bytes` crate that the frames use, which is not the program's: an interface with its documented laws.
use native.Mathlib.Nat.{div-add-mod', mod-lt, mod-eq_of_lt, mul-add-mod_self_right, pow-suc}
use kaelix.Base.{
  ℕ, zero, suc, ◌+◌, ◌*◌, ◌/◌, ◌%◌, ◌^◌, ◌≤◌, ◌<◌, ◌≡◌, refl, sym, ap, ◌∙◌, arith, List, [], ◌∷◌,
  ◌++◌, length, Bool, true, false, ◌==◌, ◌&&◌,
}

-- The `n` lowest bytes of a number, the highest first.
unfoldable pub to_be_bytes : ℕ → ℕ → List ℕ
to_be_bytes zero v = []
to_be_bytes (suc n) v = (v / 256 ^ n % 256) ∷ to_be_bytes n v

unfoldable pub from_be_bytes : List ℕ → ℕ
from_be_bytes [] = 0
from_be_bytes (b ∷ bs) = b * 256 ^ length bs + from_be_bytes bs

unfoldable pub bytes_eq : List ℕ → List ℕ → Bool
bytes_eq [] [] = true
bytes_eq (x ∷ xs) (y ∷ ys) = x == y && bytes_eq xs ys
bytes_eq _ _ = false

pub length-to_be_bytes : (n v : ℕ) → length (to_be_bytes n v) ≡ n
unfolding to_be_bytes
length-to_be_bytes zero v = refl
length-to_be_bytes (suc n) v = ap suc (length-to_be_bytes n v)

pow_pos : (n : ℕ) → 0 < 256 ^ n
pow_pos zero = omega arith
pow_pos (suc n) = omega (arith, pow-suc 256 n, pow_pos n)

mod-split : (v p : ℕ) → 0 < p → v % (p * 256) ≡ v / p % 256 * p + v % p
mod-split v p h =
    let q = v / p / 256 in
    let r = v / p % 256 * p + v % p in
    let whole : q * (p * 256) + r ≡ v =
      omega (arith, div-add-mod' v p, ap (λ n. n * p) (div-add-mod' (v / p) 256)) in
    let top : v / p % 256 ≤ 255 = omega arith in
    let small : r < p * 256 = grind (arith, mod-lt v h) in
    ap (λ n. n % (p * 256)) (sym whole) ∙ mul-add-mod_self_right q (p * 256) r ∙ mod-eq_of_lt small

-- Reading back what was written gives the number, cut to its width.
pub from-to_be_bytes : (n v : ℕ) → from_be_bytes (to_be_bytes n v) ≡ v % 256 ^ n
unfolding to_be_bytes from_be_bytes
from-to_be_bytes zero v = omega arith
from-to_be_bytes (suc n) v =
    let lengths : 256 ^ length (to_be_bytes n v) ≡ 256 ^ n =
      ap (λ k. 256 ^ k) (length-to_be_bytes n v) in
    omega (
      arith,
      ap (λ p. v / 256 ^ n % 256 * p) lengths,
      from-to_be_bytes n v,
      mod-split v (256 ^ n) (pow_pos n),
      ap (λ p. v % p) (pow-suc 256 n),
    )

-- A `put` appends to a buffer; a `get` takes from the front what it is asked for, and fewer bytes than
-- that are a panic, of which nothing is assumed.
pub record Buffers : Type 0 where
  pub put_slice : List ℕ → List ℕ → List ℕ
  pub put_u8 : List ℕ → ℕ → List ℕ
  pub put_u16 : List ℕ → ℕ → List ℕ
  pub put_u32 : List ℕ → ℕ → List ℕ
  pub put_u64 : List ℕ → ℕ → List ℕ
  pub copy_to_slice : ℕ → List ℕ → List ℕ × List ℕ
  pub get_u8 : List ℕ → ℕ × List ℕ
  pub get_u16 : List ℕ → ℕ × List ℕ
  pub get_u32 : List ℕ → ℕ × List ℕ
  pub get_u64 : List ℕ → ℕ × List ℕ
  pub slice_to : List ℕ → ℕ → List ℕ
  pub extend_from_slice : List ℕ → List ℕ → List ℕ
  pub split_to : ℕ → List ℕ → List ℕ × List ℕ
  pub advance : ℕ → List ℕ → List ℕ
  pub put_slice_lem : (b s : List ℕ) → put_slice b s ≡ b ++ s
  pub put_u8_lem : (b : List ℕ) (v : ℕ) → put_u8 b v ≡ b ++ to_be_bytes 1 v
  pub put_u16_lem : (b : List ℕ) (v : ℕ) → put_u16 b v ≡ b ++ to_be_bytes 2 v
  pub put_u32_lem : (b : List ℕ) (v : ℕ) → put_u32 b v ≡ b ++ to_be_bytes 4 v
  pub put_u64_lem : (b : List ℕ) (v : ℕ) → put_u64 b v ≡ b ++ to_be_bytes 8 v
  pub copy_to_slice_lem : (s b : List ℕ) → copy_to_slice (length s) (s ++ b) ≡ (s, b)
  pub get_u8_lem : (s b : List ℕ) → length s ≡ 1 → get_u8 (s ++ b) ≡ (from_be_bytes s, b)
  pub get_u16_lem : (s b : List ℕ) → length s ≡ 2 → get_u16 (s ++ b) ≡ (from_be_bytes s, b)
  pub get_u32_lem : (s b : List ℕ) → length s ≡ 4 → get_u32 (s ++ b) ≡ (from_be_bytes s, b)
  pub get_u64_lem : (s b : List ℕ) → length s ≡ 8 → get_u64 (s ++ b) ≡ (from_be_bytes s, b)
  pub slice_to_lem : (s b : List ℕ) → slice_to (s ++ b) (length s) ≡ s
  pub extend_from_slice_lem : (b s : List ℕ) → extend_from_slice b s ≡ b ++ s
  pub split_to_lem : (s b : List ℕ) → split_to (length s) (s ++ b) ≡ (s, b)
  pub advance_lem : (s b : List ℕ) → advance (length s) (s ++ b) ≡ b

-- What a `put` wrote, a `get` reads.
module _ (b : Buffers) where
  pub get_u8-put : (v : ℕ) (rest : List ℕ) → b.get_u8 (to_be_bytes 1 v ++ rest) ≡ (v % 2 ^ 8, rest)
  get_u8-put v rest =
      b.get_u8_lem (to_be_bytes 1 v) rest (length-to_be_bytes 1 v)
      ∙ ap (λ n. (n, rest)) (from-to_be_bytes 1 v)

  pub get_u16-put :
      (v : ℕ) (rest : List ℕ) → b.get_u16 (to_be_bytes 2 v ++ rest) ≡ (v % 2 ^ 16, rest)
  get_u16-put v rest =
      b.get_u16_lem (to_be_bytes 2 v) rest (length-to_be_bytes 2 v)
      ∙ ap (λ n. (n, rest)) (from-to_be_bytes 2 v)

  pub get_u32-put :
      (v : ℕ) (rest : List ℕ) → b.get_u32 (to_be_bytes 4 v ++ rest) ≡ (v % 2 ^ 32, rest)
  get_u32-put v rest =
      b.get_u32_lem (to_be_bytes 4 v) rest (length-to_be_bytes 4 v)
      ∙ ap (λ n. (n, rest)) (from-to_be_bytes 4 v)

  pub get_u64-put :
      (v : ℕ) (rest : List ℕ) → b.get_u64 (to_be_bytes 8 v ++ rest) ≡ (v % 2 ^ 64, rest)
  get_u64-put v rest =
      b.get_u64_lem (to_be_bytes 8 v) rest (length-to_be_bytes 8 v)
      ∙ ap (λ n. (n, rest)) (from-to_be_bytes 8 v)
