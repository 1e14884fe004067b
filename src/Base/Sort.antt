-- ===== src/Base/Sort.antt =====
-- `sort_unstable` on numbers: the sorted list, by insertion, and what counting says of it.
use Prim.Native.Nat.{ℕ, zero, suc, ◌+◌, ◌≤◌}
use mathlib.Core.Path.{◌≡◌, refl, ◌∙◌, ap}
use mathlib.Core.Option.{some}
use mathlib.Core.List.{List, [], ◌∷◌}
use native.Mathlib.Omega.{arith}
use kaelix.Base.Tests.{leb, if◌then◌else◌}
use kaelix.Base.Lists.{length, get_elem?}

insert_sorted : ℕ → List ℕ → List ℕ
insert_sorted x [] = x ∷ []
insert_sorted x (y ∷ ys) = if leb x y then x ∷ y ∷ ys else y ∷ insert_sorted x ys

unfoldable pub sort : List ℕ → List ℕ
unfolding insert_sorted
sort [] = []
sort (x ∷ xs) = insert_sorted x (sort xs)

-- How many members are at least `v`.
unfoldable pub count_ge : ℕ → List ℕ → ℕ
count_ge v [] = 0
count_ge v (x ∷ xs) = (if leb v x then 1 else 0) + count_ge v xs

abbrev pub AllGe : ℕ → List ℕ → Type 0
AllGe v [] = Unit {0}
AllGe v (x ∷ xs) = (v ≤ x) × AllGe v xs

abbrev pub IsSorted : List ℕ → Type 0
IsSorted [] = Unit {0}
IsSorted (x ∷ xs) = AllGe x xs × IsSorted xs

AllGe-mono : {u v : ℕ} (xs : List ℕ) → u ≤ v → AllGe v xs → AllGe u xs
AllGe-mono [] h a = tt
AllGe-mono {u} {v} (x ∷ xs) h a = (omega arith, AllGe-mono {u = u} {v = v} xs h a.1)

AllGe-insert_sorted : (v x : ℕ) (xs : List ℕ) → v ≤ x → AllGe v xs → AllGe v (insert_sorted x xs)
unfolding insert_sorted
AllGe-insert_sorted v x [] h a = (h, tt)
AllGe-insert_sorted v x (y ∷ ys) h a = ground (arith, AllGe-insert_sorted v x ys h a.1)

insert_sorted-IsSorted : (x : ℕ) (xs : List ℕ) → IsSorted xs → IsSorted (insert_sorted x xs)
unfolding insert_sorted
insert_sorted-IsSorted x [] s = (tt, tt)
insert_sorted-IsSorted x (y ∷ ys) s = ground (
  arith,
  insert_sorted-IsSorted x ys s.1,
  AllGe-insert_sorted y x ys,
  AllGe-mono {u = x} {v = y} ys,
)

pub sort-IsSorted : (xs : List ℕ) → IsSorted (sort xs)
unfolding sort
sort-IsSorted [] = tt
sort-IsSorted (x ∷ xs) = insert_sorted-IsSorted x (sort xs) (sort-IsSorted xs)

length-insert_sorted : (x : ℕ) (xs : List ℕ) → length (insert_sorted x xs) ≡ suc (length xs)
unfolding insert_sorted
length-insert_sorted x [] = refl
length-insert_sorted x (y ∷ ys) = ground (arith, length-insert_sorted x ys)

pub length-sort : (xs : List ℕ) → length (sort xs) ≡ length xs
unfolding sort
length-sort [] = refl
length-sort (x ∷ xs) = length-insert_sorted x (sort xs) ∙ ap suc (length-sort xs)

count_ge-insert_sorted :
    (v x : ℕ) (xs : List ℕ) → count_ge v (insert_sorted x xs) ≡ count_ge v (x ∷ xs)
unfolding insert_sorted count_ge
count_ge-insert_sorted v x [] = refl
count_ge-insert_sorted v x (y ∷ ys) = ground (arith, count_ge-insert_sorted v x ys)

pub count_ge-sort : (v : ℕ) (xs : List ℕ) → count_ge v (sort xs) ≡ count_ge v xs
unfolding sort count_ge
count_ge-sort v [] = refl
count_ge-sort v (x ∷ xs) =
    count_ge-insert_sorted v x (sort xs)
    ∙ ap (λ n. (if leb v x then 1 else 0) + n) (count_ge-sort v xs)

count_ge-AllGe : (v : ℕ) (xs : List ℕ) → AllGe v xs → count_ge v xs ≡ length xs
unfolding count_ge
count_ge-AllGe v [] a = refl
count_ge-AllGe v (x ∷ xs) a = ground (arith, count_ge-AllGe v xs a.1)

-- The member at position `i` of a sorted list has at least `length - i` members not below it.
pub count_ge-sorted :
    (xs : List ℕ) (i v : ℕ) → IsSorted xs → get_elem? xs i ≡ some v → length xs ≤ i + count_ge v xs
unfolding count_ge
count_ge-sorted [] i v s e = omega arith
count_ge-sorted (x ∷ xs) zero v s e = ground (arith, count_ge-AllGe x xs s.0)
count_ge-sorted (x ∷ xs) (suc i) v s e = ground (arith, count_ge-sorted xs i v s.1 e)
