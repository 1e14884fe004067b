-- ===== src/Wal/Segment/Bytes.antt =====
-- Writing bytes into a list of bytes.
use kaelix.Base.{
  ℕ, zero, suc, ◌+◌, ◌-◌, ◌≤◌, max, ◌≡◌, refl, sym, ap, ◌∙◌, arith, List, [], ◌∷◌, ◌++◌, length,
  take, drop, length-take, length-drop, length-append,
}
use kaelix.Wal.Segment.{overwrite, zeros, slice}

pub length-zeros : (n : ℕ) → length (zeros n) ≡ n
length-zeros zero = refl
length-zeros (suc n) = ap suc (length-zeros n)

pub length-overwrite :
    (p : ℕ) (bytes content : List ℕ)
    → length (overwrite p bytes content) ≡ max (length content) (p + length bytes)
unfolding overwrite
length-overwrite p bytes content = omega (
  arith,
  length-append (take p content)
      (zeros (p - length content) ++ (bytes ++ drop (p + length bytes) content)),
  length-append (zeros (p - length content)) (bytes ++ drop (p + length bytes) content),
  length-append bytes (drop (p + length bytes) content),
  length-take p content,
  length-zeros (p - length content),
  length-drop (p + length bytes) content,
)

take-append : (n : ℕ) (xs ys : List ℕ) → n ≤ length xs → take n (xs ++ ys) ≡ take n xs
take-append zero xs ys h = refl
take-append (suc n) [] ys h = absurd (omega arith)
take-append (suc n) (x ∷ xs) ys h = ap (◌∷◌ x) (take-append n xs ys (omega arith))

drop-append : (xs ys : List ℕ) → drop (length xs) (xs ++ ys) ≡ ys
drop-append [] ys = refl
drop-append (x ∷ xs) ys = drop-append xs ys

take-append_all : (xs ys : List ℕ) → take (length xs) (xs ++ ys) ≡ xs
take-append_all [] ys = refl
take-append_all (x ∷ xs) ys = ap (◌∷◌ x) (take-append_all xs ys)

pub take-take : (m n : ℕ) (xs : List ℕ) → m ≤ n → take m (take n xs) ≡ take m xs
take-take zero n xs h = refl
take-take (suc m) zero xs h = absurd (omega arith)
take-take (suc m) (suc n) [] h = refl
take-take (suc m) (suc n) (x ∷ xs) h = ap (◌∷◌ x) (take-take m n xs (omega arith))

-- What stands before the position stays.
pub take-overwrite :
    (n p : ℕ) (bytes content : List ℕ)
    → n ≤ p
    → p ≤ length content
    → take n (overwrite p bytes content) ≡ take n content
unfolding overwrite
take-overwrite n p bytes content before inside =
    take-append n (take p content)
      (zeros (p - length content) ++ (bytes ++ drop (p + length bytes) content))
      (omega (arith, length-take p content))
    ∙ take-take n p content before

no_gap : (p : ℕ) (content : List ℕ) → p ≤ length content → zeros (p - length content) ≡ []
no_gap p content h = ap zeros {x = p - length content} {y = 0} (omega arith)

-- The bytes stand at the position.
pub slice-overwrite :
    (p : ℕ) (bytes content : List ℕ)
    → p ≤ length content
    → slice p (length bytes) (overwrite p bytes content) ≡ bytes
unfolding overwrite slice
slice-overwrite p bytes content h =
    let tail = bytes ++ drop (p + length bytes) content in
    let full : p ≡ length (take p content) = omega (arith, length-take p content) in
    rw (no_gap p content h) (
      ap (λ n. take (length bytes) (drop n (take p content ++ tail))) full
      ∙ ap (take (length bytes)) (drop-append (take p content) tail)
      ∙ take-append_all bytes (drop (p + length bytes) content))

pub within_take :
    (p n q : ℕ) (xs : List ℕ) → p + n ≤ q → take n (drop p (take q xs)) ≡ take n (drop p xs)
within_take zero n q xs h = take-take n q xs (omega arith)
within_take (suc p) n zero xs h = absurd (omega arith)
within_take (suc p) n (suc q) [] h = refl
within_take (suc p) n (suc q) (x ∷ xs) h = within_take p n q xs (omega arith)

-- A slice that ends before the position stays.
pub slice-overwrite_before :
    (q n p : ℕ) (bytes content : List ℕ)
    → q + n ≤ p
    → p ≤ length content
    → slice q n (overwrite p bytes content) ≡ slice q n content
unfolding slice
slice-overwrite_before q n p bytes content before inside =
    sym (within_take q n p (overwrite p bytes content) before)
    ∙ ap (λ ys. take n (drop q ys)) (take-overwrite p p bytes content (omega arith) inside)
    ∙ within_take q n p content before
