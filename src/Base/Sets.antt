-- ===== src/Base/Sets.antt =====
-- A hash set of identifiers, as a list. `HashSet::insert` and `HashSet::remove`.
use Prim.Native.Nat.{ℕ}
use mathlib.Core.Path.{◌≡◌, refl, ap}
use mathlib.Core.Bool.{false, ◌||◌, ◌&&◌, not}
use mathlib.Core.List.{List, [], ◌∷◌}
use native.Mathlib.Omega.{arith}
use kaelix.Base.Tests.{◌==◌, if◌then◌else◌}
use kaelix.Base.Assoc.{Assoc, contains, lookup, remove, keys, IsMap, lookup-none}
use mathlib.Core.Option.{none}

unfoldable pub add : ℕ → List ℕ → List ℕ
unfolding contains
add k ks = if contains k ks then ks else k ∷ ks

unfoldable pub discard : ℕ → List ℕ → List ℕ
discard k [] = []
discard k (j ∷ js) = if j == k then discard k js else j ∷ discard k js

same_member : (k j : ℕ) (ks : List ℕ) → k ≡ j → contains k ks ≡ contains j ks
same_member k j ks e = ap (λ n. contains n ks) e

pub contains-add : (k j : ℕ) (ks : List ℕ) → contains j (add k ks) ≡ (k == j || contains j ks)
unfolding add contains
contains-add k j ks = ground (arith, same_member k j ks)

pub contains-discard :
    (k j : ℕ) (ks : List ℕ) → contains j (discard k ks) ≡ (not (k == j) && contains j ks)
unfolding discard contains
contains-discard k j [] = ground arith
contains-discard k j (i ∷ is) = ground (arith, contains-discard k j is)

pub lookup-remove {ℓ} :
    {V : Type ℓ} (k j : ℕ) (m : Assoc V)
    → IsMap m
    → lookup j (remove k m) ≡ (if k == j then none else lookup j m)
unfolding lookup remove
lookup-remove k j [] h = ground arith
lookup-remove k j ((i, w) ∷ m) h = ground (arith, lookup-remove k j m h.1, lookup-none i m h.0)

contains-remove {ℓ} :
    {V : Type ℓ} (k j : ℕ) (m : Assoc V)
    → contains j (keys m) ≡ false
    → contains j (keys (remove k m)) ≡ false
unfolding contains remove
contains-remove k j [] h = refl
contains-remove k j ((i, w) ∷ m) h = ground (arith, contains-remove k j m)

pub remove-IsMap {ℓ} : {V : Type ℓ} (k : ℕ) (m : Assoc V) → IsMap m → IsMap (remove k m)
unfolding remove
remove-IsMap k [] h = tt
remove-IsMap k ((i, w) ∷ m) h = ground (arith, remove-IsMap k m h.1, contains-remove k i m h.0)
