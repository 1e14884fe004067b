-- ===== src/Base/Assoc.antt =====
-- A hash map keyed by node identifiers, as an association list with one entry for each key.
use Prim.Native.Nat.{ℕ}
use mathlib.Core.Path.{◌≡◌, refl}
use mathlib.Core.Bool.{Bool, false, ◌||◌}
use mathlib.Core.Option.{Option, none, some}
use mathlib.Core.List.{List, [], ◌∷◌, map}
use native.Mathlib.Omega.{arith}
use kaelix.Base.Tests.{◌==◌, if◌then◌else◌}

abbrev pub Assoc {ℓ} : Type ℓ → Type ℓ
Assoc V = List (ℕ × V)

unfoldable pub contains : ℕ → List ℕ → Bool
contains k [] = false
contains k (j ∷ js) = j == k || contains k js

module _ {ℓ} {V : Type ℓ} where
  -- `HashMap::get`.
  unfoldable pub lookup : ℕ → Assoc V → Option V
  lookup key [] = none
  lookup key ((stored, value) ∷ others) = if stored == key then some value else lookup key others

  -- `HashMap::insert`.
  unfoldable pub insert : ℕ → V → Assoc V → Assoc V
  insert key value [] = (key, value) ∷ []
  insert key value ((stored, old) ∷ others) =
      if stored == key then (key, value) ∷ others else (stored, old) ∷ insert key value others

  -- `HashMap::remove`.
  unfoldable pub remove : ℕ → Assoc V → Assoc V
  remove k [] = []
  remove k ((j, w) ∷ m) = if j == k then m else (j, w) ∷ remove k m

  -- `HashMap::values` and `HashMap::keys`, in the order of the list.
  abbrev pub values : Assoc V → List V
  values = map (λ e. e.1)

  abbrev pub keys : Assoc V → List ℕ
  keys = map (λ e. e.0)

  pub lookup-insert :
      (key asked : ℕ) (value : V) (entries : Assoc V)
      → lookup asked (insert key value entries)
        ≡ (if key == asked then some value else lookup asked entries)
  unfolding lookup insert
  lookup-insert key asked value [] = refl
  lookup-insert key asked value ((stored, old) ∷ others) =
      ground (arith, lookup-insert key asked value others)

  pub lookup-insert_self : (k : ℕ) (v : V) (m : Assoc V) → lookup k (insert k v m) ≡ some v
  lookup-insert_self k v m = ground (arith, lookup-insert k k v m)

  -- Each key stands once.
  abbrev pub IsMap : Assoc V → Type 0
  IsMap [] = Unit {0}
  IsMap ((k, v) ∷ m) = (contains k (keys m) ≡ false) × IsMap m

  pub lookup-none : (k : ℕ) (m : Assoc V) → contains k (keys m) ≡ false → lookup k m ≡ none
  unfolding lookup contains
  lookup-none k [] h = refl
  lookup-none k ((j, v) ∷ m) h = ground (arith, lookup-none k m)

  contains-insert :
      (k j : ℕ) (v : V) (m : Assoc V)
      → contains j (keys (insert k v m)) ≡ (k == j || contains j (keys m))
  unfolding insert contains
  contains-insert k j v [] = refl
  contains-insert k j v ((i, w) ∷ m) = ground (arith, contains-insert k j v m)

  pub insert-IsMap : (k : ℕ) (v : V) (m : Assoc V) → IsMap m → IsMap (insert k v m)
  unfolding insert contains
  insert-IsMap k v [] h = (refl, tt)
  insert-IsMap k v ((i, w) ∷ m) h = ground (arith, insert-IsMap k v m h.1, contains-insert k i v m)
