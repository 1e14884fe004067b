-- ===== src/Clock/Version.antt =====
-- `VersionVector`.
pub mod Agreement
use kaelix.Base.{
  ℕ, ◌+◌, u64, ltb, ◌==◌, not, if◌then◌else◌, Bool, true, false, List, [], ◌∷◌, length,
}
use kaelix.Base.Assoc.{Assoc, insert, values}
use kaelix.Clock.Causality.{
  CausalityRelation, before, after, equal, concurrent, get, merge_entries, all_nodes,
}

pub record VersionVector : Type 0 where
  pub versions : Assoc ℕ

unfoldable pub new : VersionVector
new = record { versions = [] }

unfoldable pub with_versions : Assoc ℕ → VersionVector
with_versions versions = record { versions = versions }

unfoldable pub set_version : ℕ → ℕ → VersionVector → VersionVector
set_version node_id version v = record { versions = insert node_id version v.versions }

unfoldable pub get_version : VersionVector → ℕ → ℕ
get_version v node_id = get v.versions node_id

unfoldable pub increment : ℕ → VersionVector → VersionVector × ℕ
increment node_id v =
    let version = u64 (get v.versions node_id + 1) in
    (record { versions = insert node_id version v.versions }, version)

-- The loop over the other vector's entries, which stops at the first that is ahead.
unfoldable pub descends : Assoc ℕ → Assoc ℕ → Bool
descends m [] = true
descends m ((n, t) ∷ o) = if ltb (get m n) t then false else descends m o

unfoldable pub is_descendant_of : VersionVector → VersionVector → Bool
unfolding descends
is_descendant_of v other = descends v.versions other.versions

unfoldable pub is_ancestor_of : VersionVector → VersionVector → Bool
unfolding is_descendant_of
is_ancestor_of v other = is_descendant_of other v

diff_nodes : Assoc ℕ → Assoc ℕ → List ℕ → List ℕ
diff_nodes a b [] = []
diff_nodes a b (n ∷ ns) =
    if not (get a n == get b n) then n ∷ diff_nodes a b ns else diff_nodes a b ns

unfoldable pub diff : VersionVector → VersionVector → List ℕ
unfolding diff_nodes
diff v other = diff_nodes v.versions other.versions (all_nodes v.versions other.versions)

unfoldable pub merge : VersionVector → VersionVector → VersionVector
merge v other = record { versions = merge_entries v.versions other.versions }

abbrev is_nil : Assoc ℕ → Bool
is_nil [] = true
is_nil (e ∷ es) = false

unfoldable pub is_empty : VersionVector → Bool
is_empty v = is_nil v.versions

unfoldable pub len : VersionVector → ℕ
len v = length v.versions

abbrev relation : Bool → Bool → CausalityRelation
relation true true = equal
relation true false = after
relation false true = before
relation false false = concurrent

unfoldable pub compare : VersionVector → VersionVector → CausalityRelation
unfolding is_descendant_of
compare v other = relation (is_descendant_of v other) (is_descendant_of other v)

sum : List ℕ → ℕ
sum [] = 0
sum (x ∷ xs) = u64 (x + sum xs)

unfoldable pub total_versions : VersionVector → ℕ
unfolding sum
total_versions v = sum (values v.versions)
