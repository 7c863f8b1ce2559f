-- ===== src/Common/SortedSets.antt =====
-- `sorted(set(...))` of texts.
use Prim.Native.String.{String}
use mathlib.Core.Path.{sym, ◌≡◌, refl, ◌∙◌}
use mathlib.Core.Bool.{true, false}
use mathlib.Core.List.{List, [], ◌∷◌}
use native.Mathlib.Omega.{arith}
use text.Mathlib.TextEquality.{eq_iff}
use local_ai_coding_agent.Common.Tests.{if◌then◌else◌, is_empty}
use local_ai_coding_agent.Common.Sets.{contains, is_subset, is_subset_of, contains-is_subset}
use local_ai_coding_agent.Common.Orders.{
  str_leb, insert_sorted, sort, sort-IsSorted, IsSorted, str_leb-IsOrder,
}

-- `set(xs)`, the last of equal items kept.
unfoldable pub distinct : List String → List String
distinct [] = []
distinct (x ∷ xs) = let rest = distinct xs in if contains x xs then rest else x ∷ rest

unfoldable pub sorted_set : List String → List String
unfolding distinct sort
sorted_set xs = sort str_leb (distinct xs)

contains-insert :
    (s x : String) (ys : List String)
    → contains s (insert_sorted str_leb x ys) ≡ contains s (x ∷ ys)
unfolding contains insert_sorted
contains-insert s x [] = refl
contains-insert s x (y ∷ ys) = ground (arith, contains-insert s x ys)

pub contains-sort : (s : String) (xs : List String) → contains s (sort str_leb xs) ≡ contains s xs
unfolding sort contains
contains-sort s [] = refl
contains-sort s (x ∷ xs) = ground (arith, contains-insert s x (sort str_leb xs), contains-sort s xs)

contains-distinct : (s : String) (xs : List String) → contains s (distinct xs) ≡ contains s xs
unfolding distinct contains
contains-distinct s [] = refl
contains-distinct s (x ∷ xs) = ground (arith, contains-distinct s xs, eq_iff s x)

pub contains-sorted_set :
    (s : String) (xs : List String) → contains s (sorted_set xs) ≡ contains s xs
unfolding sorted_set
contains-sorted_set s xs = contains-sort s (distinct xs) ∙ contains-distinct s xs

pub sorted_set-IsSorted : (xs : List String) → IsSorted str_leb (sorted_set xs)
unfolding sorted_set
sorted_set-IsSorted xs = sort-IsSorted str_leb-IsOrder (distinct xs)

is_empty-insert : (x : String) (ys : List String) → is_empty (insert_sorted str_leb x ys) ≡ false
unfolding insert_sorted
is_empty-insert x [] = refl
is_empty-insert x (y ∷ ys) = ground arith

is_empty-sort : (xs : List String) → is_empty (sort str_leb xs) ≡ is_empty xs
unfolding sort
is_empty-sort [] = refl
is_empty-sort (x ∷ xs) = is_empty-insert x (sort str_leb xs)

is_empty-distinct : (xs : List String) → is_empty (distinct xs) ≡ is_empty xs
unfolding distinct
is_empty-distinct [] = refl
is_empty-distinct (x ∷ []) = unfold contains in refl
is_empty-distinct (x ∷ y ∷ ys) = ground (arith, is_empty-distinct (y ∷ ys))

pub is_empty-sorted_set : (xs : List String) → is_empty (sorted_set xs) ≡ is_empty xs
unfolding sorted_set
is_empty-sorted_set xs = is_empty-sort (distinct xs) ∙ is_empty-distinct xs

pub is_subset-sorted_set :
    (xs ys : List String) → is_subset xs ys ≡ true → is_subset (sorted_set xs) ys ≡ true
is_subset-sorted_set xs ys h =
    is_subset_of (sorted_set xs) ys
      (λ s c. contains-is_subset s xs ys h (sym (contains-sorted_set s xs) ∙ c))
