-- ===== src/Common/Sets.antt =====
-- Sets of texts, as lists that are asked for membership only.
use Prim.Native.String.{String}
use mathlib.Core.Path.{◌≡◌, refl}
use mathlib.Core.Bool.{Bool, true, false, not, ◌&&◌, ◌||◌}
use mathlib.Core.List.{List, [], ◌∷◌, ◌++◌}
use native.Mathlib.Omega.{arith}
use text.Mathlib.Text.{◌==◌}
use text.Mathlib.TextEquality.{eq_iff}
use local_ai_coding_agent.Common.Tests.{str_eq_self, all, keep, is_empty}

-- `s in xs`
unfoldable pub contains : String → List String → Bool
contains s [] = false
contains s (x ∷ xs) = s == x || contains s xs

-- `len(xs) == len(set(xs))`
unfoldable pub is_duplicate_free : List String → Bool
is_duplicate_free [] = true
is_duplicate_free (x ∷ xs) = not (contains x xs) && is_duplicate_free xs

-- `set(xs) - set(ys)`
unfoldable pub difference : List String → List String → List String
difference xs ys = keep (λ x. not (contains x ys)) xs

-- `set(xs) <= set(ys)`
unfoldable pub is_subset : List String → List String → Bool
is_subset xs ys = all (λ x. contains x ys) xs

-- `set(xs) == set(ys)`
unfoldable pub set_eq : List String → List String → Bool
set_eq xs ys = is_subset xs ys && is_subset ys xs

pub contains-append :
    (s : String) (xs ys : List String) → contains s (xs ++ ys) ≡ (contains s xs || contains s ys)
unfolding contains
contains-append s [] ys = refl
contains-append s (x ∷ xs) ys = ground (arith, contains-append s xs ys)

pub all-contains :
    (p : String → Bool) (s : String) (xs : List String)
    → all p xs ≡ true
    → contains s xs ≡ true
    → p s ≡ true
unfolding contains
all-contains p s [] h m = cc
all-contains p s (x ∷ xs) h m = ground (arith, eq_iff s x, all-contains p s xs)

pub contains-is_subset :
    (s : String) (xs ys : List String)
    → is_subset xs ys ≡ true
    → contains s xs ≡ true
    → contains s ys ≡ true
unfolding is_subset
contains-is_subset s xs ys h m = all-contains (λ x. contains x ys) s xs h m

-- A difference is empty exactly if it takes a subset away.
pub is_empty-difference : (xs ys : List String) → is_empty (difference xs ys) ≡ is_subset xs ys
unfolding difference is_subset
is_empty-difference [] ys = refl
is_empty-difference (x ∷ xs) ys =
    unfold difference is_subset in ground (arith, is_empty-difference xs ys)

pub contains-difference :
    (s : String) (xs ys : List String)
    → contains s (difference xs ys) ≡ (contains s xs && not (contains s ys))
unfolding contains difference
contains-difference s [] ys = refl
contains-difference s (x ∷ xs) ys = ground (arith, contains-difference s xs ys, eq_iff s x)

pub is_subset-append :
    (xs ys zs : List String)
    → is_subset xs zs ≡ true
    → is_subset ys zs ≡ true
    → is_subset (xs ++ ys) zs ≡ true
unfolding is_subset
is_subset-append [] ys zs h k = k
is_subset-append (x ∷ xs) ys zs h k = ground (arith, is_subset-append xs ys zs)

-- A list whose items all stand in `ys` is a subset of it.
pub is_subset_of :
    (xs ys : List String)
    → ((s : String) → contains s xs ≡ true → contains s ys ≡ true)
    → is_subset xs ys ≡ true
unfolding is_subset contains
is_subset_of [] ys h = refl
is_subset_of (x ∷ xs) ys h =
    let here = h x (rw (str_eq_self x)) in
    let rest = is_subset_of xs ys (λ s c. h s (ground (arith, c))) in ground arith

-- `xs == ys` of sequences.
unfoldable pub texts_eq : List String → List String → Bool
texts_eq [] [] = true
texts_eq [] (y ∷ ys) = false
texts_eq (x ∷ xs) [] = false
texts_eq (x ∷ xs) (y ∷ ys) = let rest = texts_eq xs ys in x == y && rest

pub texts_eq_sound : (xs ys : List String) → texts_eq xs ys ≡ true → xs ≡ ys
unfolding texts_eq
texts_eq_sound [] [] h = refl
texts_eq_sound [] (y ∷ ys) h = cc
texts_eq_sound (x ∷ xs) [] h = cc
texts_eq_sound (x ∷ xs) (y ∷ ys) h = ground (arith, eq_iff x y, texts_eq_sound xs ys)
