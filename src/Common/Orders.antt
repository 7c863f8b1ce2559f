-- ===== src/Common/Orders.antt =====
-- Python's order of texts (by code points), and sorting.
use Prim.Native.Nat.{ℕ}
use Prim.Native.Char.{code}
use Prim.Native.String.{String}
use mathlib.Core.Path.{◌≡◌, refl, sym, subst}
use mathlib.Core.Logic.{inl, inr}
use mathlib.Core.Bool.{Bool, true, false, ◌||◌}
use mathlib.Core.List.{List, [], ◌∷◌}
use native.Mathlib.Omega.{arith}
use local_ai_coding_agent.Common.Tests.{All, ltb, nat_eq, if◌then◌else◌, Bool-cases}

abbrev pub codes : String → List ℕ
codes String.[] = []
codes (String.◌∷◌ c s) = code c ∷ codes s

unfoldable pub codes_leb : List ℕ → List ℕ → Bool
codes_leb [] ys = true
codes_leb (x ∷ xs) [] = false
codes_leb (x ∷ xs) (y ∷ ys) =
    if ltb x y then true else if nat_eq x y then codes_leb xs ys else false

-- `s <= t` of texts
unfoldable pub str_leb : String → String → Bool
unfolding codes_leb
str_leb s t = codes_leb (codes s) (codes t)

codes_leb_total : (xs ys : List ℕ) → (codes_leb xs ys || codes_leb ys xs) ≡ true
unfolding codes_leb
codes_leb_total [] ys = refl
codes_leb_total (x ∷ xs) [] = refl
codes_leb_total (x ∷ xs) (y ∷ ys) = ground (arith, codes_leb_total xs ys)

codes_leb_trans :
    (xs ys zs : List ℕ) → codes_leb xs ys ≡ true → codes_leb ys zs ≡ true → codes_leb xs zs ≡ true
unfolding codes_leb
codes_leb_trans [] ys zs h k = refl
codes_leb_trans (x ∷ xs) [] zs h k = cc
codes_leb_trans (x ∷ xs) (y ∷ ys) [] h k = cc
codes_leb_trans (x ∷ xs) (y ∷ ys) (z ∷ zs) h k = ground (arith, codes_leb_trans xs ys zs)

pub str_leb_total : (s t : String) → (str_leb s t || str_leb t s) ≡ true
unfolding str_leb
str_leb_total s t = codes_leb_total (codes s) (codes t)

pub str_leb_trans : (s t u : String) → str_leb s t ≡ true → str_leb t u ≡ true → str_leb s u ≡ true
unfolding str_leb
str_leb_trans s t u h k = codes_leb_trans (codes s) (codes t) (codes u) h k

-- A total preorder, as a Boolean test.
pub record IsOrder {ℓ} {A : Type ℓ} (le : A → A → Bool) : Type ℓ where
  pub total : (a b : A) → (le a b || le b a) ≡ true
  pub trans : (a b c : A) → le a b ≡ true → le b c ≡ true → le a c ≡ true

pub str_leb-IsOrder : IsOrder str_leb
str_leb-IsOrder = record { total = str_leb_total; trans = str_leb_trans }

module _ {ℓ} {A : Type ℓ} (le : A → A → Bool) where
  unfoldable pub insert_sorted : A → List A → List A
  insert_sorted x [] = x ∷ []
  insert_sorted x (y ∷ ys) =
      let rest = insert_sorted x ys in if le x y then x ∷ y ∷ ys else y ∷ rest

  -- `sorted`, a stable sort.
  unfoldable pub sort : List A → List A
  unfolding insert_sorted
  sort [] = []
  sort (x ∷ xs) = insert_sorted x (sort xs)

  -- `a` is at most every item.
  abbrev pub IsLower : A → List A → Type 0
  IsLower a xs = All (λ x. le a x ≡ true) xs

  abbrev pub IsSorted : List A → Type 0
  IsSorted [] = Unit
  IsSorted (x ∷ xs) = IsLower x xs × IsSorted xs

module _ {ℓ} {A : Type ℓ} {le : A → A → Bool} (o : IsOrder le) where
  IsLower-of_le : (a b : A) (xs : List A) → le a b ≡ true → IsLower le b xs → IsLower le a xs
  IsLower-of_le a b [] h l = tt
  IsLower-of_le a b (x ∷ xs) h l = (o.trans a b x h l.0, IsLower-of_le a b xs h l.1)

  IsLower-insert :
      (a x : A) (ys : List A)
      → le a x ≡ true
      → IsLower le a ys
      → IsLower le a (insert_sorted le x ys)
  unfolding insert_sorted
  IsLower-insert a x [] h l = (h, tt)
  IsLower-insert a x (y ∷ ys) h l = elim (Bool-cases (le x y)) [
    | inl e ↦ rw e (h, l)
    | inr e ↦ rw e (l.0, IsLower-insert a x ys h l.1)
  ]

  insert-IsSorted : (x : A) (ys : List A) → IsSorted le ys → IsSorted le (insert_sorted le x ys)
  unfolding insert_sorted
  insert-IsSorted x [] s = (tt, tt)
  insert-IsSorted x (y ∷ ys) s = elim (Bool-cases (le x y)) [
    | inl e ↦ rw e ((e, IsLower-of_le x y ys e s.0), s)
    | inr e ↦
        rw e (IsLower-insert y x ys (ground (arith, o.total x y)) s.0, insert-IsSorted x ys s.1)
  ]

  pub sort-IsSorted : (xs : List A) → IsSorted le (sort le xs)
  unfolding sort
  sort-IsSorted [] = tt
  sort-IsSorted (x ∷ xs) = insert-IsSorted x (sort le xs) (sort-IsSorted xs)

module _ {ℓ κ} {A : Type ℓ} (P : A → Type κ) (le : A → A → Bool) where
  All-insert : (x : A) (ys : List A) → P x → All P ys → All P (insert_sorted le x ys)
  unfolding insert_sorted
  All-insert x [] h l = (h, tt)
  All-insert x (y ∷ ys) h l = elim (Bool-cases (le x y)) [
    | inl e ↦ rw e (h, l)
    | inr e ↦ rw e (l.0, All-insert x ys h l.1)
  ]

  pub All-sort : (xs : List A) → All P xs → All P (sort le xs)
  unfolding sort
  All-sort [] h = tt
  All-sort (x ∷ xs) h = All-insert x (sort le xs) h.0 (All-sort xs h.1)

  All-uninsert : (x : A) (ys : List A) → All P (insert_sorted le x ys) → P x × All P ys
  unfolding insert_sorted
  All-uninsert x [] h = (h.0, tt)
  All-uninsert x (y ∷ ys) h = elim (Bool-cases (le x y)) [
    | inl e ↦ rw (e, insert_sorted) at h
    | inr e ↦
        let h' : All P (y ∷ insert_sorted le x ys) = rw (e, insert_sorted) at h in
        let (px, rest) = All-uninsert x ys h'.1 in (px, (h'.0, rest))
  ]

  -- What holds of all sorted items holds of all items.
  pub All-unsort : (xs : List A) → All P (sort le xs) → All P xs
  unfolding sort
  All-unsort [] h = tt
  All-unsort (x ∷ xs) h = let (px, rest) = All-uninsert x (sort le xs) h in (px, All-unsort xs rest)

module _ {ℓ} {A : Type ℓ} {le : A → A → Bool} (o : IsOrder le) where
  -- The first of the sorted items is at most every item.
  pub head_sort-IsLower : (a : A) (rest xs : List A) → sort le xs ≡ a ∷ rest → IsLower le a xs
  head_sort-IsLower a rest xs e =
      let s = subst (IsSorted le) e (sort-IsSorted o xs) in
      let refl_a : le a a ≡ true = ground (arith, o.total a a) in
      All-unsort (λ x. le a x ≡ true) le xs
        (subst (λ ys. All (λ x. le a x ≡ true) ys) (sym e) (refl_a, s.0))
