-- ===== src/Common/Members.antt =====
-- Membership of a list, as a proof that says where.
use Prim.Native.Nat.{◌+◌}
use mathlib.Core.Path.{◌≡◌, refl, sym, subst, ap}
use native.Mathlib.Omega.{arith}
use mathlib.Core.Logic.{inl, inr}
use mathlib.Core.Bool.{Bool, true}
use mathlib.Core.List.{List, [], ◌∷◌, ◌++◌, Memᴰ}
use local_ai_coding_agent.Common.Tests.{All, length, keep, Bool-cases}

module _ {ℓ} {A : Type ℓ} where
  pub All-Memᴰ {κ} : (P : A → Type κ) (a : A) (xs : List A) → All P xs → Memᴰ a xs → P a
  All-Memᴰ P a [] h m = elim m [ ]
  All-Memᴰ P a (x ∷ xs) h (Memᴰ.head e) = subst P (sym e) h.0
  All-Memᴰ P a (x ∷ xs) h (Memᴰ.tail m) = All-Memᴰ P a xs h.1 m

  pub All-map {κ ν} :
      (P : A → Type κ) (Q : A → Type ν) (xs : List A) → ((a : A) → P a → Q a) → All P xs → All Q xs
  All-map P Q [] f h = tt
  All-map P Q (x ∷ xs) f h = (f x h.0, All-map P Q xs f h.1)

  -- Every item is a member.
  pub All-self : (xs : List A) → All (λ x. Memᴰ x xs) xs
  All-self [] = tt
  All-self (x ∷ xs) = (
    Memᴰ.head refl,
    All-map (λ y. Memᴰ y xs) (λ y. Memᴰ y (x ∷ xs)) xs (λ a m. Memᴰ.tail m) (All-self xs),
  )

  pub All-of {κ} : (P : A → Type κ) (xs : List A) → ((a : A) → Memᴰ a xs → P a) → All P xs
  All-of P xs f = All-map (λ x. Memᴰ x xs) P xs f (All-self xs)

  -- An item that a filter's test passes is kept.
  pub keep-Memᴰ : (p : A → Bool) (a : A) (xs : List A) → Memᴰ a xs → p a ≡ true → Memᴰ a (keep p xs)
  keep-Memᴰ p a [] m t = elim m [ ]
  keep-Memᴰ p a (x ∷ xs) (Memᴰ.head e) t = rw (subst (λ y. p y ≡ true) e t) (Memᴰ.head e)
  keep-Memᴰ p a (x ∷ xs) (Memᴰ.tail m) t = elim (Bool-cases (p x)) [
    | inl e ↦ rw e (Memᴰ.tail (keep-Memᴰ p a xs m t))
    | inr e ↦ rw e (keep-Memᴰ p a xs m t)
  ]

pub append_none {ℓ} : {A : Type ℓ} (xs : List A) → xs ++ [] ≡ xs
append_none [] = refl
append_none (x ∷ xs) = ap (λ l. x ∷ l) (append_none xs)

pub append_assoc {ℓ} : {A : Type ℓ} (xs ys zs : List A) → (xs ++ ys) ++ zs ≡ xs ++ (ys ++ zs)
append_assoc [] ys zs = refl
append_assoc (x ∷ xs) ys zs = ap (λ l. x ∷ l) (append_assoc xs ys zs)

pub append_one_more {ℓ} :
    {A : Type ℓ} (xs : List A) (x y : A) → (xs ++ x ∷ []) ++ y ∷ [] ≡ xs ++ x ∷ y ∷ []
append_one_more [] x y = refl
append_one_more (z ∷ xs) x y = ap (λ l. z ∷ l) (append_one_more xs x y)

pub length-snoc {ℓ} : {A : Type ℓ} (xs : List A) (x : A) → length (xs ++ x ∷ []) ≡ length xs + 1
length-snoc [] x = refl
length-snoc (y ∷ xs) x = ground (arith, length-snoc xs x)

pub All-append {ℓ κ} :
    {A : Type ℓ} (P : A → Type κ) (xs ys : List A) → All P xs → All P ys → All P (xs ++ ys)
All-append P [] ys a b = b
All-append P (x ∷ xs) ys a b = (a.0, All-append P xs ys a.1 b)

pub All-last {ℓ κ} :
    {A : Type ℓ} (P : A → Type κ) (xs : List A) (x : A) → All P (xs ++ x ∷ []) → P x
All-last P [] x a = a.0
All-last P (y ∷ xs) x a = All-last P xs x a.1
