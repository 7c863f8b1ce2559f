-- ===== src/Common/Indexed.antt =====
-- A dictionary of a list's items by their identities, as `{identity(x): x for x in items}` builds it.
use Prim.Native.String.{String}
use mathlib.Core.Path.{◌≡◌, refl, sym, subst, ap, ◌∙◌}
use mathlib.Core.Logic.{◌⊎◌, inl, inr}
use mathlib.Core.Bool.{true, false}
use mathlib.Core.Option.{some}
use mathlib.Core.List.{List, [], ◌∷◌, map, Memᴰ}
use native.Mathlib.Omega.{arith}
use text.Mathlib.Text.{◌==◌}
use text.Mathlib.TextEquality.{eq_iff}
use local_ai_coding_agent.Common.Tests.{if◌then◌else◌, Bool-cases, some_inj, str_eq_self}
use local_ai_coding_agent.Common.Sets.{contains, is_duplicate_free}
use local_ai_coding_agent.Common.Dicts.{Dict, get}

module _ {ℓ} {V : Type ℓ} where
  -- `d[k] = v`
  unfoldable pub put : String → V → Dict V → Dict V
  put k v [] = (k, v) ∷ []
  put k v ((j, w) ∷ d) = let rest = put k v d in if k == j then (j, v) ∷ d else (j, w) ∷ rest

  pub get-put :
      (j k : String) (v : V) (d : Dict V) → get j (put k v d) ≡ (if j == k then some v else get j d)
  unfolding get put
  get-put j k v [] = refl
  get-put j k v ((i, w) ∷ d) = ground (arith, eq_iff j k, eq_iff k i, eq_iff j i, get-put j k v d)

  module _ (identity : V → String) where
    unfoldable pub indexed_from : Dict V → List V → Dict V
    indexed_from d [] = d
    indexed_from d (x ∷ xs) = indexed_from (put (identity x) x d) xs

    unfoldable pub indexed : List V → Dict V
    unfolding indexed_from
    indexed xs = indexed_from [] xs

    indexed_from-other :
        (j : String) (xs : List V) (d : Dict V)
        → contains j (map identity xs) ≡ false
        → get j (indexed_from d xs) ≡ get j d
    unfolding indexed_from contains
    indexed_from-other j [] d h = refl
    indexed_from-other j (x ∷ xs) d h =
        indexed_from-other j xs (put (identity x) x d) (ground arith)
        ∙ ground (arith, get-put j (identity x) x d)

    indexed_from-get :
        (x : V) (xs : List V) (d : Dict V)
        → is_duplicate_free (map identity xs) ≡ true
        → Memᴰ x xs
        → get (identity x) (indexed_from d xs) ≡ some x
    unfolding indexed_from is_duplicate_free
    indexed_from-get x [] d h m = elim m [ ]
    indexed_from-get x (y ∷ ys) d h (Memᴰ.head e) =
        subst (λ z. get (identity z) (indexed_from (put (identity y) y d) ys) ≡ some z) (sym e)
          (indexed_from-other (identity y) ys (put (identity y) y d) (ground arith)
            ∙ ground (arith, get-put (identity y) (identity y) y d, str_eq_self (identity y)))
    indexed_from-get x (y ∷ ys) d h (Memᴰ.tail m) =
        indexed_from-get x ys (put (identity y) y d) (ground arith) m

    -- Where no two items have one identity, each stands under its own.
    pub indexed-get :
        (x : V) (xs : List V)
        → is_duplicate_free (map identity xs) ≡ true
        → Memᴰ x xs
        → get (identity x) (indexed xs) ≡ some x
    unfolding indexed
    indexed-get x xs h m = indexed_from-get x xs [] h m

    indexed_from-Memᴰ :
        (i : String) (y : V) (xs : List V) (d : Dict V)
        → get i (indexed_from d xs) ≡ some y
        → (get i d ≡ some y) ⊎ Memᴰ y xs
    unfolding indexed_from
    indexed_from-Memᴰ i y [] d h = inl h
    indexed_from-Memᴰ i y (x ∷ xs) d h = elim (indexed_from-Memᴰ i y xs (put (identity x) x d) h) [
      | inl e ↦ elim (Bool-cases (i == identity x)) [
        | inl t ↦ inr (Memᴰ.head (some_inj (ground (arith, get-put i (identity x) x d))))
        | inr f ↦ inl (ground (arith, get-put i (identity x) x d))
      ]
      | inr m ↦ inr (Memᴰ.tail m)
    ]

    -- What the dictionary holds are items of the list.
    pub indexed-Memᴰ : (i : String) (y : V) (xs : List V) → get i (indexed xs) ≡ some y → Memᴰ y xs
    unfolding indexed get
    indexed-Memᴰ i y xs h = elim (indexed_from-Memᴰ i y xs [] h) [ inl e ↦ absurd (cc) | inr m ↦ m ]

    indexed_from-identity :
        (i : String) (y : V) (xs : List V) (d : Dict V)
        → (get i d ≡ some y → identity y ≡ i)
        → get i (indexed_from d xs) ≡ some y
        → identity y ≡ i
    unfolding indexed_from
    indexed_from-identity i y [] d k h = k h
    indexed_from-identity i y (x ∷ xs) d k h =
        indexed_from-identity i y xs (put (identity x) x d)
          (λ e. elim (Bool-cases (i == identity x)) [
            | inl t ↦
                let here : x ≡ y = some_inj (ground (arith, get-put i (identity x) x d)) in
                ap identity (sym here) ∙ sym ((eq_iff i (identity x)).0 t)
            | inr f ↦ k (ground (arith, get-put i (identity x) x d))
          ])
          h

    -- What stands under an identity has it.
    pub indexed-identity :
        (i : String) (y : V) (xs : List V) → get i (indexed xs) ≡ some y → identity y ≡ i
    unfolding indexed get
    indexed-identity i y xs h = indexed_from-identity i y xs [] (λ e. absurd (cc)) h
