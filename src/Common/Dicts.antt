-- ===== src/Common/Dicts.antt =====
-- Python's `dict` with text keys, in order of insertion.
use Prim.Native.String.{String}
use mathlib.Core.Path.{◌≡◌, subst, sym, refl}
use mathlib.Core.Logic.{inl, inr}
use mathlib.Core.Bool.{Bool, true, not}
use mathlib.Core.Option.{Option, none, some}
use mathlib.Core.List.{List, [], ◌∷◌, ◌++◌}
use native.Mathlib.Omega.{arith}
use text.Mathlib.Text.{◌==◌}
use text.Mathlib.TextEquality.{eq_iff}
use local_ai_coding_agent.Common.Tests.{is_none, str_eq_self, if◌then◌else◌, Bool-cases, some_inj}
use local_ai_coding_agent.Common.Results.{
  Result, ok, Error, item, required, Succeeds, map_result, for_each, >>-eq-ok,
}
use local_ai_coding_agent.Common.Sets.{contains}

abbrev pub Dict {ℓ} : Type ℓ → Type ℓ
Dict V = List (String × V)

module _ {ℓ} {V : Type ℓ} where
  -- `d.get(k)`
  unfoldable pub get : String → Dict V → Option V
  get k [] = none
  get k ((j, v) ∷ d) = if k == j then some v else get k d

  unfoldable pub keys : Dict V → List String
  keys [] = []
  keys ((j, v) ∷ d) = j ∷ keys d

  unfoldable pub values : Dict V → List V
  values [] = []
  values ((j, v) ∷ d) = v ∷ values d

  -- `k in d`
  unfoldable pub has : String → Dict V → Bool
  unfolding contains keys
  has k d = contains k (keys d)

  pub has-get : (k : String) (d : Dict V) → has k d ≡ true → (v : V) × (get k d ≡ some v)
  unfolding has get
  has-get k [] h = cc
  has-get k ((j, v) ∷ d) h = elim (Bool-cases (k == j)) [
    | inl e ↦ (v, ground arith)
    | inr e ↦ let (w, q) = has-get k d (ground arith) in (w, ground arith)
  ]

  pub get-has : (k : String) (d : Dict V) {v : V} → get k d ≡ some v → has k d ≡ true
  unfolding has get
  get-has k [] h = cc
  get-has k ((j, w) ∷ d) h = elim (Bool-cases (k == j)) [
    | inl e ↦ rw e
    | inr e ↦ rw e (get-has k d (rw (e, get) at h))
  ]

  pub has-eq : (k : String) (d : Dict V) → has k d ≡ not (is_none (get k d))
  unfolding has get
  has-eq k [] = refl
  has-eq k ((j, w) ∷ d) = elim (Bool-cases (k == j)) [ inl e ↦ rw e | inr e ↦ rw e (has-eq k d) ]

  -- What a loop over the values has checked holds of each entry.
  pub for_each-get :
      (f : V → Result (Unit {0})) (k : String) (d : Dict V) {v : V}
      → for_each f (values d) ≡ ok tt
      → get k d ≡ some v
      → f v ≡ ok tt
  unfolding get values
  for_each-get f k [] h e = cc
  for_each-get f k ((j, w) ∷ d) h e =
      let (first, rest) = >>-eq-ok (f w) (for_each f (values d)) h in
      elim (Bool-cases (k == j)) [
        | inl q ↦ subst (λ x. f x ≡ ok tt) (some_inj (rw (q, get) at e)) first
        | inr q ↦ for_each-get f k d rest (rw (q, get) at e)
      ]

  pub Succeeds-item : (k : String) (d : Dict V) → has k d ≡ true → Succeeds (item (get k d))
  Succeeds-item k d h = let (v, e) = has-get k d h in (v, rw e)

  pub required-has :
      (k : String) (d : Dict V) (e : Error) {v : V}
      → required (get k d) e ≡ ok v
      → (has k d ≡ true) × (get k d ≡ some v)
  required-has k d e h = go (get k d) refl h
    where
      go :
          (o : Option V)
          → get k d ≡ o
          → {v : V} → required o e ≡ ok v
          → (has k d ≡ true) × (get k d ≡ some v)
      go none q h = cc
      go (some w) q h = (get-has k d q, cc)

module _ {ℓ} {B : Type ℓ} where
  pub Succeeds-map_result :
      (f : String → Result B) (xs : List String)
      → ((s : String) → contains s xs ≡ true → Succeeds (f s))
      → Succeeds (map_result f xs)
  unfolding contains
  Succeeds-map_result f [] h = ([], refl)
  Succeeds-map_result f (x ∷ xs) h =
      let (y, e) = h x (rw (str_eq_self x)) in
      let (ys, es) = Succeeds-map_result f xs (λ s c. h s (ground (arith, c))) in
      (y ∷ ys, rw (e, es))

pub for_each-contains :
    (f : String → Result (Unit {0})) (s : String) (xs : List String)
    → for_each f xs ≡ ok tt
    → contains s xs ≡ true
    → f s ≡ ok tt
unfolding contains
for_each-contains f s [] h c = cc
for_each-contains f s (x ∷ xs) h c =
    let (first, rest) = >>-eq-ok (f x) (for_each f xs) h in
    elim (Bool-cases (s == x)) [
      | inl e ↦ subst (λ y. f y ≡ ok tt) (sym ((eq_iff s x).0 e)) first
      | inr e ↦ for_each-contains f s xs rest (rw e at c)
    ]

module _ {ℓ κ} {V : Type ℓ} (P : String → V → Type κ) where
  -- Each entry has the property.
  abbrev pub AllEntries : Dict V → Type κ
  AllEntries [] = Unit
  AllEntries ((k, v) ∷ d) = P k v × AllEntries d

  pub AllEntries-get : (k : String) (d : Dict V) {v : V} → AllEntries d → get k d ≡ some v → P k v
  unfolding get
  AllEntries-get k [] h e = absurd (cc)
  AllEntries-get k ((j, w) ∷ d) {v} h e = elim (Bool-cases (k == j)) [
    | inl t ↦
        let same : w ≡ v = some_inj (rw (t, get) at e) in
        subst (P k) same (subst (λ i. P i w) (sym ((eq_iff k j).0 t)) h.0)
    | inr f ↦ AllEntries-get k d h.1 (rw (f, get) at e)
  ]

  pub AllEntries-append :
      (d : Dict V) (k : String) (v : V) → AllEntries d → P k v → AllEntries (d ++ (k, v) ∷ [])
  AllEntries-append [] k v h p = (p, tt)
  AllEntries-append (e ∷ d) k v h p = (h.0, AllEntries-append d k v h.1 p)
