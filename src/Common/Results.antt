-- ===== src/Common/Results.antt =====
-- Raised errors as values. A manifest, request or contract error carries the fixed words of the
-- source's message; `key_error` and `type_error` are Python's own, on a missing key and on a value
-- of a wrong type.
use Prim.Native.String.{String}
use mathlib.Core.Path.{◌≡◌, refl}
use mathlib.Core.Bool.{Bool, true, false}
use mathlib.Core.Option.{Option, none, some}
use mathlib.Core.List.{List, [], ◌∷◌}
use local_ai_coding_agent.Common.Tests.{if◌then◌else◌}

pub data Error : Type 0 where
  manifest_error request_error contract_error store_error : String → Error
  key_error type_error : Error

-- What a Python call gives back: `err` is an exception that nothing has caught.
pub data Result {ν} (T : Type ν) : Type ν where
  err : Error → Result T
  ok : T → Result T

infixl 5 ◌>>◌ ◌>>=◌
-- The next statement runs on the value; an exception skips it.
abbrev pub ◌>>=◌ {μ ν} : {T : Type μ} {U : Type ν} → Result T → (T → Result U) → Result U
err raised >>= next = err raised
ok value >>= next = next value

-- A statement with no value, and the ones after it.
abbrev pub ◌>>◌ {ν} : {U : Type ν} → Result (Unit {0}) → Result U → Result U
first >> rest = first >>= λ (_ : Unit {0}). rest

-- `if not holds: raise raised`
abbrev pub guard : Bool → Error → Result (Unit {0})
guard false raised = err raised
guard true raised = ok tt

-- `d[k]`, where `o` is the entry at `k`.
abbrev pub item {ℓ} : {A : Type ℓ} → Option A → Result A
item none = err key_error
item (some a) = ok a

abbrev pub required {ℓ} : {A : Type ℓ} → Option A → Error → Result A
required none e = err e
required (some a) e = ok a

-- A block that returned has run its first statement and, on the value of that, the rest.
pub >>=-eq-ok {μ ν} :
    {T : Type μ} {U : Type ν} (first : Result T) (next : T → Result U) {out : U}
    → (first >>= next) ≡ ok out
    → (value : T) × (first ≡ ok value) × (next value ≡ ok out)
>>=-eq-ok (err raised) next returned = cc
>>=-eq-ok (ok value) next returned = (value, refl, returned)

-- The same inversion, with the rest of a proof to go on with.
pub bind_inv {ℓ κ ν} :
    {A : Type ℓ} {B : Type κ} {C : Type ν} (m : Result A) (f : A → Result B) {b : B}
    → (m >>= f) ≡ ok b
    → ((a : A) → m ≡ ok a → f a ≡ ok b → C)
    → C
bind_inv (ok a) f h k = k a refl h
bind_inv (err e) f h k = absurd (cc)

-- What an entry that was read is.
pub item-eq-ok {ℓ} : {A : Type ℓ} (o : Option A) {a : A} → item o ≡ ok a → o ≡ some a
item-eq-ok none h = cc
item-eq-ok (some x) h = cc

pub ok_inj {ℓ} : {A : Type ℓ} {a b : A} → ok a ≡ ok b → a ≡ b
ok_inj h = cc

module _ {ℓ κ} {A : Type ℓ} {B : Type κ} where
  abbrev pub map_result : (A → Result B) → List A → Result (List B)
  map_result f [] = ok []
  map_result f (x ∷ xs) = do y ← f x; ys ← map_result f xs; ok (y ∷ ys)

  pub map_result-cons :
      (f : A → Result B) (x : A) (xs : List A) {ys : List B}
      → map_result f (x ∷ xs) ≡ ok ys
      → (y : B) × (zs : List B) × (f x ≡ ok y) × (map_result f xs ≡ ok zs) × (ys ≡ y ∷ zs)
  map_result-cons f x xs h =
      let (y, ey, h1) = >>=-eq-ok (f x) _ h in
      let (zs, ez, h2) = >>=-eq-ok (map_result f xs) _ h1 in (y, zs, ey, ez, cc)

module _ {ℓ} {B : Type ℓ} where
  pub >>-eq-ok :
      (m : Result (Unit {0})) (k : Result B) {b : B} → (m >> k) ≡ ok b → (m ≡ ok tt) × (k ≡ ok b)
  >>-eq-ok (ok tt) k h = (refl, h)
  >>-eq-ok (err e) k h = cc

  pub guard-eq-ok :
      (t : Bool) (e : Error) (k : Result B) {b : B}
      → (guard t e >> k) ≡ ok b
      → (t ≡ true) × (k ≡ ok b)
  guard-eq-ok true e k h = (refl, h)
  guard-eq-ok false e k h = cc

module _ {ℓ} {A : Type ℓ} where
  -- A `for` loop whose body may raise.
  abbrev pub for_each : (A → Result (Unit {0})) → List A → Result (Unit {0})
  for_each f [] = ok tt
  for_each f (x ∷ xs) = f x >> for_each f xs

-- A returned value comes from one branch of a test.
pub if_inv {ℓ κ} :
    {A : Type ℓ} {C : Type κ} (t : Bool) (x y : Result A) {b : A}
    → (if t then x else y) ≡ ok b
    → (t ≡ true → x ≡ ok b → C)
    → (t ≡ false → y ≡ ok b → C)
    → C
if_inv true x y h f g = f refl h
if_inv false x y h f g = g refl h

-- The computation returns.
abbrev pub Succeeds {ℓ} : {A : Type ℓ} → Result A → Type ℓ
Succeeds {A} m = (a : A) × (m ≡ ok a)

pub Succeeds-bind {ℓ κ} :
    {A : Type ℓ} {B : Type κ} (m : Result A) (f : A → Result B)
    → Succeeds m
    → ((a : A) → m ≡ ok a → Succeeds (f a))
    → Succeeds (m >>= f)
Succeeds-bind (ok a) f s h = h a refl
Succeeds-bind (err e) f s h = absurd (cc (s.1))

-- A bind whose rest returns whatever it is given.
pub Succeeds-then {ℓ κ} :
    {A : Type ℓ} {B : Type κ} (m : Result A) (f : A → Result B)
    → Succeeds m
    → ((a : A) → Succeeds (f a))
    → Succeeds (m >>= f)
Succeeds-then m f s h = Succeeds-bind m f s (λ a _. h a)

pub Succeeds-if {ℓ} :
    {A : Type ℓ} (b : Bool) (x y : Result A)
    → (b ≡ true → Succeeds x)
    → (b ≡ false → Succeeds y)
    → Succeeds (if b then x else y)
Succeeds-if true x y h k = h refl
Succeeds-if false x y h k = k refl
