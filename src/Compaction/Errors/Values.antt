-- ===== src/Compaction/Errors/Values.antt =====
-- The validators of values in src/agent_continuity/compaction.py raise nothing but `TaskStateError`.
use local_ai_coding_agent.Common.{
  ℕ, ◌+◌, Bool, true, false, not, ◌&&◌, ◌||◌, String, List, [], ◌∷◌, map, Option, none, some,
  Result, ok, err, Error, ok_inj, contract_error, guard, guard-eq-ok, item, ◌>>=◌, ◌>>◌, ◌≡◌, refl,
  sym, subst, ap, ◌∙◌, arith, Dict, Json, str, int, pos, negsuc, arr, obj, null, bool, float,
  fields_dict, items_list, get, keys, has, contains, difference, contains-difference,
  contains-sorted_set, sorted_set, is_empty, leb, length, codes, is_duplicate_free, Succeeds,
  Succeeds-item, ◌==◌,
}
use local_ai_coding_agent.Routing.Fields.{is_digest}
use local_ai_coding_agent.Compaction.Values.{
  state_error, state_object, state_text, is_trimmed, max_text, max_items, is_stable_id,
  state_identifier, state_sha256, state_list, id_list, state_items, parse_each, field_path,
  item_path,
}
use local_ai_coding_agent.Compaction.Times.{utc, read_time, check_time, is_calendar_time}
use local_ai_coding_agent.Compaction.Items.{read, read_word, read_proof, positive}

abbrev pub is_task_error : Error → Bool
is_task_error (contract_error m) = true
is_task_error _ = false

-- An error is a `TaskStateError`.
abbrev pub IsTame {ℓ} : {A : Type ℓ} → Result A → Type 0
IsTame (ok a) = Unit
IsTame (err e) = is_task_error e ≡ true

pub IsTame-bind {ℓ κ} :
    {A : Type ℓ} {B : Type κ} (m : Result A) (f : A → Result B)
    → IsTame m
    → ((a : A) → m ≡ ok a → IsTame (f a))
    → IsTame (m >>= f)
IsTame-bind (ok a) f t k = k a refl
IsTame-bind (err e) f t k = t

pub IsTame-guard : (t : Bool) (parts : List String) → IsTame (guard t (state_error parts))
unfolding state_error
IsTame-guard true parts = tt
IsTame-guard false parts = refl

-- A guard, and what comes behind it.
pub IsTame-check {ℓ} :
    {A : Type ℓ} (t : Bool) (parts : List String) (k : Result A)
    → IsTame k
    → IsTame (guard t (state_error parts) >> k)
IsTame-check t parts k h =
    IsTame-bind (guard t (state_error parts)) (λ _. k) (IsTame-guard t parts) (λ _ _. h)

pub state_object-IsTame :
    (v : Json) (path : String) (names : List String) → IsTame (state_object v path names)
unfolding state_object
state_object-IsTame (obj fs) path names =
    IsTame-check (is_empty (sorted_set (difference names (keys (fields_dict fs))))) _ _ (
      IsTame-check (is_empty (sorted_set (difference (keys (fields_dict fs)) names))) _
        (ok (fields_dict fs)) tt)
state_object-IsTame null path names = unfold state_error in refl
state_object-IsTame (bool b) path names = unfold state_error in refl
state_object-IsTame (int n) path names = unfold state_error in refl
state_object-IsTame (float s) path names = unfold state_error in refl
state_object-IsTame (str s) path names = unfold state_error in refl
state_object-IsTame (arr xs) path names = unfold state_error in refl

-- A field that an object must have can be read.
missing-contains :
    (n : String) (names known : List String)
    → is_empty (sorted_set (difference names known)) ≡ true
    → contains n names ≡ true
    → contains n known ≡ true
missing-contains n names known h c = go (sorted_set (difference names known)) refl h
  where
    go :
        (xs : List String)
        → sorted_set (difference names known) ≡ xs
        → is_empty xs ≡ true
        → contains n known ≡ true
    go (x ∷ xs) e h = absurd (cc)
    go [] e h =
        let nothing : contains n (difference names known) ≡ false =
          sym (contains-sorted_set n (difference names known))
          ∙ ap (contains n) e
          ∙ unfold contains in refl in
        ground (arith, contains-difference n names known)

pub state_object-item :
    (v : Json) (path : String) (names : List String) {raw : Dict Json} (n : String)
    → state_object v path names ≡ ok raw
    → contains n names ≡ true
    → Succeeds (item (get n raw))
unfolding state_object
state_object-item (obj fs) path names n h c =
    let (t, h1) =
      guard-eq-ok (is_empty (sorted_set (difference names (keys (fields_dict fs))))) _ _ h in
    let (_, h2) =
      guard-eq-ok (is_empty (sorted_set (difference (keys (fields_dict fs)) names))) _
        (ok (fields_dict fs)) h1 in
    subst (λ d. Succeeds (item (get n d))) (ok_inj h2)
      (Succeeds-item n (fields_dict fs)
        (unfold has in missing-contains n names (keys (fields_dict fs)) t c))
state_object-item null path names n h c = absurd (cc)
state_object-item (bool b) path names n h c = absurd (cc)
state_object-item (int k) path names n h c = absurd (cc)
state_object-item (float s) path names n h c = absurd (cc)
state_object-item (str s) path names n h c = absurd (cc)
state_object-item (arr xs) path names n h c = absurd (cc)

-- A validator that raises nothing but `TaskStateError`.
abbrev pub Tame {ℓ} : {A : Type ℓ} → (Json → String → Result A) → Type 0
Tame parse = (v : Json) (path : String) → IsTame (parse v path)

pub text-Tame : Tame state_text
unfolding state_text
text-Tame (str s) path =
    IsTame-check (is_trimmed s) _ _ (IsTame-check (leb (length (codes s)) max_text) _ (ok s) tt)
text-Tame null path = unfold state_error in refl
text-Tame (bool b) path = unfold state_error in refl
text-Tame (int n) path = unfold state_error in refl
text-Tame (float s) path = unfold state_error in refl
text-Tame (arr xs) path = unfold state_error in refl
text-Tame (obj fs) path = unfold state_error in refl

pub identifier-Tame : Tame state_identifier
unfolding state_identifier
identifier-Tame v path =
    IsTame-bind (state_text v path) _ (text-Tame v path)
      λ s _. IsTame-check (is_stable_id s) _ (ok s) tt

pub sha256-Tame : Tame state_sha256
unfolding state_sha256
sha256-Tame v path =
    IsTame-bind (state_text v path) _ (text-Tame v path)
      λ s _. IsTame-check (is_digest s) _ (ok s) tt

check_time-IsTame : (o : Option (List ℕ)) (path : String) → IsTame (check_time o path)
unfolding check_time
check_time-IsTame none path = unfold state_error in refl
check_time-IsTame (some ns) path = IsTame-guard (is_calendar_time ns) _

pub utc-Tame : Tame utc
unfolding utc
utc-Tame v path = IsTame-bind (state_text v path) _ (text-Tame v path) λ s _.
    IsTame-bind (check_time (read_time s) path) _ (check_time-IsTame (read_time s) path) λ _ _. tt

pub positive-Tame : Tame positive
unfolding positive
positive-Tame (int (pos n)) path = IsTame-check (leb 1 n) _ (ok n) tt
positive-Tame (int (negsuc n)) path = unfold state_error in refl
positive-Tame null path = unfold state_error in refl
positive-Tame (bool b) path = unfold state_error in refl
positive-Tame (float s) path = unfold state_error in refl
positive-Tame (str s) path = unfold state_error in refl
positive-Tame (arr xs) path = unfold state_error in refl
positive-Tame (obj fs) path = unfold state_error in refl

list-Tame : Tame state_list
unfolding state_list
list-Tame (arr xs) path =
    IsTame-check (leb (length (items_list xs)) max_items) _ (ok (items_list xs)) tt
list-Tame null path = unfold state_error in refl
list-Tame (bool b) path = unfold state_error in refl
list-Tame (int n) path = unfold state_error in refl
list-Tame (float s) path = unfold state_error in refl
list-Tame (str s) path = unfold state_error in refl
list-Tame (obj fs) path = unfold state_error in refl

module _ {ℓ} {A : Type ℓ} (parse : Json → String → Result A) (tame : Tame parse) where
  parse_each-IsTame : (path : String) (i : ℕ) (vs : List Json) → IsTame (parse_each parse path i vs)
  unfolding parse_each
  parse_each-IsTame path i [] = tt
  parse_each-IsTame path i (v ∷ vs) =
      IsTame-bind (parse v (item_path path i)) _ (tame v (item_path path i)) λ x _.
        IsTame-bind (parse_each parse path (i + 1) vs) _ (parse_each-IsTame path (i + 1) vs)
          λ xs _. tt

  pub items-Tame : (name : String) (identity : A → String) → Tame (state_items parse name identity)
  unfolding state_items
  items-Tame name identity v path = IsTame-bind (state_list v path) _ (list-Tame v path) λ vs _.
      IsTame-bind (parse_each parse path 0 vs) _ (parse_each-IsTame path 0 vs)
        λ xs _. IsTame-check (is_duplicate_free (map identity xs)) _ (ok xs) tt

  -- A field that is there is read without another error.
  pub read-IsTame :
      (raw : Dict Json) (path name : String)
      → Succeeds (item (get name raw))
      → IsTame (read parse raw path name)
  unfolding read
  read-IsTame raw path name (v, e) = rw e (tame v (field_path path name))

pub id_list-Tame : Tame id_list
unfolding id_list
id_list-Tame v path = IsTame-bind (state_list v path) _ (list-Tame v path) λ vs _.
    IsTame-bind (parse_each state_identifier path 0 vs) _
      (parse_each-IsTame state_identifier identifier-Tame path 0 vs)
      λ xs _. IsTame-check (is_duplicate_free xs) _ (ok xs) tt

pub read_word-IsTame :
    (raw : Dict Json) (path name first second : String)
    → Succeeds (item (get name raw))
    → IsTame (read_word raw path name first second)
unfolding read_word
read_word-IsTame raw path name first second h =
    IsTame-bind (read state_text raw path name) _ (read-IsTame state_text text-Tame raw path name h)
      λ s _. IsTame-check (s == first || s == second) _ (ok s) tt

pub read_proof-IsTame :
    (needed : Bool) (raw : Dict Json) (path name complaint : String)
    → Succeeds (item (get name raw))
    → IsTame (read_proof needed raw path name complaint)
unfolding read_proof
read_proof-IsTame needed raw path name complaint h =
    IsTame-bind (read id_list raw path name) _ (read-IsTame id_list id_list-Tame raw path name h)
      λ ids _. IsTame-check (not (needed && is_empty ids)) _ (ok ids) tt

-- An object's keys are there, so the fields are read without another error.
pub record Known (names : List String) (raw : Dict Json) : Type 0 where
  pub there : (n : String) → contains n names ≡ true → Succeeds (item (get n raw))

pub object-IsTame {ℓ} :
    {A : Type ℓ} (v : Json) (path : String) (names : List String) (f : Dict Json → Result A)
    → ((raw : Dict Json) → Known names raw → IsTame (f raw))
    → IsTame (state_object v path names >>= f)
object-IsTame v path names f k =
    IsTame-bind (state_object v path names) f (state_object-IsTame v path names)
      λ raw e. k raw (record { there = λ n c. state_object-item v path names n e c })

module _ {ℓ} {B : Type ℓ} {names : List String} (raw : Dict Json) (known : Known names raw) where
  pub field-IsTame {κ} :
      {A : Type κ} (parse : Json → String → Result A) (path name : String) (f : A → Result B)
      → Tame parse
      → contains name names ≡ true
      → ((a : A) → IsTame (f a))
      → IsTame (read parse raw path name >>= f)
  field-IsTame parse path name f tame c k =
      IsTame-bind (read parse raw path name) f
        (read-IsTame parse tame raw path name (known.there name c)) λ a _. k a

  pub word-IsTame :
      (path name first second : String) (f : String → Result B)
      → contains name names ≡ true
      → ((a : String) → IsTame (f a))
      → IsTame (read_word raw path name first second >>= f)
  word-IsTame path name first second f c k =
      IsTame-bind (read_word raw path name first second) f
        (read_word-IsTame raw path name first second (known.there name c)) λ a _. k a

  pub proof-IsTame :
      (needed : Bool) (path name complaint : String) (f : List String → Result B)
      → contains name names ≡ true
      → ((a : List String) → IsTame (f a))
      → IsTame (read_proof needed raw path name complaint >>= f)
  proof-IsTame needed path name complaint f c k =
      IsTame-bind (read_proof needed raw path name complaint) f
        (read_proof-IsTame needed raw path name complaint (known.there name c)) λ a _. k a
