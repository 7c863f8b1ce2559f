-- ===== src/Routing/Parsing.antt =====
-- The field parsers of src/agent_continuity/routing.py over decoded JSON. A decoded object has
-- distinct keys, so its fields are a dictionary.
pub mod Evidence
pub mod Components
pub mod Routes
pub mod Manifest
pub mod Soundness
pub mod WellFormed
pub mod Acceptance
mod Tests
use local_ai_coding_agent.Common.{
  ℕ, Bool, true, false, not, ◌&&◌, ◌||◌, String, List, [], ◌∷◌, Option, none, some, Result, ok, err,
  Error, manifest_error, type_error, guard, ◌>>=◌, ◌>>◌, item, get, has, keys, Dict, Json, str, int,
  arr, obj, null, bool, float, Items, nil, cons, items_list, fields_dict, pos, negsuc, set_eq,
  is_empty, is_duplicate_free, difference, all, leb, ◌==◌, ◌++◌, if◌then◌else◌, ℤ,
}
use local_ai_coding_agent.Routing.Types.{
  Status, accepted, rejected, inconclusive, evaluator_invalid, runtime_blocked, not_run, Locality,
  cloud, local,
}
use local_ai_coding_agent.Routing.Fields.{is_identifier, is_text, strip}

-- `_object`
unfoldable pub object : Json → Result (Dict Json)
object (obj fs) = ok (fields_dict fs)
object _ = err (manifest_error "must be an object")

-- `_exact_keys`
unfoldable pub exact_keys : Dict Json → List String → Result (Unit {0})
exact_keys raw expected =
    guard (set_eq (keys raw) expected) (manifest_error "has unexpected fields")

-- An object with exactly these fields, as each parser of an item begins.
unfoldable pub object_with : List String → Json → Result (Dict Json)
unfolding object exact_keys
object_with expected v = do raw ← object v; exact_keys raw expected; ok raw

-- `raw[key]`
abbrev pub at : Dict Json → String → Result Json
at raw key = item (get key raw)

-- `_identifier`
unfoldable pub identifier : Json → Result String
identifier (str s) = do
  guard (is_identifier s) (manifest_error "must be a lowercase stable identifier")
  ok s
identifier _ = err (manifest_error "must be a lowercase stable identifier")

-- `None`, or what the parser makes of the value.
abbrev pub optional {ℓ} : {A : Type ℓ} → (Json → Result A) → Json → Result (Option A)
optional parse null = ok none
optional parse v = do a ← parse v; ok (some a)

-- `_text`
unfoldable pub text : Json → Result String
text (str s) = do guard (is_text s) (manifest_error "must be a non-empty string"); ok (strip s)
text _ = err (manifest_error "must be a non-empty string")

unfoldable pub strings : List Json → Result (List String)
strings [] = ok []
strings (str s ∷ vs) = do ss ← strings vs; ok (s ∷ ss)
strings (_ ∷ vs) = err (manifest_error "must be an array of strings")

-- `_string_tuple` of identifiers. Every call of the source keeps `identifiers=True`.
unfoldable pub string_tuple : Bool → Bool → Json → Result (List String)
unfolding strings
string_tuple allow_empty allow_wildcard (arr items) = do
  xs ← strings (items_list items)
  guard (allow_empty || not (is_empty xs)) (manifest_error "must not be empty")
  guard (is_duplicate_free xs) (manifest_error "must not contain duplicates")
  guard (all (λ x. (allow_wildcard && x == "*") || is_identifier x) xs)
      (manifest_error "must be a lowercase stable identifier")
  ok xs
string_tuple allow_empty allow_wildcard _ = err (manifest_error "must be an array of strings")

-- A value that is looked up in a set of texts: a list or a dict cannot be hashed, and a value that
-- is no text is in no such set.
unfoldable pub hashed : Json → Result (Option String)
hashed (str s) = ok (some s)
hashed (arr items) = err type_error
hashed (obj fs) = err type_error
hashed _ = ok none

abbrev pub status_of : String → Option Status
status_of s =
    if s == "accepted"
    then some accepted
    else if s == "rejected"
    then some rejected
    else if s == "inconclusive"
    then some inconclusive
    else if s == "evaluator_invalid"
    then some evaluator_invalid
    else if s == "runtime_blocked"
    then some runtime_blocked
    else if s == "not_run"
    then some not_run
    else none

-- The member of a set of texts that a value names.
unfoldable pub one_of {ℓ} : {A : Type ℓ} → (String → Option A) → Json → Result A
unfolding hashed
one_of {A} known v = do
  s ← hashed v
  elim s [ none ↦ err (manifest_error "is invalid") | some t ↦ found (known t) ]
  where
    found : Option A → Result A
    found none = err (manifest_error "is invalid")
    found (some a) = ok a

-- `_status`
unfoldable pub parse_status : Json → Result Status
unfolding one_of
parse_status v = one_of status_of v

abbrev pub locality_of : String → Option Locality
locality_of s = if s == "cloud" then some cloud else if s == "local" then some local else none

-- `_locality`
unfoldable pub parse_locality : Json → Result Locality
unfolding one_of
parse_locality v = one_of locality_of v

-- `_optional_context_limit`
unfoldable pub context_limit : Json → Result (Option ℕ)
context_limit null = ok none
context_limit (int (pos n)) = do
  guard (leb 1024 n) (manifest_error "must be null or an integer >= 1024")
  ok (some n)
context_limit _ = err (manifest_error "must be null or an integer >= 1024")

-- `_evidence_ids`
unfoldable pub parse_evidence_ids {ℓ} : {V : Type ℓ} → Dict V → Bool → Json → Result (List String)
parse_evidence_ids evidence allow_empty v = do
  ids ← string_tuple allow_empty false v
  guard (is_empty (difference ids (keys evidence))) (manifest_error "references unknown evidence")
  ok ids

-- A non-empty array.
unfoldable pub nonempty_array : Json → Result (List Json)
nonempty_array (arr (cons v vs)) = ok (v ∷ items_list vs)
nonempty_array _ = err (manifest_error "must be a non-empty array")

-- The loop of each parser over an array: an item is parsed against the output so far, whose
-- identifiers it may not repeat, and is added to it.
unfoldable pub parse_entries {ℓ} :
    {V : Type ℓ} → (Dict V → Json → Result (String × V)) → Dict V → List Json → Result (Dict V)
parse_entries parse output [] = ok output
parse_entries parse output (v ∷ vs) = do
  e ← parse output v
  parse_entries parse (output ++ e ∷ []) vs

-- `id` of an item, new in the output.
unfoldable pub fresh_id {ℓ} : {V : Type ℓ} → Dict V → Dict Json → Result String
fresh_id output raw = do
  v ← at raw "id"
  i ← identifier v
  guard (not (has i output)) (manifest_error "duplicate id")
  ok i
