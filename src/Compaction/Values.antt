-- ===== src/Compaction/Values.antt =====
-- The validators of single values in src/agent_continuity/compaction.py. A `TaskStateError` is a
-- `contract_error` with its whole message.
use local_ai_coding_agent.Common.{
  ℕ, ◌+◌, Bool, false, not, ◌&&◌, ◌||◌, String, List, [], ◌∷◌, map, Result, ok, err, Error,
  contract_error, guard, ◌>>=◌, ◌>>◌, Dict, Json, str, arr, obj, items_list, fields_dict, keys,
  difference, is_empty, is_duplicate_free, length, leb, nat_eq, sorted_set, all, codes, concat,
  decimal, join, ◌==◌,
}
use local_ai_coding_agent.Routing.Fields.{strip, is_digest}

-- A `TaskStateError` whose message has these parts.
unfoldable pub state_error : List String → Error
unfolding concat
state_error parts = contract_error (concat parts)

-- `_object`
unfoldable pub state_object : Json → String → List String → Result (Dict Json)
state_object (obj fs) path names = do
  let raw = fields_dict fs
  let missing = sorted_set (difference names (keys raw))
  let unknown = sorted_set (difference (keys raw) names)
  guard (is_empty missing)
      (state_error (path ∷ " is missing required keys: " ∷ join ", " missing ∷ []))
  guard (is_empty unknown) (state_error (path ∷ " has unknown keys: " ∷ join ", " unknown ∷ []))
  ok raw
state_object v path names = err (state_error (path ∷ " must be an object" ∷ []))

abbrev pub max_text : ℕ
max_text = 16384

abbrev pub max_items : ℕ
max_items = 4096

-- A non-empty text that `strip` leaves as it is.
unfoldable pub is_trimmed : String → Bool
unfolding strip
is_trimmed s = not (s == "") && s == strip s

-- `_text`
unfoldable pub state_text : Json → String → Result String
state_text (str s) path = do
  guard (is_trimmed s) (state_error (path ∷ " must be a non-empty, trimmed string" ∷ []))
  guard (leb (length (codes s)) max_text)
      (state_error (path ∷ " exceeds " ∷ decimal max_text ∷ " characters" ∷ []))
  ok s
state_text v path = err (state_error (path ∷ " must be a non-empty, trimmed string" ∷ []))

abbrev pub is_letter_or_digit : ℕ → Bool
is_letter_or_digit c =
    (leb b'0' c && leb c b'9') || ((leb b'a' c && leb c b'z') || (leb b'A' c && leb c b'Z'))

abbrev pub is_stable_char : ℕ → Bool
is_stable_char c =
    is_letter_or_digit c || (nat_eq c b'.' || (nat_eq c b'_' || (nat_eq c b':' || nat_eq c b'-')))

-- `_ID_RE`
abbrev pub matches_stable_id : List ℕ → Bool
matches_stable_id [] = false
matches_stable_id (c ∷ cs) = is_letter_or_digit c && (leb (length cs) 127 && all is_stable_char cs)

unfoldable pub is_stable_id : String → Bool
is_stable_id s = matches_stable_id (codes s)

-- `_identifier`
unfoldable pub state_identifier : Json → String → Result String
state_identifier v path = do
  s ← state_text v path
  guard (is_stable_id s) (state_error (path ∷ " must be a stable identifier" ∷ []))
  ok s

-- `_sha256`
unfoldable pub state_sha256 : Json → String → Result String
state_sha256 v path = do
  s ← state_text v path
  guard (is_digest s) (state_error (path ∷ " must be a canonical sha256 digest" ∷ []))
  ok s

-- `_list`
unfoldable pub state_list : Json → String → Result (List Json)
state_list (arr items) path = do
  guard (leb (length (items_list items)) max_items)
      (state_error (path ∷ " exceeds " ∷ decimal max_items ∷ " items" ∷ []))
  ok (items_list items)
state_list v path = err (state_error (path ∷ " must be a list" ∷ []))

-- `f"{path}[{index}]"` and `f"{path}.{name}"`
unfoldable pub item_path : String → ℕ → String
item_path path index = concat (path ∷ "[" ∷ decimal index ∷ "]" ∷ [])

unfoldable pub field_path : String → String → String
field_path path name = concat (path ∷ "." ∷ name ∷ [])

-- `[parse(item, f"{path}[{index}]") for index, item in enumerate(values)]`
unfoldable pub parse_each {ℓ} :
    {A : Type ℓ} → (Json → String → Result A) → String → ℕ → List Json → Result (List A)
parse_each parse path index [] = ok []
parse_each parse path index (v ∷ vs) = do
  x ← parse v (item_path path index)
  xs ← parse_each parse path (index + 1) vs
  ok (x ∷ xs)

-- `_id_list`
unfoldable pub id_list : Json → String → Result (List String)
id_list v path = do
  vs ← state_list v path
  ids ← parse_each state_identifier path 0 vs
  guard (is_duplicate_free ids) (state_error (path ∷ " contains duplicate identifiers" ∷ []))
  ok ids

-- `_items`
unfoldable pub state_items {ℓ} :
    {A : Type ℓ}
    → (Json → String → Result A)
    → String
    → (A → String)
    → Json
    → String
    → Result (List A)
state_items normalize name identity v path = do
  vs ← state_list v path
  result ← parse_each normalize path 0 vs
  guard (is_duplicate_free (map identity result))
      (state_error (path ∷ " contains duplicate " ∷ name ∷ " values" ∷ []))
  ok result
