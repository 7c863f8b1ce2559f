-- ===== src/Retention.antt =====
-- Retention decisions of src/agent_continuity/retention.py, and their JSON form. `str` on a decoded
-- value is a parameter, `text_of`.
use Prim.Native.Char.{Char}
use local_ai_coding_agent.Common.{
  ℕ, String, List, [], ◌∷◌, Option, none, some, Bool, true, false, not, ◌&&◌, Result, ok, err,
  contract_error, type_error, guard, ◌>>=◌, ◌>>◌, Dict, Json, Items, Fields, null, bool, int, float,
  str, arr, obj, end, field, pos, items_list, fields_dict, str_items, optional_str, item, get, keys,
  set_eq, contains, is_none, all, sorted_set, texts_eq, map, ◌==◌, required,
}
use local_ai_coding_agent.Routing.Fields.{is_digest}
pub mod Plan
pub mod RoundTrip
mod Tests

pub record RetentionDecision : Type 0 where
  pub blob_sha256 : String
  pub retention_class : String
  pub availability_before : String
  pub action : String
  pub reason : String
  pub size_bytes : Json
  pub hot_locator : Option String
  pub created_at : String
  pub task_terminal_at : Option String
  pub expires_at : Option String
  pub source_event_ids : List String
  pub scope_keys : List String
  pub pin_reasons : List String
  pub cited : Json

-- An integer that is no boolean and is not negative.
abbrev pub natural : Json → Option ℕ
natural (int (pos n)) = some n
natural _ = none

abbrev pub is_int : Json → Bool
is_int (int n) = true
is_int _ = false

abbrev pub is_bool : Json → Bool
is_bool (bool b) = true
is_bool _ = false

-- `tuple(sorted(set(xs))) == xs`
unfoldable pub is_sorted_set : List String → Bool
unfolding texts_eq sorted_set
is_sorted_set xs = texts_eq (sorted_set xs) xs

-- `RetentionDecision.__post_init__`
unfoldable pub check_decision : RetentionDecision → Result (Unit {0})
check_decision d = do
  guard (is_digest d.blob_sha256) (contract_error "invalid blob_sha256")
  guard (contains d.retention_class ("core" ∷ "evidence" ∷ "bulk" ∷ "scratch" ∷ []))
      (contract_error "invalid retention class")
  guard (contains d.availability_before ("hot" ∷ "archived" ∷ "evicted" ∷ []))
      (contract_error "invalid availability")
  guard (contains d.action ("keep" ∷ "archive" ∷ "evict" ∷ []))
      (contract_error "invalid retention action")
  guard (is_int d.size_bytes) (contract_error "size_bytes must be an integer")
  guard (not (is_none (natural d.size_bytes))) (contract_error "size_bytes must be non-negative")
  guard (not (d.reason == "")) (contract_error "retention reason must be non-empty text")
  guard (is_bool d.cited) (contract_error "cited must be boolean")
  guard (is_sorted_set d.source_event_ids)
      (contract_error "source_event_ids must be unique and sorted")
  guard (is_sorted_set d.scope_keys) (contract_error "scope_keys must be unique and sorted")
  guard (is_sorted_set d.pin_reasons) (contract_error "pin_reasons must be unique and sorted")

abbrev pub texts : List String → Json
texts xs = arr (str_items xs)

-- `RetentionDecision.as_dict`
unfoldable pub decision_dict : RetentionDecision → Json
decision_dict d = obj (
    field "blob_sha256" (str d.blob_sha256) (
      field "retention_class" (str d.retention_class) (
        field "availability_before" (str d.availability_before) (
          field "action" (str d.action) (
            field "reason" (str d.reason) (
              field "size_bytes" d.size_bytes (
                field "hot_locator" (optional_str d.hot_locator) (
                  field "created_at" (str d.created_at) (
                    field "task_terminal_at" (optional_str d.task_terminal_at) (
                      field "expires_at" (optional_str d.expires_at) (
                        field "source_event_ids" (texts d.source_event_ids) (
                          field "scope_keys" (texts d.scope_keys) (
                            field "pin_reasons" (texts d.pin_reasons)
                              (field "cited" d.cited end))))))))))))))

abbrev pub decision_fields : List String
decision_fields =
    "blob_sha256" ∷ "retention_class" ∷ "availability_before" ∷ "action" ∷ "reason" ∷ "size_bytes"
    ∷ "hot_locator" ∷ "created_at" ∷ "task_terminal_at" ∷ "expires_at" ∷ "source_event_ids"
    ∷ "scope_keys" ∷ "pin_reasons" ∷ "cited" ∷ []

-- The characters of a text, each as a text.
abbrev pub letters : String → List String
letters String.[] = []
letters (String.◌∷◌ c s) = String.◌∷◌ c String.[] ∷ letters s

-- A mapping with exactly these fields.
unfoldable pub mapping : String → List String → Json → Result (Dict Json)
mapping message expected (obj fs) = do
  guard (set_eq (keys (fields_dict fs)) expected) (contract_error message)
  ok (fields_dict fs)
mapping message expected v = err (contract_error message)

abbrev pub is_hashable : Json → Bool
is_hashable (arr items) = false
is_hashable (obj fs) = false
is_hashable v = true

abbrev pub is_str : Json → Bool
is_str (str s) = true
is_str v = false

abbrev pub str_of : Json → String
str_of (str s) = s
str_of v = ""

-- The same without a test for a mapping: `set` iterates a text or a list, and raises a TypeError on
-- other values and on items that cannot be hashed; a list of the fields' names is no mapping.
unfoldable pub field_mapping : String → List String → Json → Result (Dict Json)
unfolding mapping
field_mapping message expected (obj fs) = mapping message expected (obj fs)
field_mapping message expected (arr items) = do
  guard (all is_hashable (items_list items)) type_error
  guard (not (all is_str (items_list items) && set_eq (map str_of (items_list items)) expected))
      type_error
  err (contract_error message)
field_mapping message expected (str s) = err (contract_error message)
field_mapping message expected v = err type_error

module _ (text_of : Json → String) where
  -- `str(raw[key])`
  unfoldable pub text_at : Dict Json → String → Result String
  text_at raw key = do v ← item (get key raw); ok (text_of v)

  -- `None if raw[key] is None else str(raw[key])`
  abbrev pub optional_text : Json → Option String
  optional_text null = none
  optional_text v = some (text_of v)

  unfoldable pub optional_at : Dict Json → String → Result (Option String)
  optional_at raw key = do v ← item (get key raw); ok (optional_text v)

  -- `tuple(str(item) for item in value)`, over what the value is iterated as.
  abbrev pub text_items : Json → Result (List String)
  text_items (arr xs) = ok (map text_of (items_list xs))
  text_items (obj fs) = ok (keys (fields_dict fs))
  text_items (str s) = ok (letters s)
  text_items _ = err type_error

  unfoldable pub texts_at : Dict Json → String → Result (List String)
  texts_at raw key = do v ← item (get key raw); text_items v

  -- `RetentionDecision.from_value`
  unfoldable pub decision_of : Json → Result RetentionDecision
  decision_of v = do
    raw ← field_mapping "retention decision fields do not match v1" decision_fields v
    blob ← text_at raw "blob_sha256"
    class ← text_at raw "retention_class"
    availability ← text_at raw "availability_before"
    action ← text_at raw "action"
    reason ← text_at raw "reason"
    size ← item (get "size_bytes" raw)
    locator ← optional_at raw "hot_locator"
    created ← text_at raw "created_at"
    terminal ← optional_at raw "task_terminal_at"
    expires ← optional_at raw "expires_at"
    sources ← texts_at raw "source_event_ids"
    scopes ← texts_at raw "scope_keys"
    pins ← texts_at raw "pin_reasons"
    cited ← item (get "cited" raw)
    let d : RetentionDecision = record {
      blob_sha256 = blob;
      retention_class = class;
      availability_before = availability;
      action = action;
      reason = reason;
      size_bytes = size;
      hot_locator = locator;
      created_at = created;
      task_terminal_at = terminal;
      expires_at = expires;
      source_event_ids = sources;
      scope_keys = scopes;
      pin_reasons = pins;
      cited = cited;
    }
    check_decision d
    ok d
