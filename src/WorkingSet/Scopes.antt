-- ===== src/WorkingSet/Scopes.antt =====
-- `MemoryScope` of src/agent_continuity/memory_store.py, and the scopes that `pack_working_set` of
-- src/agent_continuity/working_set.py searches.
use local_ai_coding_agent.Common.{
  String, List, [], ◌∷◌, Option, none, some, Result, ok, err, contract_error, store_error, guard,
  required, ◌>>=◌, ◌>>◌, Dict, Json, nil, cons, null, str, arr, obj, optional_str, fields_dict, get,
  keys, put, difference, is_empty, not, sort, str_leb, values, ◌==◌,
}
use local_ai_coding_agent.Routing.Fields.{strip}
use local_ai_coding_agent.WorkingSet.Blocks.{canonical_text}

pub record MemoryScope : Type 0 where
  pub owner_id : String
  pub workspace_id : Option String
  pub task_id : Option String
  pub agent_role : Option String
  pub session_id : Option String

-- What a caller gives as a scope.
pub data ScopeValue : Type 0 where
  instance_of : MemoryScope → ScopeValue
  mapping : Json → ScopeValue

abbrev pub scope_fields : List String
scope_fields = "owner_id" ∷ "workspace_id" ∷ "task_id" ∷ "agent_role" ∷ "session_id" ∷ []

unfoldable pub read_owner : Json → Result String
unfolding strip
read_owner (str s) = do
  guard (not (strip s == "")) (store_error "scope owner_id must be a non-empty string")
  ok s
read_owner v = err (store_error "scope owner_id must be a non-empty string")

-- `None`, or a non-empty text.
unfoldable pub read_part : Json → Result (Option String)
read_part null = ok none
read_part (str s) = do
  guard (not (s == "")) (store_error "scope part must be null or a non-empty string")
  ok (some s)
read_part v = err (store_error "scope part must be null or a non-empty string")

unfoldable pub check_scope : Json → Json → Json → Json → Json → Result MemoryScope
unfolding read_owner read_part
check_scope owner workspace task role session = do
  o ← read_owner owner
  w ← read_part workspace
  t ← read_part task
  r ← read_part role
  s ← read_part session
  ok (record { owner_id = o; workspace_id = w; task_id = t; agent_role = r; session_id = s })

-- The field of a mapping, or the default of the class.
abbrev pub or_null : Option Json → Json
or_null none = null
or_null (some v) = v

-- `MemoryScope.from_value`
unfoldable pub from_value : ScopeValue → Result MemoryScope
unfolding check_scope difference keys get
from_value (instance_of s) =
    check_scope (str s.owner_id) (optional_str s.workspace_id) (optional_str s.task_id)
      (optional_str s.agent_role) (optional_str s.session_id)
from_value (mapping (obj fs)) = do
  let d = fields_dict fs
  guard (is_empty (difference (keys d) scope_fields)) (store_error "unknown scope fields")
  owner ← required (get "owner_id" d) (store_error "invalid scope")
  check_scope owner (or_null (get "workspace_id" d)) (or_null (get "task_id" d))
      (or_null (get "agent_role" d)) (or_null (get "session_id" d))
from_value (mapping v) = err (store_error "scope must be MemoryScope or a mapping")

-- `except MemoryStoreError as error: raise WorkingSetError(str(error))`
unfoldable pub restated {ℓ} : {A : Type ℓ} → Result A → Result A
restated (ok a) = ok a
restated (err (store_error message)) = err (contract_error message)
restated (err other) = err other

module _ (dumps : Json → Option String) where
  -- `MemoryScope.key`
  unfoldable pub scope_key : MemoryScope → Result String
  unfolding canonical_text
  scope_key s = canonical_text dumps (
      arr (
        cons (str s.owner_id) (
          cons (optional_str s.workspace_id) (
            cons (optional_str s.task_id)
              (cons (optional_str s.agent_role) (cons (optional_str s.session_id) nil))))))

  unfoldable pub scopes_by_key : Dict MemoryScope → List ScopeValue → Result (Dict MemoryScope)
  scopes_by_key d [] = ok d
  scopes_by_key d (v ∷ vs) = do s ← from_value v; k ← scope_key s; scopes_by_key (put k s d) vs

  -- `normalized_scopes`: one scope for each key, in the order of keys.
  unfoldable pub normalize_scopes : List ScopeValue → Result (List MemoryScope)
  unfolding sort values
  normalize_scopes vs = do
    d ← restated (scopes_by_key [] vs)
    ok (values (sort (λ a b. str_leb a.0 b.0) d))
