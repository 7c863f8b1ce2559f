-- ===== src/Retention/Plan.antt =====
-- `RetentionPlan` of src/agent_continuity/retention.py. The digest of a plan is a parameter: the hash
-- of a value's canonical JSON, when it has one.
use local_ai_coding_agent.Common.{
  ℕ, String, List, [], ◌∷◌, Option, none, some, Bool, true, false, not, ◌&&◌, ◌||◌, Result, ok, err,
  contract_error, type_error, guard, ◌>>=◌, ◌>>◌, Dict, Json, Items, Fields, nil, cons, str, arr,
  obj, end, field, items_list, item, get, required, map_result, sort, nat_eq, ltb, leb, ◌==◌,
  str_leb, if◌then◌else◌, keep,
}
use local_ai_coding_agent.Routing.Fields.{is_digest}
use local_ai_coding_agent.Retention.{
  RetentionDecision, decision_dict, decision_of, natural, is_sorted_set, texts, mapping, text_at,
  texts_at, letters,
}

abbrev pub plan_schema : String
plan_schema = "coding-intelligence-memory-retention-plan/v1"

pub record RetentionPlan : Type 0 where
  pub schema : String
  pub observed_at : String
  pub hot_budget_bytes : Json
  pub hot_bytes : Json
  pub pressure_basis_points : Json
  pub exact_scope_keys : List String
  pub cited_event_ids : List String
  pub decisions : List RetentionDecision
  pub plan_sha256 : String

-- `RetentionPlan.actionable`
unfoldable pub actionable : RetentionPlan → List RetentionDecision
actionable p = keep (λ d. d.action == "archive" || d.action == "evict") p.decisions

abbrev pub decision_items : List RetentionDecision → Items
decision_items [] = nil
decision_items (d ∷ ds) = cons (decision_dict d) (decision_items ds)

-- `_unsigned_dict`, before further fields.
unfoldable pub unsigned_fields : RetentionPlan → Fields → Fields
unsigned_fields p rest = field "schema" (str p.schema) (
    field "observed_at" (str p.observed_at) (
      field "hot_budget_bytes" p.hot_budget_bytes (
        field "hot_bytes" p.hot_bytes (
          field "pressure_basis_points" p.pressure_basis_points (
            field "exact_scope_keys" (texts p.exact_scope_keys) (
              field "cited_event_ids" (texts p.cited_event_ids)
                (field "decisions" (arr (decision_items p.decisions)) rest)))))))

abbrev pub unsigned_dict : RetentionPlan → Json
unsigned_dict p = obj (unsigned_fields p end)

-- `RetentionPlan.as_dict`
unfoldable pub plan_dict : RetentionPlan → Json
unfolding unsigned_fields
plan_dict p = obj (unsigned_fields p (field "plan_sha256" (str p.plan_sha256) end))

-- A decision's place in the order: its class, when it expires, and its blob.
pub record OrderKey : Type 0 where
  pub rank : ℕ
  pub expires : String
  pub blob : String

abbrev pub class_ranks : Dict ℕ
class_ranks = ("scratch", 0) ∷ ("bulk", 1) ∷ ("evidence", 2) ∷ ("core", 3) ∷ []

abbrev pub expires_or_last : Option String → String
expires_or_last none = "9999-12-31T23:59:59Z"
expires_or_last (some s) = if s == "" then "9999-12-31T23:59:59Z" else s

unfoldable pub order_key : RetentionDecision → Result OrderKey
order_key d = do
  rank ← item (get d.retention_class class_ranks)
  ok (record { rank = rank; expires = expires_or_last d.expires_at; blob = d.blob_sha256 })

unfoldable pub order_leb : OrderKey → OrderKey → Bool
order_leb x y =
    ltb x.rank y.rank
    || (nat_eq x.rank y.rank
        && ((not (x.expires == y.expires) && str_leb x.expires y.expires)
            || (x.expires == y.expires && str_leb x.blob y.blob)))

abbrev pub order_eq : OrderKey → OrderKey → Bool
order_eq x y = nat_eq x.rank y.rank && (x.expires == y.expires && x.blob == y.blob)

unfoldable pub orders_eq : List OrderKey → List OrderKey → Bool
orders_eq [] [] = true
orders_eq [] (y ∷ ys) = false
orders_eq (x ∷ xs) [] = false
orders_eq (x ∷ xs) (y ∷ ys) = let rest = orders_eq xs ys in order_eq x y && rest

-- The items of `value["decisions"]`, over what the value is iterated as.
abbrev pub str_list : List String → List Json
str_list [] = []
str_list (s ∷ ss) = str s ∷ str_list ss

abbrev pub key_list : Fields → List Json
key_list end = []
key_list (field k v fs) = str k ∷ key_list fs

abbrev pub iterated : Json → Result (List Json)
iterated (arr items) = ok (items_list items)
iterated (obj fs) = ok (key_list fs)
iterated (str s) = ok (str_list (letters s))
iterated v = err type_error

abbrev pub plan_field_names : List String
plan_field_names =
    "schema" ∷ "observed_at" ∷ "hot_budget_bytes" ∷ "hot_bytes" ∷ "pressure_basis_points"
    ∷ "exact_scope_keys" ∷ "cited_event_ids" ∷ "decisions" ∷ "plan_sha256" ∷ []

-- A count of the plan is a non-negative integer.
unfoldable pub non_negative : Json → Result ℕ
non_negative v = required (natural v) (contract_error "must be a non-negative integer")

-- A plan of the current schema with this digest.
abbrev pub with_digest : RetentionPlan → String → RetentionPlan
with_digest p sha = record {
  schema = plan_schema;
  observed_at = p.observed_at;
  hot_budget_bytes = p.hot_budget_bytes;
  hot_bytes = p.hot_bytes;
  pressure_basis_points = p.pressure_basis_points;
  exact_scope_keys = p.exact_scope_keys;
  cited_event_ids = p.cited_event_ids;
  decisions = p.decisions;
  plan_sha256 = sha;
}

module _ (digest : Json → Option String) where
  unfoldable pub plan_digest : RetentionPlan → Result String
  plan_digest p = required (digest (unsigned_dict p)) (contract_error "value is not canonical JSON")

  -- `RetentionPlan.verify`
  unfoldable pub verify : RetentionPlan → Result RetentionPlan
  verify p = do
    guard (p.schema == plan_schema) (contract_error "unknown retention plan schema")
    budget ← non_negative p.hot_budget_bytes
    hot ← non_negative p.hot_bytes
    pressure ← non_negative p.pressure_basis_points
    guard (leb 1 budget) (contract_error "hot_budget_bytes must be positive")
    guard (is_digest p.plan_sha256) (contract_error "invalid plan_sha256")
    guard (is_sorted_set p.exact_scope_keys)
        (contract_error "exact_scope_keys must be unique and sorted")
    guard (is_sorted_set p.cited_event_ids)
        (contract_error "cited_event_ids must be unique and sorted")
    order ← map_result order_key p.decisions
    guard (orders_eq order (sort order_leb order))
        (contract_error "retention decisions are not deterministically ordered")
    expected ← plan_digest p
    guard (p.plan_sha256 == expected) (contract_error "retention plan digest mismatch")
    ok p

  -- `RetentionPlan.create`, from a plan whose schema and digest are not looked at.
  unfoldable pub create : RetentionPlan → Result RetentionPlan
  create p = do expected ← plan_digest (with_digest p ""); verify (with_digest p expected)

  -- `RetentionPlan.from_value`, on a value that is no plan yet.
  unfoldable pub plan_of : (Json → String) → Json → Result RetentionPlan
  plan_of text_of v = do
    raw ← mapping "retention plan fields do not match v1" plan_field_names v
    schema ← text_at text_of raw "schema"
    observed ← text_at text_of raw "observed_at"
    budget ← item (get "hot_budget_bytes" raw)
    hot ← item (get "hot_bytes" raw)
    pressure ← item (get "pressure_basis_points" raw)
    scopes ← texts_at text_of raw "exact_scope_keys"
    cited ← texts_at text_of raw "cited_event_ids"
    values ← item (get "decisions" raw) >>= iterated
    decisions ← map_result (decision_of text_of) values
    sha ← text_at text_of raw "plan_sha256"
    verify (record {
      schema = schema;
      observed_at = observed;
      hot_budget_bytes = budget;
      hot_bytes = hot;
      pressure_basis_points = pressure;
      exact_scope_keys = scopes;
      cited_event_ids = cited;
      decisions = decisions;
      plan_sha256 = sha;
    })
