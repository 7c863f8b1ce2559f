-- ===== src/Retention/Tests.antt =====
-- A plan with two decisions; the round trips of src/agent_continuity/retention.py on it.
use local_ai_coding_agent.Common.{
  texts_eq, String, [], ◌∷◌, Option, none, some, false, ok, ◌≡◌, refl, Json, str, int, bool, pos,
  sorted_set, distinct, sort, insert_sorted, str_leb, codes_leb, contains, get,
}
use local_ai_coding_agent.Routing.Fields.{is_digest}
use local_ai_coding_agent.Retention.{
  RetentionDecision, check_decision, decision_dict, decision_of, is_sorted_set,
}
use local_ai_coding_agent.Retention.Plan.{
  RetentionPlan, plan_dict, plan_of, create, verify, plan_digest, order_key, order_leb, orders_eq,
  non_negative, plan_schema,
}
use local_ai_coding_agent.Retention.RoundTrip.{decision_of-dict, plan_of-dict, create-plan_of}

abbrev hash_text : String
hash_text = "sha256:0123456789abcdef0123456789abcdef0123456789abcdef0123456789abcdef"

abbrev text_of : Json → String
text_of (str s) = s
text_of v = "?"

abbrev digest : Json → Option String
digest v = some hash_text

abbrev decision_on : String → String → RetentionDecision
decision_on class action = record {
  blob_sha256 = hash_text;
  retention_class = class;
  availability_before = "hot";
  action = action;
  reason = "expired";
  size_bytes = int (pos 10);
  hot_locator = some "blobs/1";
  created_at = "2026-01-01T00:00:00Z";
  task_terminal_at = none;
  expires_at = none;
  source_event_ids = "e1" ∷ "e2" ∷ [];
  scope_keys = "s" ∷ [];
  pin_reasons = [];
  cited = bool false;
}

abbrev plan : RetentionPlan
plan = record {
  schema = plan_schema;
  observed_at = "2026-02-01T00:00:00Z";
  hot_budget_bytes = int (pos 100);
  hot_bytes = int (pos 20);
  pressure_basis_points = int (pos 2000);
  exact_scope_keys = "s" ∷ [];
  cited_event_ids = [];
  decisions = decision_on "scratch" "evict" ∷ decision_on "core" "keep" ∷ [];
  plan_sha256 = hash_text;
}

decision_checked :
    (check_decision (decision_on "scratch" "evict") ≡ ok tt)
    × (check_decision (decision_on "core" "keep") ≡ ok tt)
unfolding check_decision is_digest is_sorted_set texts_eq contains sorted_set distinct sort
    insert_sorted str_leb codes_leb
decision_checked = (refl, refl)

plan_created : create digest plan ≡ ok plan
unfolding create verify plan_digest order_key order_leb orders_eq non_negative is_digest
    is_sorted_set texts_eq contains sorted_set distinct sort insert_sorted get str_leb codes_leb
plan_created = refl

plan_verified : verify digest plan ≡ ok plan
unfolding create verify plan_digest order_key order_leb orders_eq non_negative is_digest
    is_sorted_set texts_eq contains sorted_set distinct sort insert_sorted get str_leb codes_leb
plan_verified = refl

decision_of-dict_example :
    decision_of text_of (decision_dict (decision_on "core" "keep")) ≡ ok (decision_on "core" "keep")
decision_of-dict_example =
    decision_of-dict text_of (λ s. refl) (decision_on "core" "keep") decision_checked.1

plan_of-dict_example : plan_of digest text_of (plan_dict plan) ≡ ok plan
plan_of-dict_example =
    plan_of-dict text_of (λ s. refl) digest plan plan (decision_checked.0, (decision_checked.1, tt))
      plan_verified

create-plan_of_example : plan_of digest text_of (plan_dict plan) ≡ ok plan
create-plan_of_example =
    create-plan_of digest text_of plan plan (λ s. refl)
      (decision_checked.0, (decision_checked.1, tt)) plan_created
