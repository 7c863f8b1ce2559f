-- ===== src/Retention/RoundTrip.antt =====
-- Round trips of the JSON forms of src/agent_continuity/retention.py.
use local_ai_coding_agent.Routing.Fields.{is_digest}
use local_ai_coding_agent.Common.{
  Error, contract_error, required, ok_inj, bind_inv, guard-eq-ok, leb, sort, ◌==◌, eq_iff, String,
  List, [], ◌∷◌, Option, none, some, ok, ◌≡◌, refl, sym, subst, ap, ◌∙◌, Json, str, str_items, All,
  map_result, optional_str, items_list, map, get, keys, set_eq, is_subset, contains, difference,
}
use local_ai_coding_agent.Retention.{
  RetentionDecision, is_sorted_set, check_decision, decision_dict, decision_of, mapping,
  field_mapping, text_at, optional_text, optional_at, texts_at,
}
use local_ai_coding_agent.Retention.Plan.{
  RetentionPlan, decision_items, unsigned_fields, unsigned_dict, plan_dict, verify, plan_of, create,
  plan_schema, non_negative, order_key, order_leb, orders_eq, plan_digest, with_digest,
}

-- `str` of a text is the text.
abbrev pub KeepsTexts : (Json → String) → Type 0
KeepsTexts text_of = (s : String) → text_of (str s) ≡ s

module _ (text_of : Json → String) (keeps : KeepsTexts text_of) where
  pub map-items : (xs : List String) → map text_of (items_list (str_items xs)) ≡ xs
  map-items [] = refl
  map-items (x ∷ xs) = rw (keeps x, map-items xs)

  optional_text-str : (o : Option String) → optional_text text_of (optional_str o) ≡ o
  optional_text-str none = refl
  optional_text-str (some s) = rw (keeps s)

  -- When `str` keeps texts, a decision that passes its checks is read back from its JSON form
  -- unchanged.
  pub decision_of-dict :
      (d : RetentionDecision)
      → check_decision d ≡ ok tt
      → decision_of text_of (decision_dict d) ≡ ok d
  unfolding decision_of decision_dict field_mapping mapping text_at optional_at texts_at get keys
      set_eq is_subset contains difference
  decision_of-dict d h = rw (
    keeps d.blob_sha256,
    keeps d.retention_class,
    keeps d.availability_before,
    keeps d.action,
    keeps d.reason,
    keeps d.created_at,
    optional_text-str d.hot_locator,
    optional_text-str d.task_terminal_at,
    optional_text-str d.expires_at,
    map-items d.source_event_ids,
    map-items d.scope_keys,
    map-items d.pin_reasons,
    h,
  )

  decisions_of-dicts :
      (ds : List RetentionDecision)
      → All (λ d. check_decision d ≡ ok tt) ds
      → map_result (decision_of text_of) (items_list (decision_items ds)) ≡ ok ds
  decisions_of-dicts [] h = refl
  decisions_of-dicts (d ∷ ds) h = rw (decision_of-dict d h.0, decisions_of-dicts ds h.1)

  -- When `str` keeps texts, a plan that verifies, of decisions that pass their checks, is read back
  -- from its JSON form unchanged.
  pub plan_of-dict :
      (digest : Json → Option String) (p q : RetentionPlan)
      → All (λ d. check_decision d ≡ ok tt) p.decisions
      → verify digest p ≡ ok q
      → plan_of digest text_of (plan_dict p) ≡ ok q
  unfolding plan_of plan_dict unsigned_fields mapping text_at texts_at get keys set_eq is_subset
      contains difference
  plan_of-dict digest p q checked h = rw (
    keeps p.schema,
    keeps p.observed_at,
    keeps p.plan_sha256,
    map-items p.exact_scope_keys,
    map-items p.cited_event_ids,
    decisions_of-dicts p.decisions checked,
    h,
  )

required_inj {ℓ} :
    {A : Type ℓ} (o : Option A) (e : Error) {a : A} → required o e ≡ ok a → o ≡ some a
required_inj (some a) e h = ap some (ok_inj h)
required_inj none e h = absurd (cc)

module _ (digest : Json → Option String) where
  -- A plan that verifies carries the digest of its own unsigned form.
  verify-IsSigned :
      (p : RetentionPlan) {q : RetentionPlan}
      → verify digest p ≡ ok q
      → (p ≡ q) × (digest (unsigned_dict p) ≡ some p.plan_sha256)
  unfolding verify plan_digest
  verify-IsSigned p h =
      let (_, h1) =
        guard-eq-ok (p.schema == plan_schema) (contract_error "unknown retention plan schema") _
          h in
      bind_inv (non_negative p.hot_budget_bytes) _ h1 λ budget _ h2.
        bind_inv (non_negative p.hot_bytes) _ h2 λ hot _ h3.
          bind_inv (non_negative p.pressure_basis_points) _ h3 λ pressure _ h4.
            let (_, h5) =
              guard-eq-ok (leb 1 budget) (contract_error "hot_budget_bytes must be positive") _
                h4 in
            let (_, h6) =
              guard-eq-ok (is_digest p.plan_sha256) (contract_error "invalid plan_sha256") _ h5 in
            let (_, h7) =
              guard-eq-ok (is_sorted_set p.exact_scope_keys)
                (contract_error "exact_scope_keys must be unique and sorted") _ h6 in
            let (_, h8) =
              guard-eq-ok (is_sorted_set p.cited_event_ids)
                (contract_error "cited_event_ids must be unique and sorted") _ h7 in
            bind_inv (map_result order_key p.decisions) _ h8 λ order _ h9.
              let (_, h10) =
                guard-eq-ok (orders_eq order (sort order_leb order))
                  (contract_error "retention decisions are not deterministically ordered") _ h9 in
              bind_inv (plan_digest digest p) _ h10 λ expected e h11.
                let (t, h12) =
                  guard-eq-ok (p.plan_sha256 == expected)
                    (contract_error "retention plan digest mismatch") (ok p) h11 in
                (
                  ok_inj h12,
                  required_inj (digest (unsigned_dict p)) _ e
                      ∙ ap some (sym ((eq_iff p.plan_sha256 expected).0 t)),
                )

  -- When `str` keeps texts, a plan that `create` makes of decisions that pass their checks is read
  -- back from its JSON form unchanged.
  pub create-plan_of :
      (text_of : Json → String) (p q : RetentionPlan)
      → KeepsTexts text_of
      → All (λ d. check_decision d ≡ ok tt) p.decisions
      → create digest p ≡ ok q
      → plan_of digest text_of (plan_dict q) ≡ ok q
  unfolding create
  create-plan_of text_of p q keeps checked h =
      bind_inv (plan_digest digest (with_digest p "")) _ h λ sha _ h1.
        let (same, _) = verify-IsSigned (with_digest p sha) h1 in
        plan_of-dict text_of keeps digest q q
          (subst (λ r. All (λ d. check_decision d ≡ ok tt) r.decisions) same checked)
          (subst (λ r. verify digest r ≡ ok q) same h1)
