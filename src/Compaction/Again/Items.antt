-- ===== src/Compaction/Again/Items.antt =====
-- The items of src/agent_continuity/compaction.py are normal forms: what a validator returned, it
-- accepts again unchanged.
use local_ai_coding_agent.Common.{
  true, [], ◌∷◌, ok, ok_inj, bind_inv, ◌≡◌, subst, str, int, pos, arr, str_items, get, keys,
  difference, contains, sorted_set, distinct, sort, ◌==◌,
}
use local_ai_coding_agent.Compaction.Values.{
  state_object, state_text, state_identifier, state_sha256, id_list,
}
use local_ai_coding_agent.Compaction.Times.{utc}
use local_ai_coding_agent.Compaction.Items.{
  read, read_word, read_proof, positive, objective_item, objective_json, criterion_item,
  criterion_json, constraint_item, constraint_json, decision_item, decision_json, completed_item,
  completed_json, current_action_item, current_action_json, next_action_item, next_action_json,
  blocker_item, blocker_json, tool_call_item, tool_call_json, artifact_item, artifact_json,
  dispute_item, dispute_json,
}
use local_ai_coding_agent.Compaction.Again.Values.{
  read_inv, word_inv, proof_inv, Again, text-Again, identifier-Again, sha256-Again, utc-Again,
  positive-Again, id_list-Again,
}

pub objective-Again : Again objective_item objective_json
unfolding objective_item objective_json state_object get keys difference contains sorted_set
    distinct sort read read_word read_proof
objective-Again v path q x h =
    bind_inv (state_object v path ("text" ∷ "source_event_id" ∷ [])) _ h λ raw e0 h0.
      read_inv raw path q state_text str text-Again "text" _ h0 λ text e1 h1.
        read_inv raw path q state_identifier str identifier-Again "source_event_id" _ h1
          λ source_event_id e2 h2.
            subst (λ x. objective_item (objective_json x) q ≡ ok x) (ok_inj h2) (rw (e1, e2))

pub criterion-Again : Again criterion_item criterion_json
unfolding criterion_item criterion_json state_object get keys difference contains sorted_set
    distinct sort read read_word read_proof
criterion-Again v path q x h =
    bind_inv (state_object v path ("id" ∷ "text" ∷ "status" ∷ "evidence_ids" ∷ [])) _ h λ raw e0 h0.
      word_inv raw path q "status" "open" "met" _ h0 λ status w0 t0 h1.
        proof_inv raw path q (status == "met") "evidence_ids" " must prove a met criterion" _ h1
          λ evidence_ids w1 t1 h2.
            read_inv raw path q state_identifier str identifier-Again "id" _ h2 λ id e3 h3.
              read_inv raw path q state_text str text-Again "text" _ h3 λ text e4 h4.
                subst (λ x. criterion_item (criterion_json x) q ≡ ok x) (ok_inj h4)
                  (rw (w0, t0, w1, t1, e3, e4))

pub constraint-Again : Again constraint_item constraint_json
unfolding constraint_item constraint_json state_object get keys difference contains sorted_set
    distinct sort read read_word read_proof
constraint-Again v path q x h =
    bind_inv (state_object v path ("id" ∷ "text" ∷ "status" ∷ "source_event_id" ∷ [])) _ h
      λ raw e0 h0. word_inv raw path q "status" "active" "retired" _ h0 λ status w0 t0 h1.
        read_inv raw path q state_identifier str identifier-Again "id" _ h1 λ id e2 h2.
          read_inv raw path q state_text str text-Again "text" _ h2 λ text e3 h3.
            read_inv raw path q state_identifier str identifier-Again "source_event_id" _ h3
              λ source_event_id e4 h4.
                subst (λ x. constraint_item (constraint_json x) q ≡ ok x) (ok_inj h4)
                  (rw (w0, t0, e2, e3, e4))

pub decision-Again : Again decision_item decision_json
unfolding decision_item decision_json state_object get keys difference contains sorted_set distinct
    sort read read_word read_proof
decision-Again v path q x h =
    bind_inv (state_object v path ("id" ∷ "text" ∷ "rationale" ∷ "source_event_ids" ∷ [])) _ h
      λ raw e0 h0.
        proof_inv raw path q true "source_event_ids" " must cite at least one event" _ h0
          λ source_event_ids w0 t0 h1.
            read_inv raw path q state_identifier str identifier-Again "id" _ h1 λ id e2 h2.
              read_inv raw path q state_text str text-Again "text" _ h2 λ text e3 h3.
                read_inv raw path q state_text str text-Again "rationale" _ h3 λ rationale e4 h4.
                  subst (λ x. decision_item (decision_json x) q ≡ ok x) (ok_inj h4)
                    (rw (w0, t0, e2, e3, e4))

pub completed-Again : Again completed_item completed_json
unfolding completed_item completed_json state_object get keys difference contains sorted_set
    distinct sort read read_word read_proof
completed-Again v path q x h =
    bind_inv (state_object v path ("id" ∷ "text" ∷ "evidence_ids" ∷ "completed_at" ∷ [])) _ h
      λ raw e0 h0.
        proof_inv raw path q true "evidence_ids" " must prove completed work" _ h0
          λ evidence_ids w0 t0 h1.
            read_inv raw path q state_identifier str identifier-Again "id" _ h1 λ id e2 h2.
              read_inv raw path q state_text str text-Again "text" _ h2 λ text e3 h3.
                read_inv raw path q utc str utc-Again "completed_at" _ h3 λ completed_at e4 h4.
                  subst (λ x. completed_item (completed_json x) q ≡ ok x) (ok_inj h4)
                    (rw (w0, t0, e2, e3, e4))

pub current_action-Again : Again current_action_item current_action_json
unfolding current_action_item current_action_json state_object get keys difference contains
    sorted_set distinct sort read read_word read_proof
current_action-Again v path q x h =
    bind_inv (state_object v path ("text" ∷ "owner" ∷ "started_at" ∷ [])) _ h λ raw e0 h0.
      read_inv raw path q state_text str text-Again "text" _ h0 λ text e1 h1.
        read_inv raw path q state_identifier str identifier-Again "owner" _ h1 λ owner e2 h2.
          read_inv raw path q utc str utc-Again "started_at" _ h2 λ started_at e3 h3.
            subst (λ x. current_action_item (current_action_json x) q ≡ ok x) (ok_inj h3)
              (rw (e1, e2, e3))

pub next_action-Again : Again next_action_item next_action_json
unfolding next_action_item next_action_json state_object get keys difference contains sorted_set
    distinct sort read read_word read_proof
next_action-Again v path q x h =
    bind_inv (state_object v path ("id" ∷ "order" ∷ "text" ∷ "depends_on" ∷ [])) _ h λ raw e0 h0.
      read_inv raw path q positive (λ n. int (pos n)) positive-Again "order" _ h0
        λ order e1 h1.
          read_inv raw path q state_identifier str identifier-Again "id" _ h1 λ id e2 h2.
            read_inv raw path q state_text str text-Again "text" _ h2 λ text e3 h3.
              read_inv raw path q id_list (λ ids. arr (str_items ids)) id_list-Again "depends_on" _
                h3
                λ depends_on e4 h4.
                  subst (λ x. next_action_item (next_action_json x) q ≡ ok x) (ok_inj h4)
                    (rw (e1, e2, e3, e4))

pub blocker-Again : Again blocker_item blocker_json
unfolding blocker_item blocker_json state_object get keys difference contains sorted_set distinct
    sort read read_word read_proof
blocker-Again v path q x h =
    bind_inv (state_object v path ("id" ∷ "text" ∷ "status" ∷ "evidence_ids" ∷ [])) _ h λ raw e0 h0.
      word_inv raw path q "status" "active" "cleared" _ h0 λ status w0 t0 h1.
        proof_inv raw path q (status == "cleared") "evidence_ids" " must prove a cleared blocker" _
          h1
          λ evidence_ids w1 t1 h2.
            read_inv raw path q state_identifier str identifier-Again "id" _ h2 λ id e3 h3.
              read_inv raw path q state_text str text-Again "text" _ h3 λ text e4 h4.
                subst (λ x. blocker_item (blocker_json x) q ≡ ok x) (ok_inj h4)
                  (rw (w0, t0, w1, t1, e3, e4))

pub tool_call-Again : Again tool_call_item tool_call_json
unfolding tool_call_item tool_call_json state_object get keys difference contains sorted_set
    distinct sort read read_word read_proof
tool_call-Again v path q x h =
    bind_inv (state_object v path ("call_id" ∷ "tool" ∷ "outcome" ∷ [])) _ h λ raw e0 h0.
      word_inv raw path q "outcome" "not_started" "unknown" _ h0 λ outcome w0 t0 h1.
        read_inv raw path q state_identifier str identifier-Again "call_id" _ h1 λ call_id e2 h2.
          read_inv raw path q state_identifier str identifier-Again "tool" _ h2 λ tool e3 h3.
            subst (λ x. tool_call_item (tool_call_json x) q ≡ ok x) (ok_inj h3)
              (rw (w0, t0, e2, e3))

pub artifact-Again : Again artifact_item artifact_json
unfolding artifact_item artifact_json state_object get keys difference contains sorted_set distinct
    sort read read_word read_proof
artifact-Again v path q x h =
    bind_inv (state_object v path ("path" ∷ "sha256" ∷ "evidence_id" ∷ [])) _ h λ raw e0 h0.
      read_inv raw path q state_text str text-Again "path" _ h0 λ location e1 h1.
        read_inv raw path q state_sha256 str sha256-Again "sha256" _ h1 λ sha256 e2 h2.
          read_inv raw path q state_identifier str identifier-Again "evidence_id" _ h2
            λ evidence_id e3 h3.
              subst (λ x. artifact_item (artifact_json x) q ≡ ok x) (ok_inj h3) (rw (e1, e2, e3))

pub dispute-Again : Again dispute_item dispute_json
unfolding dispute_item dispute_json state_object get keys difference contains sorted_set distinct
    sort read read_word read_proof
dispute-Again v path q x h =
    bind_inv (state_object v path ("id" ∷ "text" ∷ "status" ∷ "evidence_ids" ∷ [])) _ h λ raw e0 h0.
      word_inv raw path q "status" "unresolved" "resolved" _ h0 λ status w0 t0 h1.
        proof_inv raw path q true "evidence_ids" " must cite the dispute" _ h1
          λ evidence_ids w1 t1 h2.
            read_inv raw path q state_identifier str identifier-Again "id" _ h2 λ id e3 h3.
              read_inv raw path q state_text str text-Again "text" _ h3 λ text e4 h4.
                subst (λ x. dispute_item (dispute_json x) q ≡ ok x) (ok_inj h4)
                  (rw (w0, t0, w1, t1, e3, e4))
