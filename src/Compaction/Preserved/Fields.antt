-- ===== src/Compaction/Preserved/Fields.antt =====
-- What a loop of `_check_invariants` in src/agent_continuity/compaction.py establishes when it reports
-- nothing.
use local_ai_coding_agent.Common.{
  Bool, true, false, String, List, [], ◌∷◌, ◌++◌, map, Memᴰ, Option, none, some, ◌≡◌, refl, sym,
  subst, arith, eq_iff, Dict, get, AllEntries, AllEntries-get, is_duplicate_free, is_empty,
  is_subset, difference, texts_eq_sound, indexed, indexed-get, indexed-Memᴰ, indexed-identity,
}
use local_ai_coding_agent.Compaction.Types.{ValidationIssue}
use local_ai_coding_agent.Compaction.Invariants.{
  objective_eq, constraint_eq, decision_eq, completed_eq, current_action_eq, next_action_eq,
  tool_call_eq, artifact_eq, dispute_eq, unless, each_entry, exact_issues, exact_field, Words,
  Proof, keeps_text, keeps_evidence, stays_proved, is_newly_backed, proof_issues, proof_of,
  proof_field,
}

-- Nothing is reported where both parts report nothing.
pub append_nil {ℓ} : {A : Type ℓ} (xs ys : List A) → xs ++ ys ≡ [] → (xs ≡ []) × (ys ≡ [])
append_nil [] ys h = (refl, h)
append_nil (x ∷ xs) ys h = absurd (cc)

pub unless_nil : (t : Bool) (i : ValidationIssue) → unless t i ≡ [] → t ≡ true
unless_nil true i h = refl
unless_nil false i h = absurd (cc)

each_entry_nil {ℓ} :
    {V : Type ℓ} (f : String → V → List ValidationIssue) (d : Dict V)
    → each_entry f d ≡ []
    → AllEntries (λ k v. f k v ≡ []) d
unfolding each_entry
each_entry_nil f [] h = tt
each_entry_nil f ((k, v) ∷ d) h =
    let (a, b) = append_nil (f k v) (each_entry f d) h in (a, each_entry_nil f d b)

-- A test of equality.
abbrev pub Decides {ℓ} : {A : Type ℓ} → (A → A → Bool) → Type ℓ
Decides {A} same = (x y : A) → same x y ≡ true → x ≡ y

pub objective_eq-Decides : Decides objective_eq
unfolding objective_eq
objective_eq-Decides x y h =
    ground (arith, eq_iff x.text y.text, eq_iff x.source_event_id y.source_event_id)

pub constraint_eq-Decides : Decides constraint_eq
unfolding constraint_eq
constraint_eq-Decides x y h = ground (
  arith,
  eq_iff x.id y.id,
  eq_iff x.text y.text,
  eq_iff x.status y.status,
  eq_iff x.source_event_id y.source_event_id,
)

pub decision_eq-Decides : Decides decision_eq
unfolding decision_eq
decision_eq-Decides x y h = ground (
  arith,
  eq_iff x.id y.id,
  eq_iff x.text y.text,
  eq_iff x.rationale y.rationale,
  texts_eq_sound x.source_event_ids y.source_event_ids,
)

pub completed_eq-Decides : Decides completed_eq
unfolding completed_eq
completed_eq-Decides x y h = ground (
  arith,
  eq_iff x.id y.id,
  eq_iff x.text y.text,
  eq_iff x.completed_at y.completed_at,
  texts_eq_sound x.evidence_ids y.evidence_ids,
)

pub current_action_eq-Decides : Decides current_action_eq
unfolding current_action_eq
current_action_eq-Decides x y h =
    ground (arith, eq_iff x.text y.text, eq_iff x.owner y.owner, eq_iff x.started_at y.started_at)

pub next_action_eq-Decides : Decides next_action_eq
unfolding next_action_eq
next_action_eq-Decides x y h =
    ground (arith, eq_iff x.id y.id, eq_iff x.text y.text, texts_eq_sound x.depends_on y.depends_on)

pub tool_call_eq-Decides : Decides tool_call_eq
unfolding tool_call_eq
tool_call_eq-Decides x y h =
    ground (arith, eq_iff x.call_id y.call_id, eq_iff x.tool y.tool, eq_iff x.outcome y.outcome)

pub artifact_eq-Decides : Decides artifact_eq
unfolding artifact_eq
artifact_eq-Decides x y h =
    ground
      (arith, eq_iff x.path y.path, eq_iff x.sha256 y.sha256, eq_iff x.evidence_id y.evidence_id)

pub dispute_eq-Decides : Decides dispute_eq
unfolding dispute_eq
dispute_eq-Decides x y h = ground (
  arith,
  eq_iff x.id y.id,
  eq_iff x.text y.text,
  eq_iff x.status y.status,
  texts_eq_sound x.evidence_ids y.evidence_ids,
)

-- Every item of the first list stands in the second.
abbrev pub IsKept {ℓ} : {A : Type ℓ} → List A → List A → Type ℓ
IsKept {A} old new = (x : A) → Memᴰ x old → Memᴰ x new

module _ {ℓ} {A : Type ℓ} (name : String) (identity : A → String) (same : A → A → Bool)
    (decides : Decides same) where
  pub exact_field-IsKept :
      (old new : List A)
      → is_duplicate_free (map identity old) ≡ true
      → exact_field name identity same old new ≡ []
      → IsKept old new
  unfolding exact_field exact_issues
  exact_field-IsKept old new distinct h x m =
      let f : String → A → List ValidationIssue =
        λ id x. exact_issues name identity same id x (get id (indexed identity new)) in
      let entry =
        AllEntries-get (λ id x. f id x ≡ []) (identity x) (indexed identity old)
          (each_entry_nil f (indexed identity old) h) (indexed-get identity x old distinct m) in
      found (get (identity x) (indexed identity new)) refl entry
    where
      found :
          (o : Option A)
          → get (identity x) (indexed identity new) ≡ o
          → exact_issues name identity same (identity x) x o ≡ []
          → Memᴰ x new
      found none e k = absurd (cc)
      found (some y) e k =
          subst (λ z. Memᴰ z new) (sym (decides x y (unless_nil (same x y) _ k)))
            (indexed-Memᴰ identity (identity x) y new e)

-- An item and its successor: the text is the same, the evidence is kept, what is proved stays proved,
-- and what is newly proved has new evidence.
pub record IsAdvanced (w : Words) (x y : Proof) : Type 0 where
  pub text_kept : x.text ≡ y.text
  pub evidence_kept : is_subset x.evidence_ids y.evidence_ids ≡ true
  pub proof_kept : x.status ≡ w.proved → y.status ≡ w.proved
  pub proof_backed :
      x.status ≡ w.pending
      → y.status ≡ w.proved
      → is_empty (difference y.evidence_ids x.evidence_ids) ≡ false

proof_issues-IsAdvanced :
    (w : Words) (id : String) (x y : Proof) → proof_issues w id x (some y) ≡ [] → IsAdvanced w x y
unfolding proof_issues keeps_text keeps_evidence stays_proved is_newly_backed
proof_issues-IsAdvanced w id x y h =
    let (a, h1) = append_nil (unless (keeps_text w x y) _) _ h in
    let (b, h2) = append_nil (unless (keeps_evidence w x y) _) _ h1 in
    let (c, d) = append_nil (unless (stays_proved w x y) _) _ h2 in
    let text = unless_nil (keeps_text w x y) _ a in
    let stays = unless_nil (stays_proved w x y) _ c in
    let backed = unless_nil (is_newly_backed w x y) _ d in
    record {
      text_kept = (eq_iff x.text y.text).0 text;
      evidence_kept = unless_nil (keeps_evidence w x y) _ b;
      proof_kept = λ e. ground (arith, eq_iff x.status w.proved, eq_iff y.status w.proved);
      proof_backed = λ e f. ground (arith, eq_iff x.status w.pending, eq_iff y.status w.proved);
    }

-- Every item of the first list has its successor in the second, under the same identity.
abbrev pub IsAdvancedIn {ℓ} :
    {A : Type ℓ} → Words → (A → String) → (A → Proof) → List A → List A → Type ℓ
IsAdvancedIn {A} w identity proof old new =
    (x : A)
    → Memᴰ x old
    → (y : A) × Memᴰ y new × (identity y ≡ identity x) × IsAdvanced w (proof x) (proof y)

module _ {ℓ} {A : Type ℓ} (w : Words) (identity : A → String) (proof : A → Proof) where
  pub proof_field-IsAdvancedIn :
      (old new : List A)
      → is_duplicate_free (map identity old) ≡ true
      → proof_field w identity proof old new ≡ []
      → IsAdvancedIn w identity proof old new
  unfolding proof_field
  proof_field-IsAdvancedIn old new distinct h x m =
      let f : String → A → List ValidationIssue = λ id x.
        proof_issues w id (proof x) (proof_of w identity proof (get id (indexed identity new))) in
      let entry =
        AllEntries-get (λ id x. f id x ≡ []) (identity x) (indexed identity old)
          (each_entry_nil f (indexed identity old) h) (indexed-get identity x old distinct m) in
      found (get (identity x) (indexed identity new)) refl entry
    where
      found :
          (o : Option A)
          → get (identity x) (indexed identity new) ≡ o
          → proof_issues w (identity x) (proof x) (proof_of w identity proof o) ≡ []
          → (y : A) × Memᴰ y new × (identity y ≡ identity x) × IsAdvanced w (proof x) (proof y)
      found none e k = absurd (unfold proof_issues in cc)
      found (some y) e k = (
        y,
        indexed-Memᴰ identity (identity x) y new e,
        indexed-identity identity (identity x) y new e,
        proof_issues-IsAdvanced w (identity x) (proof x) (proof y) k,
      )
