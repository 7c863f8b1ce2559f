-- ===== src/WorkingSet/Task/Currency.antt =====
-- What `pack_working_set` of src/agent_continuity/working_set.py packs: the state that was committed
-- last for the task.
use local_ai_coding_agent.Common.{
  Memᴰ, ◌↔◌, map, ◌+◌, ◌&&◌, contract_error, String, List, [], ◌∷◌, ◌++◌, Option, none, some, ok,
  ok_inj, Error, bind_inv, guard-eq-ok, required, ◌≡◌, refl, sym, subst, ap, ◌∙◌, eq_iff, All,
  All-last, Dict, Json, get, length, text_append, ◌==◌,
}
use local_ai_coding_agent.Compaction.Types.{TaskState, Blocker}
use local_ai_coding_agent.Compaction.State.{validate_task_state, task_state_sha256, state_json}
use local_ai_coding_agent.Compaction.Again.{validate_task_state-Again, task_state_sha256-json}
use local_ai_coding_agent.Compaction.Chain.Links.{IsValidated, state_hash}
use local_ai_coding_agent.Memory.States.{StateEvent, StateRow, reworded, commit_states}
use local_ai_coding_agent.Memory.Ledger.{row-Tracked, history-IsValidated}
use local_ai_coding_agent.Memory.Payloads.{history, reworded-inv}
use local_ai_coding_agent.WorkingSet.Types.{WorkingSet}
use local_ai_coding_agent.WorkingSet.Ledger.{Counted}
use local_ai_coding_agent.WorkingSet.Query.{QueryInput, literals}
use local_ai_coding_agent.WorkingSet.Packing.Bounds.{IsBounded}
use local_ai_coding_agent.WorkingSet.Task.{
  Current, TaskWorkingSet, check_current, load_current_state,
}

-- No other state that was committed for the task has the hash of this one.
abbrev pub IsAlone : (Json → String) → String → List StateEvent → TaskState → Type 0
IsAlone digest t es c =
    (s : TaskState)
    → Memᴰ s (history t es)
    → digest (state_json s) ≡ digest (state_json c)
    → state_json s ≡ state_json c

required_inv {ℓ} :
    {A : Type ℓ} (o : Option A) (x : Error) {a : A} → required o x ≡ ok a → o ≡ some a
required_inv none x h = absurd (cc)
required_inv (some b) x h = ap some (ok_inj h)

Memᴰ-last {ℓ} : {A : Type ℓ} (xs : List A) (x : A) → Memᴰ x (xs ++ x ∷ [])
Memᴰ-last [] x = Memᴰ.head refl
Memᴰ-last (y ∷ xs) x = Memᴰ.tail (Memᴰ-last xs x)

-- Validated states with one JSON form are equal.
state_json_inj :
    (s c : TaskState) → IsValidated s → IsValidated c → state_json s ≡ state_json c → s ≡ c
state_json_inj s c (v, h) (w, k) e = ok_inj (
    sym (validate_task_state-Again v s h)
    ∙ ap validate_task_state e
    ∙ validate_task_state-Again w c k)

module _ (loads : String → Option Json) (digest : Json → String) where
  -- What a row that was checked says of its state.
  record IsChecked (t : String) (row : StateRow) (cur : Current) : Type 0 where
    valid : IsValidated cur.state
    hash : row.state_sha256 ≡ state_hash digest cur.state
    same_row : cur.row ≡ row

  check_current-IsChecked :
      (t : String) (row : StateRow) {cur : Current}
      → check_current loads digest t row ≡ ok cur
      → IsChecked t row cur
  unfolding check_current
  check_current-IsChecked t row h = bind_inv (required (loads row.state_json) _) _ h λ v e1 h1.
      bind_inv (reworded contract_error "current task state is invalid: " (validate_task_state v)) _
        h1
        λ s e2 h2. bind_inv (task_state_sha256 digest (state_json s)) _ h2 λ g e3 h3.
          let valid =
            reworded-inv contract_error "current task state is invalid: " (validate_task_state v)
              e2 in
          let (same, h4) = guard-eq-ok (row.state_sha256 == g) _ _ h3 in
          let (mine, h5) =
            guard-eq-ok (s.task_id == t && s.through_event_id == row.through_event_id) _ _ h4 in
          let hashed = ok_inj (sym e3 ∙ task_state_sha256-json digest v s valid) in
          subst (IsChecked t row) (ok_inj h5) (record {
            valid = (v, valid);
            hash = (eq_iff row.state_sha256 g).0 same ∙ hashed;
            same_row = refl;
          })

  -- A state that is loaded is the one that was committed last for its task, and the row's revision
  -- counts the task's commits, unless another state that was committed for it has the same hash.
  pub load_current_state-committed :
      (dumps : Json → Option String) (t : String) (es : List StateEvent) {rows : Dict StateRow}
      {cur : Current}
      → IsAlone digest t es cur.state
      → commit_states dumps digest [] es ≡ ok rows
      → load_current_state loads digest rows t ≡ ok cur
      → (front : List TaskState) × (history t es ≡ front ++ cur.state ∷ [])
        × (cur.row.revision ≡ length front + 1)
  unfolding load_current_state
  load_current_state-committed dumps t es {rows} {cur} apart h k =
      bind_inv (required (get t rows) _) _ k λ row e1 k1.
        let (front, s, same, now) =
          row-Tracked dumps digest t es row h (required_inv (get t rows) _ e1) in
        let c = check_current-IsChecked t row k1 in
        let valid =
          All-last IsValidated front s (subst (All IsValidated) same (history-IsValidated t es)) in
        let is_s =
          state_json_inj s cur.state valid c.valid
            (apart s (subst (Memᴰ s) (sym same) (Memᴰ-last front s)) (sym now.hash ∙ c.hash)) in
        (
          front,
          same ∙ ap (λ x. front ++ x ∷ []) is_s,
          ap (λ r. r.revision) c.same_row ∙ now.revision,
        )

  -- A working set of a task: the state that was committed last for it stands first in the text, the
  -- query holds the state's objective, open tools and active blockers, and the budgets are kept.
  pub record IsOfTask (dumps : Json → Option String) (counter : String → Counted) (t : String)
      (es : List StateEvent) (q : QueryInput) (r : TaskWorkingSet) : Type 0 where
    pub state : TaskState
    pub earlier : List TaskState
    pub latest : history t es ≡ earlier ++ state ∷ []
    pub state_text : String
    pub memory_text : String
    pub encoded : dumps (state_json state) ≡ some state_text
    pub first_text :
        r.working_set.model_text
        ≡ text_append
            (text_append "## CURRENT TYPED TASK STATE\n" (text_append state_text "\n"))
            (text_append "\n" memory_text)
    pub active : List Blocker
    pub are_active : (b : Blocker) → Memᴰ b active ↔ Memᴰ b state.blockers × (b.status ≡ "active")
    pub asked :
        literals r.components
        ≡ q.request
          ∷ state.objective.text
          ∷ (q.file_symbols
              ++ (q.errors
                  ++ ((map (λ c. c.tool) state.open_tool_calls ++ q.tools)
                      ++ (map (λ b. b.text) active ++ q.blockers))))
    pub bounded : IsBounded counter r.working_set
