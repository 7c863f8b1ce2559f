-- ===== src/Memory/Ledger.antt =====
-- What the table `task_state` of src/agent_continuity/memory_store.py says of the log: each row sums
-- up the chain of states that were committed for its task.
use local_ai_coding_agent.Common.{
  ◌>>=◌, ◌+◌, Bool, true, false, String, List, [], ◌∷◌, ◌++◌, map, Option, none, some, is_none,
  Result, ok, err, Error, ok_inj, bind_inv, guard, guard-eq-ok, >>-eq-ok, required, map_result,
  store_error, ◌≡◌, refl, sym, subst, ap, ◌∙◌, ◌↔◌, arith, inl, inr, eq_iff, Bool-cases, All, Dict,
  get, put, get-put, length, length-snoc, append_none, append_assoc, append_one_more, All-append,
  Json, obj, nat_eq, ◌==◌, if◌then◌else◌,
}
use local_ai_coding_agent.Compaction.Types.{TaskState}
use local_ai_coding_agent.Compaction.State.{validate_task_state, task_state_sha256, state_json}
use local_ai_coding_agent.Compaction.Again.{validate_task_state-Again, task_state_sha256-json}
use local_ai_coding_agent.Compaction.Chain.{validate_state_chain}
use local_ai_coding_agent.Compaction.Proposal.{hash_eq}
use local_ai_coding_agent.Compaction.Chain.Links.{
  IsValidated, state_hash, IsChain, IsChain-append, validate_state_chain_total, hash_eq-some,
  is_none-none,
}
use local_ai_coding_agent.Memory.States.{
  StateEvent, StateCommit, StateRow, normalize_state_commit, check_successor, apply_task_state,
  commit_state, commit_states,
}
use local_ai_coding_agent.Memory.Payloads.{
  committed, history, IsCommit, normalize_state_commit-IsCommit,
}

guard_inv : (t : Bool) (e : Error) → guard t e ≡ ok tt → t ≡ true
guard_inv true e h = refl
guard_inv false e h = absurd (cc)

module _ (dumps : Json → Option String) (digest : Json → String) where
  -- A row sums up the chain of a task's states: their number, and the last one's text and hash.
  pub record IsCurrent (t : String) (row : StateRow) (front : List TaskState) (s : TaskState)
      : Type 0 where
    pub revision : row.revision ≡ length front + 1
    pub text : dumps (state_json s) ≡ some row.state_json
    pub hash : row.state_sha256 ≡ state_hash digest s
    pub through : row.through_event_id ≡ s.through_event_id
    pub task : s.task_id ≡ t
    pub chain : IsChain digest (front ++ s ∷ [])

  -- A task without a row has no states.
  abbrev pub Tracked : String → Option StateRow → List TaskState → Type 0
  Tracked t none ss = ss ≡ []
  Tracked t (some row) ss =
      (front : List TaskState) × (s : TaskState) × (ss ≡ front ++ s ∷ []) × IsCurrent t row front s

  -- The row that a commit writes.
  abbrev row_of : StateEvent → StateCommit → String → StateRow
  row_of e c text = record {
    revision = c.revision;
    state_json = text;
    state_sha256 = state_hash digest c.state;
    through_event_id = e.event_id;
    committed_at = e.occurred_at;
  }

  successor-Tracked :
      (e : StateEvent) (c : StateCommit) (text : String) (o : Option StateRow) (ss : List TaskState)
      → IsCommit e c
      → dumps (state_json c.state) ≡ some text
      → check_successor o c ≡ ok tt
      → Tracked c.task_id o ss
      → Tracked c.task_id (some (row_of e c text)) (ss ++ c.state ∷ [])
  unfolding check_successor
  successor-Tracked e c text none ss (_, task, through) d h k =
      let (first, h1) = guard-eq-ok (nat_eq c.revision 1) _ _ h in
      let alone = guard_inv (is_none c.state.previous_state_sha256) _ h1 in
      (
        [],
        c.state,
        ap (λ l. l ++ c.state ∷ []) k,
        record {
          revision = ground arith;
          text = d;
          hash = refl;
          through = sym through;
          task = task;
          chain = (refl, is_none-none c.state.previous_state_sha256 alone, tt);
        },
      )
  successor-Tracked e c text (some row) ss (_, task, through) d h (front, s, k, now) =
      let (next, h1) = guard-eq-ok (nat_eq c.revision (row.revision + 1)) _ _ h in
      let linked =
        hash_eq-some c.state.previous_state_sha256 row.state_sha256
          (guard_inv (hash_eq c.state.previous_state_sha256 row.state_sha256) _ h1) in
      let n = now.revision in
      (
        front ++ s ∷ [],
        c.state,
        ap (λ l. l ++ c.state ∷ []) k,
        record {
          revision = ground (arith, length-snoc front s);
          text = d;
          hash = refl;
          through = sym through;
          task = task;
          chain = subst (IsChain digest) (sym (append_one_more front s c.state)) (
              IsChain-append digest front s c.state now.chain (now.task ∙ sym task)
                (linked ∙ ap some now.hash));
        },
      )

  apply_task_state-row :
      (rows : Dict StateRow) (e : StateEvent) (c : StateCommit) {next : Dict StateRow}
      → IsCommit e c
      → apply_task_state dumps digest rows e c ≡ ok next
      → (text : String) × (dumps (state_json c.state) ≡ some text)
        × (check_successor (get c.task_id rows) c ≡ ok tt)
        × (next ≡ put c.task_id (row_of e c text) rows)
  unfolding apply_task_state
  apply_task_state-row rows e c (valid, _, _) h =
      bind_inv (required (dumps (state_json c.state)) _) _ h λ text e1 h1.
        bind_inv (task_state_sha256 digest (state_json c.state)) _ h1 λ hash e2 h2.
          let (checked, h3) = >>-eq-ok (check_successor (get c.task_id rows) c) _ h2 in
          let same : hash ≡ state_hash digest c.state =
            ok_inj (sym e2 ∙ task_state_sha256-json digest valid.0 c.state valid.1) in
          (
            text,
            required-some (dumps (state_json c.state)) _ e1,
            checked,
            sym (ok_inj h3)
                ∙ ap
                    (λ g.
                      put c.task_id
                        (record {
                          revision = c.revision;
                          state_json = text;
                          state_sha256 = g;
                          through_event_id = e.event_id;
                          committed_at = e.occurred_at;
                        })
                        rows)
                    same,
          )
    where
      required-some :
          (o : Option String) (x : Error) {a : String} → required o x ≡ ok a → o ≡ some a
      required-some none x h = absurd (cc)
      required-some (some b) x h = ap some (ok_inj h)

  -- A commit that succeeded normalized its event, and projected it.
  commit_state_parts {ℓ} :
      {C : Type ℓ} (rows : Dict StateRow) (e : StateEvent) {next : Dict StateRow}
      → commit_state dumps digest rows e ≡ ok next
      → ((c : StateCommit)
          → normalize_state_commit e ≡ ok c
          → apply_task_state dumps digest rows e c ≡ ok next
          → C)
      → C
  unfolding commit_state
  commit_state_parts rows e h k =
      bind_inv (required (dumps (obj e.payload)) (store_error "value is not canonical JSON"))
        (λ _. normalize_state_commit e >>= λ c. apply_task_state dumps digest rows e c) h
        λ _ _ h1. bind_inv (normalize_state_commit e) _ h1 k

  commit_state-Tracked :
      (t : String) (rows : Dict StateRow) (e : StateEvent) (ss : List TaskState)
      {next : Dict StateRow}
      → Tracked t (get t rows) ss
      → commit_state dumps digest rows e ≡ ok next
      → Tracked t (get t next) (ss ++ committed t (normalize_state_commit e))
  unfolding committed
  commit_state-Tracked t rows e ss {next} k h = commit_state_parts rows e h λ c e1 h1.
      let is_commit = normalize_state_commit-IsCommit e e1 in
      let (text, d, checked, same) = apply_task_state-row rows e c is_commit h1 in
      let row = row_of e c text in
      let at : get t next ≡ (if t == c.task_id then some row else get t rows) =
        ap (get t) same ∙ get-put t c.task_id row rows in
      elim (Bool-cases (t == c.task_id)) [
        | inl this ↦
            let here = (eq_iff t c.task_id).0 this in
            let before = subst (λ u. Tracked u (get u rows) ss) here k in
            let after =
              successor-Tracked e c text (get c.task_id rows) ss is_commit d checked before in
            let now : get t next ≡ some row = at ∙ rw this in
            subst (λ o. Tracked t o (ss ++ committed t (normalize_state_commit e))) (sym now)
              (rw (e1, this)
                (subst (λ u. Tracked u (some row) (ss ++ c.state ∷ [])) (sym here) after))
        | inr other ↦
            let now : get t next ≡ get t rows = at ∙ rw other in
            subst (λ o. Tracked t o (ss ++ committed t (normalize_state_commit e))) (sym now)
              (rw (e1, other) (subst (Tracked t (get t rows)) (sym (append_none ss)) k))
      ]

  commit_states-Tracked :
      (t : String) (rows : Dict StateRow) (es : List StateEvent) (ss : List TaskState)
      {final : Dict StateRow}
      → Tracked t (get t rows) ss
      → commit_states dumps digest rows es ≡ ok final
      → Tracked t (get t final) (ss ++ history t es)
  unfolding commit_states history
  commit_states-Tracked t rows [] ss k h =
      subst (λ r. Tracked t (get t r) (ss ++ [])) (ok_inj h)
        (subst (Tracked t (get t rows)) (sym (append_none ss)) k)
  commit_states-Tracked t rows (e ∷ es) ss {final} k h =
      bind_inv (commit_state dumps digest rows e) _ h λ next e1 h1.
        subst (λ l. Tracked t (get t final) l)
          (append_assoc ss (committed t (normalize_state_commit e)) (history t es))
          (commit_states-Tracked t next es (ss ++ committed t (normalize_state_commit e))
            (commit_state-Tracked t rows e ss k e1) h1)

committed-IsValidated :
    (t : String) (e : StateEvent) (m : Result StateCommit)
    → normalize_state_commit e ≡ m
    → All IsValidated (committed t m)
unfolding committed
committed-IsValidated t e (ok c) h = elim (Bool-cases (t == c.task_id)) [
  | inl this ↦ rw this ((normalize_state_commit-IsCommit e h).0, tt)
  | inr other ↦ rw other tt
]
committed-IsValidated t e (err x) h = tt

pub history-IsValidated : (t : String) (es : List StateEvent) → All IsValidated (history t es)
unfolding history
history-IsValidated t [] = tt
history-IsValidated t (e ∷ es) =
    All-append IsValidated (committed t (normalize_state_commit e)) (history t es)
      (committed-IsValidated t e (normalize_state_commit e) refl) (history-IsValidated t es)

validated_again :
    (ss : List TaskState)
    → All IsValidated ss
    → map_result validate_task_state (map state_json ss) ≡ ok ss
validated_again [] a = refl
validated_again (s ∷ ss) a = rw (validate_task_state-Again a.0.0 s a.0.1, validated_again ss a.1)

module _ (dumps : Json → Option String) (digest : Json → String) where
  pub row-Tracked :
      (t : String) (es : List StateEvent) (row : StateRow) {rows : Dict StateRow}
      → commit_states dumps digest [] es ≡ ok rows
      → get t rows ≡ some row
      → Tracked dumps digest t (some row) (history t es)
  unfolding get
  row-Tracked t es row h k =
      subst (λ o. Tracked dumps digest t o (history t es)) k
        (commit_states-Tracked dumps digest t [] es [] refl h)

  -- After a log of `state/committed` events, a task's row sums up the states that were committed for
  -- the task: they form a chain that `validate_state_chain` accepts, the row's revision is their
  -- number, and its hash is the last digest of the chain.
  pub commit_states-IsChain :
      (t : String) (es : List StateEvent) (row : StateRow) {rows : Dict StateRow}
      → commit_states dumps digest [] es ≡ ok rows
      → get t rows ≡ some row
      → (front : List String) × (validate_state_chain digest (map state_json (history t es))
          ≡ ok (front ++ row.state_sha256 ∷ []))
        × (row.revision ≡ length front + 1)
  commit_states-IsChain t es row h k =
      let (front, s, same, now) = row-Tracked t es row h k in
      let a = subst (All IsValidated) same (history-IsValidated t es) in
      let accepted =
        validate_state_chain_total digest (map state_json (front ++ s ∷ [])) (front ++ s ∷ [])
          (validated_again (front ++ s ∷ []) a) now.chain in
      (
        map (state_hash digest) front,
        subst
            (λ l.
              validate_state_chain digest (map state_json l)
              ≡ ok (map (state_hash digest) front ++ row.state_sha256 ∷ []))
            (sym same)
            (accepted
              ∙ ap ok (
                  map-snoc (state_hash digest) front s
                  ∙ ap (λ g. map (state_hash digest) front ++ g ∷ []) (sym now.hash))),
        now.revision ∙ ap (λ n. n + 1) (sym (length-map (state_hash digest) front)),
      )
    where
      map-snoc :
          (f : TaskState → String) (xs : List TaskState) (x : TaskState)
          → map f (xs ++ x ∷ []) ≡ map f xs ++ f x ∷ []
      map-snoc f [] x = refl
      map-snoc f (y ∷ xs) x = ap (λ l. f y ∷ l) (map-snoc f xs x)

      length-map : (f : TaskState → String) (xs : List TaskState) → length (map f xs) ≡ length xs
      length-map f [] = refl
      length-map f (x ∷ xs) = ground (arith, length-map f xs)

  -- A task has no row exactly when no state was committed for it.
  pub commit_states-none :
      (t : String) (es : List StateEvent) {rows : Dict StateRow}
      → commit_states dumps digest [] es ≡ ok rows
      → (get t rows ≡ none) ↔ (history t es ≡ [])
  unfolding get
  commit_states-none t es {rows} h =
      go (get t rows) (commit_states-Tracked dumps digest t [] es [] refl h)
    where
      go :
          (o : Option StateRow)
          → Tracked dumps digest t o (history t es)
          → (o ≡ none) ↔ (history t es ≡ [])
      go none k = (λ _. k, λ _. refl)
      go (some row) (front, s, same, now) =
          (λ e. absurd (cc), λ e. absurd (snoc_apart front s (sym same ∙ e)))
        where
          snoc_apart : (xs : List TaskState) (x : TaskState) → xs ++ x ∷ [] ≡ [] → ⊥
          snoc_apart [] x e = cc
          snoc_apart (y ∷ xs) x e = cc
