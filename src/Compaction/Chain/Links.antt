-- ===== src/Compaction/Chain/Links.antt =====
-- `validate_state_chain` of src/agent_continuity/compaction.py accepts exactly the linked chains, and
-- an accepted compaction extends a chain.
use local_ai_coding_agent.Common.{
  ℕ, ◌+◌, true, String, List, [], ◌∷◌, ◌++◌, map, Option, none, some, is_none, ok, ok_inj, bind_inv,
  guard-eq-ok, map_result, map_result-cons, ◌≡◌, refl, sym, subst, ap, ◌∙◌, eq_iff, str_eq_self,
  All, append_none, Json, Succeeds, ◌==◌,
}
use local_ai_coding_agent.Compaction.Types.{TaskState, SourceRange, CompactionResult}
use local_ai_coding_agent.Compaction.State.{validate_task_state, task_state_sha256, state_json}
use local_ai_coding_agent.Compaction.Again.{task_state_sha256-json}
use local_ai_coding_agent.Compaction.References.{Resolver}
use local_ai_coding_agent.Compaction.Proposal.{hash_eq, validate_compaction_proposal}
use local_ai_coding_agent.Compaction.Preserved.Admission.{accepted-IsAdmitted}
use local_ai_coding_agent.Compaction.Chain.{
  check_revision, check_revisions, check_normalized, validate_state_chain,
}

-- A state that `validate_task_state` returned.
abbrev pub IsValidated : TaskState → Type 0
IsValidated s = (v : Json) × (validate_task_state v ≡ ok s)

map_result-IsValidated :
    (vs : List Json) (ss : List TaskState)
    → map_result validate_task_state vs ≡ ok ss
    → All IsValidated ss
map_result-IsValidated [] ss h = subst (All IsValidated) (ok_inj h) tt
map_result-IsValidated (v ∷ vs) ss h =
    let (s, rest, e1, e2, e3) = map_result-cons validate_task_state v vs h in
    subst (All IsValidated) (sym e3) ((v, e1), map_result-IsValidated vs rest e2)

pub hash_eq-some : (o : Option String) (h : String) → hash_eq o h ≡ true → o ≡ some h
hash_eq-some none h e = absurd (cc)
hash_eq-some (some g) h e = ap some ((eq_iff g h).0 e)

pub hash_eq-same : (o : Option String) (h : String) → o ≡ some h → hash_eq o h ≡ true
hash_eq-same o h e = rw (e, str_eq_self h)

is_none-same {ℓ} : {A : Type ℓ} (o : Option A) → o ≡ none → is_none o ≡ true
is_none-same o e = rw e

pub is_none-none {ℓ} : {A : Type ℓ} (o : Option A) → is_none o ≡ true → o ≡ none
is_none-none none h = refl
is_none-none (some a) h = absurd (cc)

append_assoc_one {ℓ} :
    {A : Type ℓ} (xs : List A) (y : A) (zs : List A) → (xs ++ y ∷ []) ++ zs ≡ xs ++ y ∷ zs
append_assoc_one [] y zs = refl
append_assoc_one (x ∷ xs) y zs = ap (λ l. x ∷ l) (append_assoc_one xs y zs)

module _ (digest : Json → String) where
  abbrev pub state_hash : TaskState → String
  state_hash s = digest (state_json s)

  -- Each state is of the task and links to the one before it.
  abbrev pub Linked : String → Option String → List TaskState → Type 0
  Linked task previous [] = Unit
  Linked task previous (s ∷ ss) =
      (s.task_id ≡ task)
      × (s.previous_state_sha256 ≡ previous)
      × Linked task (some (state_hash s)) ss

  -- A chain: the first state has no predecessor, and gives the task.
  abbrev pub IsChain : List TaskState → Type 0
  IsChain [] = ⊥
  IsChain (s ∷ ss) = Linked s.task_id none (s ∷ ss)

  check_revisions-Linked :
      (task last : String) (i : ℕ) (digests : List String) (ss : List TaskState) {ds : List String}
      → All IsValidated ss
      → check_revisions digest task last i digests ss ≡ ok ds
      → Linked task (some last) ss × (ds ≡ digests ++ map state_hash ss)
  unfolding check_revisions check_revision
  check_revisions-Linked task last i digests [] a h =
      (tt, sym (ok_inj h) ∙ sym (append_none digests))
  check_revisions-Linked task last i digests (s ∷ ss) a h =
      bind_inv (check_revision digest task last i s) _ h λ g e h1.
        let (t, k) = guard-eq-ok (s.task_id == task) _ _ e in
        let (l, hashed) =
          guard-eq-ok (hash_eq s.previous_state_sha256 last) _
            (task_state_sha256 digest (state_json s)) k in
        let same = ok_inj (sym hashed ∙ task_state_sha256-json digest a.0.0 s a.0.1) in
        let (links, e2) = check_revisions-Linked task g (i + 1) (digests ++ g ∷ []) ss a.1 h1 in
        (
          (
            (eq_iff s.task_id task).0 t,
            hash_eq-some s.previous_state_sha256 last l,
            subst (λ h. Linked task (some h) ss) same links,
          ),
          e2
              ∙ ap (λ h. (digests ++ h ∷ []) ++ map state_hash ss) same
              ∙ append_assoc_one digests (state_hash s) (map state_hash ss),
        )

  check_revisions_total :
      (task last : String) (i : ℕ) (digests : List String) (ss : List TaskState)
      → All IsValidated ss
      → Linked task (some last) ss
      → check_revisions digest task last i digests ss ≡ ok (digests ++ map state_hash ss)
  unfolding check_revisions check_revision
  check_revisions_total task last i digests [] a l = ap ok (sym (append_none digests))
  check_revisions_total task last i digests (s ∷ ss) a l =
      rw
        (
          (eq_iff s.task_id task).1 l.0,
          hash_eq-same s.previous_state_sha256 last l.1,
          task_state_sha256-json digest a.0.0 s a.0.1,
        )
        (check_revisions_total task (state_hash s) (i + 1) (digests ++ state_hash s ∷ []) ss a.1 l.2
          ∙ ap ok (append_assoc_one digests (state_hash s) (map state_hash ss)))

  check_normalized-IsChain :
      (ss : List TaskState) {ds : List String}
      → All IsValidated ss
      → check_normalized digest ss ≡ ok ds
      → IsChain ss × (ds ≡ map state_hash ss)
  unfolding check_normalized
  check_normalized-IsChain [] a h = absurd (cc)
  check_normalized-IsChain (s ∷ ss) a h =
      let (t, h1) = guard-eq-ok (is_none s.previous_state_sha256) _ _ h in
      bind_inv (task_state_sha256 digest (state_json s)) _ h1 λ g e h2.
        let same = ok_inj (sym e ∙ task_state_sha256-json digest a.0.0 s a.0.1) in
        let (links, e2) = check_revisions-Linked s.task_id g 1 (g ∷ []) ss a.1 h2 in
        (
          (
            refl,
            is_none-none s.previous_state_sha256 t,
            subst (λ h. Linked s.task_id (some h) ss) same links,
          ),
          e2 ∙ ap (λ h. h ∷ map state_hash ss) same,
        )

  check_normalized_total :
      (ss : List TaskState)
      → All IsValidated ss
      → IsChain ss
      → check_normalized digest ss ≡ ok (map state_hash ss)
  unfolding check_normalized
  check_normalized_total [] a l = absurd l
  check_normalized_total (s ∷ ss) a l =
      rw (is_none-same s.previous_state_sha256 l.1, task_state_sha256-json digest a.0.0 s a.0.1)
        (check_revisions_total s.task_id (state_hash s) 1 (state_hash s ∷ []) ss a.1 l.2)

  -- A chain that is accepted is linked: its states are valid, the first has no predecessor, each later
  -- one carries the hash of the one before it, all are of one task, and the digests are their hashes.
  pub validate_state_chain-IsChain :
      (states : List Json) {ds : List String}
      → validate_state_chain digest states ≡ ok ds
      → (ss : List TaskState) × (map_result validate_task_state states ≡ ok ss)
        × IsChain ss
        × (ds ≡ map state_hash ss)
  unfolding validate_state_chain
  validate_state_chain-IsChain states h =
      bind_inv (map_result validate_task_state states) _ h λ ss e h1.
        let (links, e2) = check_normalized-IsChain ss (map_result-IsValidated states ss e) h1 in
        (ss, e, links, e2)

  -- Every linked chain of valid states is accepted, with its hashes.
  pub validate_state_chain_total :
      (states : List Json) (ss : List TaskState)
      → map_result validate_task_state states ≡ ok ss
      → IsChain ss
      → validate_state_chain digest states ≡ ok (map state_hash ss)
  unfolding validate_state_chain
  validate_state_chain_total states ss e links =
      rw e (check_normalized_total ss (map_result-IsValidated states ss e) links)

  Linked-append :
      (task : String) (previous : Option String) (ss : List TaskState) (p c : TaskState)
      → Linked task previous (ss ++ p ∷ [])
      → c.task_id ≡ task
      → c.previous_state_sha256 ≡ some (state_hash p)
      → Linked task previous (ss ++ p ∷ c ∷ [])
  Linked-append task previous [] p c l t k = (l.0, l.1, (t, k, tt))
  Linked-append task previous (s ∷ ss) p c l t k =
      (l.0, l.1, Linked-append task (some (state_hash s)) ss p c l.2 t k)

  Linked-last :
      (task : String) (previous : Option String) (ss : List TaskState) (p : TaskState)
      → Linked task previous (ss ++ p ∷ [])
      → p.task_id ≡ task
  Linked-last task previous [] p l = l.0
  Linked-last task previous (s ∷ ss) p l = Linked-last task (some (state_hash s)) ss p l.2

  pub IsChain-append :
      (ss : List TaskState) (p c : TaskState)
      → IsChain (ss ++ p ∷ [])
      → p.task_id ≡ c.task_id
      → c.previous_state_sha256 ≡ some (state_hash p)
      → IsChain (ss ++ p ∷ c ∷ [])
  IsChain-append [] p c l same k = (refl, l.1, (sym same, k, tt))
  IsChain-append (s ∷ ss) p c l same k = (
    refl,
    l.1,
    Linked-append s.task_id (some (state_hash s)) ss p c l.2
        (sym same ∙ Linked-last s.task_id (some (state_hash s)) ss p l.2) k,
  )

-- The last of some parsed values, and what one more value adds.
map_result-last :
    (vs : List Json) (v w : Json) (c : TaskState) {ss : List TaskState}
    → map_result validate_task_state (vs ++ v ∷ []) ≡ ok ss
    → validate_task_state w ≡ ok c
    → (front : List TaskState) × (p : TaskState) × (ss ≡ front ++ p ∷ [])
      × (validate_task_state v ≡ ok p)
      × (map_result validate_task_state (vs ++ v ∷ w ∷ []) ≡ ok (front ++ p ∷ c ∷ []))
map_result-last [] v w c h k =
    let (p, rest, e1, e2, e3) = map_result-cons validate_task_state v [] h in
    ([], p, e3 ∙ ap (λ r. p ∷ r) (sym (ok_inj e2)), e1, rw (e1, k))
map_result-last (u ∷ us) v w c h k =
    let (s, rest, e1, e2, e3) = map_result-cons validate_task_state u (us ++ v ∷ []) h in
    let (front, p, f1, f2, f3) = map_result-last us v w c e2 k in
    (s ∷ front, p, e3 ∙ ap (λ r. s ∷ r) f1, f2, rw (e1, f3))

module _ (digest : Json → String) (r : Resolver) (range : SourceRange) where
  -- A chain whose last state is `v` stays a chain when a compaction `w` of `v` that was accepted is
  -- put behind it.
  pub accepted-IsChain :
      (states : List Json) (v w : Json) {ds : List String} {result : CompactionResult}
      → validate_state_chain digest (states ++ v ∷ []) ≡ ok ds
      → validate_compaction_proposal digest r range v w ≡ ok result
      → result.accepted ≡ true
      → Succeeds (validate_state_chain digest (states ++ v ∷ w ∷ []))
  accepted-IsChain states v w chain proposed accepted =
      let admitted = accepted-IsAdmitted digest r range v w proposed accepted in
      let (ss, parsed, links, _) = validate_state_chain-IsChain digest (states ++ v ∷ []) chain in
      let (front, p, same, vp, both) =
        map_result-last states v w admitted.candidate parsed admitted.candidate_valid in
      let is_p : admitted.previous ≡ p = ok_inj (sym admitted.previous_valid ∙ vp) in
      (
        map (state_hash digest) (front ++ p ∷ admitted.candidate ∷ []),
        validate_state_chain_total digest (states ++ v ∷ w ∷ [])
            (front ++ p ∷ admitted.candidate ∷ []) both
            (IsChain-append digest front p admitted.candidate (subst (IsChain digest) same links)
              (ap (λ s. s.task_id) (sym is_p) ∙ admitted.preserves.same_task)
              (admitted.linked ∙ ap (λ s. some (state_hash digest s)) is_p)),
      )
