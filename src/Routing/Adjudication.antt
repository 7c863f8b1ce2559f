-- ===== src/Routing/Adjudication.antt =====
-- `adjudicate_qualification_status` of src/agent_continuity/routing.py. The statuses are parsed:
-- the source refuses a text outside `OUTCOME_STATUSES` first.
use local_ai_coding_agent.Common.{
  Bool, true, false, not, ◌&&◌, String, List, Result, ok, request_error, guard, ◌>>◌, is_empty,
  is_duplicate_free, all, ◌≡◌, ◌≢◌, ◌⊎◌, ◌↔◌, str_eq_self, inl, inr, refl, contains, all-contains,
  [], ◌∷◌, arith, if◌then◌else◌,
}
use local_ai_coding_agent.Routing.Types.{
  Status, accepted, rejected, inconclusive, evaluator_invalid, runtime_blocked, not_run,
}
use local_ai_coding_agent.Routing.Fields.{is_identifier}

-- `observation_status in {"accepted", "rejected"}`: the other four leave the status alone.
abbrev pub is_verdict : Status → Bool
is_verdict accepted = true
is_verdict rejected = true
is_verdict _ = false

unfoldable pub adjudicate_qualification_status :
    Status → Status → Bool → Bool → List String → Result Status
adjudicate_qualification_status current observation evaluator_valid applicable evidence_ids = do
  guard (is_duplicate_free evidence_ids)
      (request_error "evidence_ids must be a duplicate-free tuple")
  if not (is_verdict observation) then ok current else (do
    guard (evaluator_valid && applicable)
        (request_error "accepted/rejected observations require a valid applicable evaluator")
    guard (not (is_empty evidence_ids) && all is_identifier evidence_ids)
        (request_error "accepted/rejected observations require evidence IDs")
    ok observation)

-- An acceptance or a rejection.
abbrev pub IsVerdict : Status → Type 0
IsVerdict s = (s ≡ accepted) ⊎ (s ≡ rejected)

-- What a verdict needs: a valid evaluator that applies, and evidence.
pub record IsSupported (evaluator_valid applicable : Bool) (evidence_ids : List String)
    : Type 0 where
  pub valid : evaluator_valid ≡ true
  pub applies : applicable ≡ true
  pub cited : evidence_ids ≢ []
  pub named : (i : String) → contains i evidence_ids ≡ true → is_identifier i ≡ true

-- The status that an observation leads to.
abbrev pub IsOutcome : Status → Status → Bool → Bool → List String → Status → Type 0
IsOutcome current observation evaluator_valid applicable evidence_ids result =
    (IsVerdict observation
      × IsSupported evaluator_valid applicable evidence_ids
      × (result ≡ observation))
    ⊎ ((¬ IsVerdict observation) × (result ≡ current))

IsVerdict-cases :
    (s : Status) → (is_verdict s ≡ true) × IsVerdict s ⊎ (is_verdict s ≡ false) × (¬ IsVerdict s)
IsVerdict-cases accepted = inl (refl, inl refl)
IsVerdict-cases rejected = inl (refl, inr refl)
IsVerdict-cases inconclusive = inr (refl, λ v. elim v [ inl e ↦ cc | inr e ↦ cc ])
IsVerdict-cases evaluator_invalid = inr (refl, λ v. elim v [ inl e ↦ cc | inr e ↦ cc ])
IsVerdict-cases runtime_blocked = inr (refl, λ v. elim v [ inl e ↦ cc | inr e ↦ cc ])
IsVerdict-cases not_run = inr (refl, λ v. elim v [ inl e ↦ cc | inr e ↦ cc ])

is_empty-cons : (xs : List String) → is_empty xs ≡ false → xs ≢ []
is_empty-cons [] h e = absurd (cc)
is_empty-cons (x ∷ xs) h e = cc

all_named :
    (p : String → Bool) (xs : List String)
    → ((i : String) → contains i xs ≡ true → p i ≡ true)
    → all p xs ≡ true
unfolding contains
all_named p [] k = refl
all_named p (x ∷ xs) k =
    let here = k x (ground (arith, str_eq_self x)) in
    let rest = all_named p xs (λ i m. k i (ground (arith, m))) in ground (arith, here, rest)

cons-is_empty : (xs : List String) → xs ≢ [] → is_empty xs ≡ false
cons-is_empty [] k = absurd (k refl)
cons-is_empty (x ∷ xs) k = refl

returned-IsOutcome :
    (current observation result : Status) (evaluator_valid applicable : Bool)
    (evidence_ids : List String)
    → adjudicate_qualification_status current observation evaluator_valid applicable evidence_ids
      ≡ ok result
    → (is_duplicate_free evidence_ids ≡ true)
      × IsOutcome current observation evaluator_valid applicable evidence_ids result
unfolding adjudicate_qualification_status
returned-IsOutcome current observation result ev ap ids h = elim (IsVerdict-cases observation) [
  | inl (t, v) ↦
      let named : all is_identifier ids ≡ true = ground arith in
      let cited : is_empty ids ≡ false = ground arith in
      (
        ground arith,
        inl (
          v,
          record {
            valid = ground arith;
            applies = ground arith;
            cited = is_empty-cons ids cited;
            named = λ i m. all-contains is_identifier i ids named m;
          },
          ground arith,
        ),
      )
  | inr (f, n) ↦ (ground arith, inr (n, ground arith))
]

IsOutcome-returned :
    (current observation result : Status) (evaluator_valid applicable : Bool)
    (evidence_ids : List String)
    → is_duplicate_free evidence_ids ≡ true
    → IsOutcome current observation evaluator_valid applicable evidence_ids result
    → adjudicate_qualification_status current observation evaluator_valid applicable evidence_ids
      ≡ ok result
unfolding adjudicate_qualification_status
IsOutcome-returned current observation result ev ap ids d o = elim (IsVerdict-cases observation) [
  | inl (t, v) ↦ elim o [
    | inl (_, k, e) ↦
        let cited = cons-is_empty ids k.cited in
        let named = all_named is_identifier ids k.named in
        rw (d, t, k.valid, k.applies, cited, named, e) refl
    | inr (n, e) ↦ absurd (n v)
  ]
  | inr (f, n) ↦ elim o [ inl (v, k, e) ↦ absurd (n v) | inr (_, e) ↦ rw (d, f, e) refl ]
]

-- An adjudication returns a status exactly if the evidence has no duplicates and the status is the
-- outcome: of an acceptance or a rejection, by a valid evaluator that applies and with evidence of
-- at least one identifier, the observation; and of every other observation, the current status.
pub adjudicate_qualification_status-IsOutcome :
    (current observation result : Status) (evaluator_valid applicable : Bool)
    (evidence_ids : List String)
    → adjudicate_qualification_status current observation evaluator_valid applicable evidence_ids
        ≡ ok result
      ↔ (is_duplicate_free evidence_ids ≡ true)
        × IsOutcome current observation evaluator_valid applicable evidence_ids result
adjudicate_qualification_status-IsOutcome current observation result ev ap ids = (
  returned-IsOutcome current observation result ev ap ids,
  λ k. IsOutcome-returned current observation result ev ap ids k.0 k.1,
)
