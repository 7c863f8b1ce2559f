-- ===== src/Routing/Decisions/Merits.antt =====
-- The orders of `_select_non_primary` in src/agent_continuity/routing.py, and its test of a team,
-- stated over the fields of the routes.
use local_ai_coding_agent.Common.{
  ℕ, zero, suc, ℤ, pos, negsuc, leb_ℤ-neg, String, List, [], ◌∷◌, Option, none, some, true, false,
  ◌≡◌, ◌≢◌, ◌⊎◌, refl, ap, inl, inr, ltb, leb, str_leb, is_empty, Bool-cases, arith, eq_iff,
  str_eq_self, if◌then◌else◌,
}
use local_ai_coding_agent.Routing.Types.{RouteDefinition, Composition, single, team}
use local_ai_coding_agent.Routing.Selection.Ranking.{
  key_leb, team_leb, gain_or_zero, is_single, is_proven_team, names_baseline, has_gain,
}

-- `a` has the smaller priority, or the same one and an identifier that is not behind.
abbrev pub IsAhead : RouteDefinition → RouteDefinition → Type 0
IsAhead a b =
    (ltb a.priority b.priority ≡ true) ⊎ ((a.priority ≡ b.priority) × (str_leb a.id b.id ≡ true))

-- The gain of `a` is larger, or the same and `a` is ahead.
abbrev pub HasMoreGain : RouteDefinition → RouteDefinition → Type 0
HasMoreGain a b =
    (g h : ℕ)
    → a.team_gain_basis_points ≡ some (pos g)
    → b.team_gain_basis_points ≡ some (pos h)
    → (ltb h g ≡ true) ⊎ ((g ≡ h) × IsAhead a b)

-- `x` is a team with a positive gain over `best`, measured by a comparison.
pub record IsProvenOver (best x : RouteDefinition) : Type 0 where
  pub many : x.composition ≡ team
  pub baseline : x.baseline_route_id ≡ some best.id
  pub gain : (n : ℕ) × (x.team_gain_basis_points ≡ some (pos (suc n)))
  pub compared : x.comparison_evidence_ids ≢ []

pub key_leb-IsAhead : (a b : RouteDefinition) → key_leb a b ≡ true → IsAhead a b
unfolding key_leb
key_leb-IsAhead a b h = elim (Bool-cases (ltb a.priority b.priority)) [
  | inl t ↦ inl t
  | inr f ↦ inr (ground arith, ground arith)
]

pub is_single-single : (c : Composition) → is_single c ≡ true → c ≡ single
is_single-single single h = refl
is_single-single team h = absurd (cc)

is_single-team : (c : Composition) → is_single c ≡ false → c ≡ team
is_single-team single h = absurd (cc)
is_single-team team h = refl

names_baseline-some : (o : Option String) (i : String) → names_baseline o i ≡ true → o ≡ some i
names_baseline-some none i h = absurd (cc)
names_baseline-some (some b) i h = ap some ((eq_iff b i).0 h)

pub has_gain-positive : (o : Option ℤ) → has_gain o ≡ true → (n : ℕ) × (o ≡ some (pos (suc n)))
has_gain-positive none h = absurd (cc)
has_gain-positive (some (pos zero)) h = absurd (cc)
has_gain-positive (some (pos (suc n))) h = (n, refl)
has_gain-positive (some (negsuc n)) h = absurd (cc)

pub is_proven_team-IsProvenOver :
    (best x : RouteDefinition) → is_proven_team best x ≡ true → IsProvenOver best x
unfolding is_proven_team
is_proven_team-IsProvenOver best x h = record {
  many = is_single-team x.composition (ground arith);
  baseline = names_baseline-some x.baseline_route_id best.id (ground arith);
  gain = has_gain-positive x.team_gain_basis_points (ground arith);
  compared = λ e. ground (arith, e);
}

is_empty-cons : (xs : List String) → xs ≢ [] → is_empty xs ≡ false
is_empty-cons [] h = absurd (h refl)
is_empty-cons (x ∷ xs) h = refl

pub proven_team_is : (best x : RouteDefinition) → IsProvenOver best x → is_proven_team best x ≡ true
unfolding is_proven_team
proven_team_is best x k =
    rw
      (
        k.many,
        k.baseline,
        k.gain.1,
        is_empty-cons x.comparison_evidence_ids k.compared,
        str_eq_self best.id,
      )
      refl

more_gain :
    (a b : RouteDefinition) (g h : ℕ)
    → (if leb h g then (if leb g h then key_leb a b else true) else false) ≡ true
    → (ltb h g ≡ true) ⊎ ((g ≡ h) × IsAhead a b)
more_gain a b g h t = elim (Bool-cases (leb g h)) [
  | inl e ↦ inr (ground arith, key_leb-IsAhead a b (ground arith))
  | inr f ↦ inl (ground arith)
]

pub team_leb-HasMoreGain : (a b : RouteDefinition) → team_leb a b ≡ true → HasMoreGain a b
unfolding team_leb key_leb
team_leb-HasMoreGain a b t g h eg eh = more_gain a b g h (
    rw
      (
        leb_ℤ-neg (gain_or_zero a.team_gain_basis_points) (gain_or_zero b.team_gain_basis_points),
        leb_ℤ-neg (gain_or_zero b.team_gain_basis_points) (gain_or_zero a.team_gain_basis_points),
        eg,
        eh,
      )
      at t)
