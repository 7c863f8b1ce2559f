-- ===== src/Routing/Decisions/Optimality.antt =====
-- `_select_non_primary` of src/agent_continuity/routing.py: its two keys are orders, and it takes a
-- least single route, or a team with the largest measured gain over it.
use local_ai_coding_agent.Common.{
  List, [], ◌∷◌, some, Bool, true, false, ◌||◌, ◌≡◌, ◌⊎◌, refl, sym, arith, inl, inr, All, All-keep,
  All-sort, All-unsort, All-self, All-Memᴰ, Memᴰ, keep, keep-passes, keep-Memᴰ, IsOrder, sort,
  head_sort-IsLower, str_leb_total, str_leb_trans, ℤ, leb_ℤ, leb_ℤ_total, leb_ℤ_trans, -ℤ◌,
  some_inj, subst, Bool-cases, if◌then◌else◌,
}
use local_ai_coding_agent.Routing.Types.{RouteDefinition}
use local_ai_coding_agent.Routing.Selection.Ranking.{
  key_leb, team_leb, gain_or_zero, is_single, is_proven_team, singles, proven_teams, first_or,
  select_over, select_non_primary,
}

key_leb_total : (a b : RouteDefinition) → (key_leb a b || key_leb b a) ≡ true
unfolding key_leb
key_leb_total a b = ground (arith, str_leb_total a.id b.id)

key_leb_trans :
    (a b c : RouteDefinition) → key_leb a b ≡ true → key_leb b c ≡ true → key_leb a c ≡ true
unfolding key_leb
key_leb_trans a b c h k = ground (arith, str_leb_trans a.id b.id c.id)

pub key_leb-IsOrder : IsOrder key_leb
key_leb-IsOrder = record { total = key_leb_total; trans = key_leb_trans }

-- `-int(gain or 0)`
abbrev neg_gain : RouteDefinition → ℤ
neg_gain r = -ℤ◌ (gain_or_zero r.team_gain_basis_points)

team_leb_total : (a b : RouteDefinition) → (team_leb a b || team_leb b a) ≡ true
unfolding team_leb
team_leb_total a b =
    lexicographic (leb_ℤ (neg_gain a) (neg_gain b)) (leb_ℤ (neg_gain b) (neg_gain a)) (key_leb a b)
      (key_leb b a) (leb_ℤ_total (neg_gain a) (neg_gain b)) (key_leb_total a b)
  where
    lexicographic :
        (ab ba k l : Bool)
        → (ab || ba) ≡ true
        → (k || l) ≡ true
        → ((if ab then (if ba then k else true) else false)
            || (if ba then (if ab then l else true) else false))
          ≡ true
    lexicographic ab ba k l h g = ground arith

team_leb_trans :
    (a b c : RouteDefinition) → team_leb a b ≡ true → team_leb b c ≡ true → team_leb a c ≡ true
unfolding team_leb
team_leb_trans a b c h k =
    lexicographic (leb_ℤ (neg_gain a) (neg_gain b)) (leb_ℤ (neg_gain b) (neg_gain a))
      (leb_ℤ (neg_gain b) (neg_gain c)) (leb_ℤ (neg_gain c) (neg_gain b))
      (leb_ℤ (neg_gain a) (neg_gain c)) (leb_ℤ (neg_gain c) (neg_gain a)) (key_leb a b)
      (key_leb b c) (key_leb a c) h k (leb_ℤ_trans (neg_gain a) (neg_gain b) (neg_gain c))
      (leb_ℤ_trans (neg_gain b) (neg_gain c) (neg_gain a))
      (leb_ℤ_trans (neg_gain c) (neg_gain a) (neg_gain b)) (key_leb_trans a b c)
  where
    lexicographic :
        (ab ba bc cb ac ca k l n : Bool)
        → (if ab then (if ba then k else true) else false) ≡ true
        → (if bc then (if cb then l else true) else false) ≡ true
        → (ab ≡ true → bc ≡ true → ac ≡ true)
        → (bc ≡ true → ca ≡ true → ba ≡ true)
        → (ca ≡ true → ab ≡ true → cb ≡ true)
        → (k ≡ true → l ≡ true → n ≡ true)
        → (if ac then (if ca then n else true) else false) ≡ true
    lexicographic ab ba bc cb ac ca k l n h g t u v w = ground arith

pub team_leb-IsOrder : IsOrder team_leb
team_leb-IsOrder = record { total = team_leb_total; trans = team_leb_trans }

-- `best` is a single route of `rs`, at most each single route by priority and then identifier.
pub record IsBestSingle (best : RouteDefinition) (rs : List RouteDefinition) : Type 0 where
  pub member : Memᴰ best rs
  pub single : is_single best.composition ≡ true
  pub least :
      (x : RouteDefinition) → Memᴰ x rs → is_single x.composition ≡ true → key_leb best x ≡ true

-- `r` is a proven team of `rs` over `best`, at most each of these by gain and then by key.
pub record IsBestTeam (best r : RouteDefinition) (rs : List RouteDefinition) : Type 0 where
  pub member : Memᴰ r rs
  pub proven : is_proven_team best r ≡ true
  pub most : (x : RouteDefinition) → Memᴰ x rs → is_proven_team best x ≡ true → team_leb r x ≡ true

-- No route of `rs` is a proven team over `best`.
abbrev pub NoTeam : RouteDefinition → List RouteDefinition → Type 0
NoTeam best rs = (x : RouteDefinition) → Memᴰ x rs → is_proven_team best x ≡ false

best_single :
    (rs : List RouteDefinition) (best : RouteDefinition) (others : List RouteDefinition)
    → sort key_leb (singles rs) ≡ best ∷ others
    → IsBestSingle best rs
unfolding singles
best_single rs best others e =
    let p = λ (r : RouteDefinition). is_single r.composition in
    let origin =
      All-sort (λ x. Memᴰ x rs) key_leb (keep p rs)
        (All-keep (λ x. Memᴰ x rs) p rs (All-self rs)) in
    let passes = All-sort (λ x. p x ≡ true) key_leb (keep p rs) (keep-passes p rs) in
    record {
      member = (subst (All (λ x. Memᴰ x rs)) e origin).0;
      single = (subst (All (λ x. p x ≡ true)) e passes).0;
      least = λ x m t.
          All-Memᴰ (λ y. key_leb best y ≡ true) x (keep p rs)
            (head_sort-IsLower key_leb-IsOrder best others (keep p rs) e) (keep-Memᴰ p x rs m t);
    }

best_team :
    (best : RouteDefinition) (rs : List RouteDefinition) (r : RouteDefinition)
    (others : List RouteDefinition)
    → sort team_leb (proven_teams best rs) ≡ r ∷ others
    → IsBestTeam best r rs
unfolding proven_teams
best_team best rs r others e =
    let p = is_proven_team best in
    let origin =
      All-sort (λ x. Memᴰ x rs) team_leb (keep p rs)
        (All-keep (λ x. Memᴰ x rs) p rs (All-self rs)) in
    let passes = All-sort (λ x. p x ≡ true) team_leb (keep p rs) (keep-passes p rs) in
    record {
      member = (subst (All (λ x. Memᴰ x rs)) e origin).0;
      proven = (subst (All (λ x. p x ≡ true)) e passes).0;
      most = λ x m t.
          All-Memᴰ (λ y. team_leb r y ≡ true) x (keep p rs)
            (head_sort-IsLower team_leb-IsOrder r others (keep p rs) e) (keep-Memᴰ p x rs m t);
    }

no_team :
    (best : RouteDefinition) (rs : List RouteDefinition)
    → sort team_leb (proven_teams best rs) ≡ []
    → NoTeam best rs
unfolding proven_teams
no_team best rs e x m = elim (Bool-cases (is_proven_team best x)) [
  | inr f ↦ f
  | inl t ↦ absurd (
      All-Memᴰ (λ _. ⊥) x (keep (is_proven_team best) rs)
        (All-unsort (λ _. ⊥) team_leb (keep (is_proven_team best) rs)
          (subst (All (λ _. ⊥)) (sym e) tt))
        (keep-Memᴰ (is_proven_team best) x rs m t))
]

-- The route that `_select_non_primary` returns is the least single route, if no team is proven over
-- it, or else the proven team over it with the largest gain.
pub select_non_primary-IsBest :
    (rs : List RouteDefinition) (r : RouteDefinition)
    → select_non_primary rs ≡ some r
    → (best : RouteDefinition) × IsBestSingle best rs
      × ((r ≡ best) × NoTeam best rs ⊎ IsBestTeam best r rs)
unfolding select_non_primary select_over
select_non_primary-IsBest rs r h = go (sort key_leb (singles rs)) refl h
  where
    team :
        (best : RouteDefinition) (ts : List RouteDefinition)
        → sort team_leb (proven_teams best rs) ≡ ts
        → some (first_or ts best) ≡ some r
        → (r ≡ best) × NoTeam best rs ⊎ IsBestTeam best r rs
    team best [] e k = inl (sym (some_inj k), no_team best rs e)
    team best (t ∷ ts) e k =
        inr (subst (λ x. IsBestTeam best x rs) (some_inj k) (best_team best rs t ts e))

    go :
        (bs : List RouteDefinition)
        → sort key_leb (singles rs) ≡ bs
        → select_over bs rs ≡ some r
        → (best : RouteDefinition) × IsBestSingle best rs
          × ((r ≡ best) × NoTeam best rs ⊎ IsBestTeam best r rs)
    go [] e k = absurd (cc)
    go (b ∷ bs) e k = (b, best_single rs b bs e, team b (sort team_leb (proven_teams b rs)) refl k)

-- If a single route is among them, it returns a route.
pub select_non_primary-some :
    (rs : List RouteDefinition) (r : RouteDefinition)
    → Memᴰ r rs
    → is_single r.composition ≡ true
    → (x : RouteDefinition) × (select_non_primary rs ≡ some x)
unfolding select_non_primary select_over singles
select_non_primary-some rs r m t = go (sort key_leb (singles rs)) refl
  where
    go :
        (bs : List RouteDefinition)
        → sort key_leb (singles rs) ≡ bs
        → (x : RouteDefinition) × (select_over bs rs ≡ some x)
    go [] e = absurd (
        All-Memᴰ (λ _. ⊥) r (singles rs)
          (All-unsort (λ _. ⊥) key_leb (singles rs) (subst (All (λ _. ⊥)) (sym e) tt))
          (keep-Memᴰ (λ x. is_single x.composition) r rs m t))
    go (b ∷ bs) e = (_, refl)
