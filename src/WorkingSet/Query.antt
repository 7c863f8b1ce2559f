-- ===== src/WorkingSet/Query.antt =====
-- `build_literal_query` of src/agent_continuity/working_set.py.
use local_ai_coding_agent.Common.{
  String, List, [], ◌∷◌, ◌++◌, map, Bool, true, not, Result, ok, ok_inj, contract_error, guard,
  ◌>>=◌, ◌>>◌, map_result, map_result-cons, bind_inv, guard-eq-ok, ◌≡◌, ◌≢◌, refl, sym, ap, subst,
  append_none, contains, all-contains, eq_iff, ◌∙◌, arith, all, ◌==◌, join,
}

pub record QueryComponent : Type 0 where
  pub kind : String
  pub literal : String

-- `QueryInput`
pub record QueryInput : Type 0 where
  pub request : String
  pub file_symbols : List String
  pub errors : List String
  pub tools : List String
  pub blockers : List String

-- A query input is a non-empty text.
abbrev pub is_literal : String → Bool
is_literal s = not (s == "")

unfoldable pub query_component : String → String → Result QueryComponent
query_component kind value = do
  guard (is_literal value) (contract_error "query inputs must be non-empty text")
  ok (record { kind = kind; literal = value })

-- The inner loop, over the values of a group.
unfoldable pub group_components : String → List String → Result (List QueryComponent)
group_components kind values = map_result (query_component kind) values

unfoldable pub query_components : List (String × List String) → Result (List QueryComponent)
query_components [] = ok []
query_components (g ∷ gs) = do
  cs ← group_components g.0 g.1
  ds ← query_components gs
  ok (cs ++ ds)

abbrev pub query_groups : String → QueryInput → List (String × List String)
query_groups objective q =
    ("request", q.request ∷ [])
    ∷ ("objective", objective ∷ [])
    ∷ ("file_symbol", q.file_symbols)
    ∷ ("error", q.errors)
    ∷ ("tool", q.tools)
    ∷ ("blocker", q.blockers)
    ∷ []

unfoldable pub build_literal_query : String → QueryInput → Result (String × List QueryComponent)
build_literal_query objective q = do
  cs ← query_components (query_groups objective q)
  ok (join "\n" (map (λ c. c.literal) cs), cs)

-- The texts of all groups, in order.
abbrev pub inputs : List (String × List String) → List String
inputs [] = []
inputs (g ∷ gs) = g.1 ++ inputs gs

abbrev pub literals : List QueryComponent → List String
literals cs = map (λ c. c.literal) cs

group_components-literals :
    (kind : String) (values : List String) {cs : List QueryComponent}
    → group_components kind values ≡ ok cs
    → (literals cs ≡ values) × (all is_literal values ≡ true)
unfolding group_components query_component
group_components-literals kind [] h = (ap literals (sym (ok_inj h)), refl)
group_components-literals kind (v ∷ vs) {cs} h =
    let (c, cs1, e1, e2, e3) = map_result-cons (query_component kind) v vs h in
    let (t, e4) =
      guard-eq-ok (is_literal v) (contract_error "query inputs must be non-empty text") (ok _) e1 in
    let (k, a) = group_components-literals kind vs e2 in
    (
      ap literals e3 ∙ ap (λ c. c.literal ∷ literals cs1) (sym (ok_inj e4)) ∙ ap (λ xs. v ∷ xs) k,
      rw (t, a),
    )

literals-append : (cs ds : List QueryComponent) → literals (cs ++ ds) ≡ literals cs ++ literals ds
literals-append [] ds = refl
literals-append (c ∷ cs) ds = ap (λ xs. c.literal ∷ xs) (literals-append cs ds)

all-append :
    (p : String → Bool) (xs ys : List String)
    → all p xs ≡ true
    → all p ys ≡ true
    → all p (xs ++ ys) ≡ true
all-append p [] ys a b = b
all-append p (x ∷ xs) ys a b = ground (arith, all-append p xs ys)

query_components-literals :
    (gs : List (String × List String)) {cs : List QueryComponent}
    → query_components gs ≡ ok cs
    → (literals cs ≡ inputs gs) × (all is_literal (inputs gs) ≡ true)
unfolding query_components
query_components-literals [] h = (ap literals (sym (ok_inj h)), refl)
query_components-literals (g ∷ gs) h = bind_inv (group_components g.0 g.1) _ h λ cs e1 h1.
    bind_inv (query_components gs) _ h1 λ ds e2 h2.
      let (k, a) = group_components-literals g.0 g.1 e1 in
      let (l, b) = query_components-literals gs e2 in
      (
        ap literals (sym (ok_inj h2))
            ∙ literals-append cs ds
            ∙ ap (λ xs. xs ++ literals ds) k
            ∙ ap (λ ys. g.1 ++ ys) l,
        all-append is_literal g.1 (inputs gs) a b,
      )

-- What a caller asks: the request, the objective, the file symbols, the errors, the tools and the
-- blockers.
abbrev pub asked_texts : String → QueryInput → List String
asked_texts objective q =
    q.request ∷ objective ∷ (q.file_symbols ++ (q.errors ++ (q.tools ++ q.blockers)))

groups-asked :
    (objective : String) (q : QueryInput)
    → inputs (query_groups objective q) ≡ asked_texts objective q
groups-asked objective q =
    ap (λ l. q.request ∷ objective ∷ (q.file_symbols ++ (q.errors ++ (q.tools ++ l))))
      (append_none q.blockers)

-- A query that is built holds the request, the objective, the file symbols, the errors, the tools
-- and the blockers in this order, each non-empty and unchanged, joined by line breaks.
pub build_literal_query-literals :
    (objective : String) (q : QueryInput) {r : String × List QueryComponent}
    → build_literal_query objective q ≡ ok r
    → (r.0 ≡ join "\n" (asked_texts objective q))
      × (literals r.1 ≡ asked_texts objective q)
      × ((s : String) → contains s (asked_texts objective q) ≡ true → s ≢ "")
unfolding build_literal_query
build_literal_query-literals objective q h =
    bind_inv (query_components (query_groups objective q)) _ h λ cs e1 h1.
      let (k, a) = query_components-literals (query_groups objective q) e1 in
      let same = groups-asked objective q in
      (
        ap (λ r. r.0) (sym (ok_inj h1)) ∙ ap (join "\n") (k ∙ same),
        ap (λ r. literals r.1) (sym (ok_inj h1)) ∙ k ∙ same,
        λ s m e.
            let t =
              all-contains is_literal s (asked_texts objective q)
                (subst (λ l. all is_literal l ≡ true) same a) m in
            absurd (ground (arith, eq_iff s "")),
      )
