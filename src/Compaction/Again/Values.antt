-- ===== src/Compaction/Again/Values.antt =====
-- The validators of values in src/agent_continuity/compaction.py accept what they returned, again and
-- unchanged.
use local_ai_coding_agent.Common.{
  ℕ, suc, ◌+◌, Bool, true, not, ◌&&◌, ◌||◌, String, List, [], ◌∷◌, map, Option, none, some, Result,
  ok, ok_inj, ◌>>=◌, bind_inv, guard-eq-ok, item, ◌≡◌, refl, sym, subst, ap, ◌∙◌, arith, Dict, Json,
  str, int, pos, negsuc, arr, obj, null, bool, float, cons, str_items, items_list, get, leb, length,
  codes, is_empty, is_duplicate_free, ◌==◌,
}
use local_ai_coding_agent.Routing.Fields.{is_digest}
use local_ai_coding_agent.Compaction.Values.{
  state_text, is_trimmed, max_text, max_items, is_stable_id, state_identifier, state_sha256,
  state_list, id_list, state_items, parse_each, field_path, item_path,
}
use local_ai_coding_agent.Compaction.Times.{utc, read_time, check_time}
use local_ai_coding_agent.Compaction.Items.{read, read_word, read_proof, positive}
use local_ai_coding_agent.Compaction.State.{json_each, list_json}

-- What the validator returned it accepts in its JSON form, under any path.
abbrev pub Again {ℓ} : {A : Type ℓ} → (Json → String → Result A) → (A → Json) → Type ℓ
Again {A} parse json =
    (v : Json) (path q : String) (x : A) → parse v path ≡ ok x → parse (json x) q ≡ ok x

pub text-Again : Again state_text str
unfolding state_text
text-Again (str s) path q x h =
    let (t, h1) = guard-eq-ok (is_trimmed s) _ _ h in
    let (l, h2) = guard-eq-ok (leb (length (codes s)) max_text) _ (ok s) h1 in
    subst (λ x. state_text (str x) q ≡ ok x) (ok_inj h2) (rw (t, l))
text-Again null path q x h = absurd (cc)
text-Again (bool b) path q x h = absurd (cc)
text-Again (int n) path q x h = absurd (cc)
text-Again (float s) path q x h = absurd (cc)
text-Again (arr vs) path q x h = absurd (cc)
text-Again (obj fs) path q x h = absurd (cc)

pub identifier-Again : Again state_identifier str
unfolding state_identifier
identifier-Again v path q x h = bind_inv (state_text v path) _ h λ s e h1.
    let (t, h2) = guard-eq-ok (is_stable_id s) _ (ok s) h1 in
    subst (λ x. state_identifier (str x) q ≡ ok x) (ok_inj h2) (rw (text-Again v path q s e, t))

pub sha256-Again : Again state_sha256 str
unfolding state_sha256
sha256-Again v path q x h = bind_inv (state_text v path) _ h λ s e h1.
    let (t, h2) = guard-eq-ok (is_digest s) _ (ok s) h1 in
    subst (λ x. state_sha256 (str x) q ≡ ok x) (ok_inj h2) (rw (text-Again v path q s e, t))

check_time-Again :
    (o : Option (List ℕ)) (path q : String) → check_time o path ≡ ok tt → check_time o q ≡ ok tt
unfolding check_time
check_time-Again none path q h = absurd (cc)
check_time-Again (some ns) path q h = ground arith

pub utc-Again : Again utc str
unfolding utc
utc-Again v path q x h = bind_inv (state_text v path) _ h λ s e h1.
    bind_inv (check_time (read_time s) path) _ h1 λ _ t h2.
      subst (λ x. utc (str x) q ≡ ok x) (ok_inj h2)
        (rw (text-Again v path q s e, check_time-Again (read_time s) path q t))

pub positive-Again : Again positive (λ n. int (pos n))
unfolding positive
positive-Again (int (pos n)) path q x h =
    let (t, h1) = guard-eq-ok (leb 1 n) _ (ok n) h in
    subst (λ x. positive (int (pos x)) q ≡ ok x) (ok_inj h1) (rw t)
positive-Again (int (negsuc n)) path q x h = absurd (cc)
positive-Again null path q x h = absurd (cc)
positive-Again (bool b) path q x h = absurd (cc)
positive-Again (float s) path q x h = absurd (cc)
positive-Again (str s) path q x h = absurd (cc)
positive-Again (arr vs) path q x h = absurd (cc)
positive-Again (obj fs) path q x h = absurd (cc)

module _ {ℓ} {A : Type ℓ} (parse : Json → String → Result A) (json : A → Json)
    (again : Again parse json) where
  pub read-Again :
      (raw : Dict Json) (path name q : String) (x : A)
      → read parse raw path name ≡ ok x
      → parse (json x) q ≡ ok x
  unfolding read
  read-Again raw path name q x h =
      bind_inv (item (get name raw)) _ h λ v e h1. again v (field_path path name) q x h1

  parse_each-Again :
      (path q : String) (i j : ℕ) (vs : List Json) (xs : List A)
      → parse_each parse path i vs ≡ ok xs
      → parse_each parse q j (items_list (json_each json xs)) ≡ ok xs
  unfolding parse_each
  parse_each-Again path q i j [] xs h =
      subst (λ xs. parse_each parse q j (items_list (json_each json xs)) ≡ ok xs) (ok_inj h) refl
  parse_each-Again path q i j (v ∷ vs) xs h = bind_inv (parse v (item_path path i)) _ h λ x e h1.
      bind_inv (parse_each parse path (i + 1) vs) _ h1 λ ys es h2.
        subst (λ xs. parse_each parse q j (items_list (json_each json xs)) ≡ ok xs) (ok_inj h2)
          (rw (
            again v (item_path path i) (item_path q j) x e,
            parse_each-Again path q (i + 1) (j + 1) vs ys es,
          ))

  -- There are as many parsed items as values.
  parse_each-length :
      (path : String) (i : ℕ) (vs : List Json) (xs : List A)
      → parse_each parse path i vs ≡ ok xs
      → length (items_list (json_each json xs)) ≡ length vs
  unfolding parse_each
  parse_each-length path i [] xs h =
      subst (λ xs. length (items_list (json_each json xs)) ≡ 0) (ok_inj h) refl
  parse_each-length path i (v ∷ vs) xs h = bind_inv (parse v (item_path path i)) _ h λ x e h1.
      bind_inv (parse_each parse path (i + 1) vs) _ h1 λ ys es h2.
        subst (λ xs. length (items_list (json_each json xs)) ≡ suc (length vs)) (ok_inj h2)
          (ap suc (parse_each-length path (i + 1) vs ys es))

  list-Again :
      (v : Json) (path q : String) (vs : List Json) (xs : List A)
      → state_list v path ≡ ok vs
      → parse_each parse path 0 vs ≡ ok xs
      → state_list (list_json json xs) q ≡ ok (items_list (json_each json xs))
  unfolding state_list
  list-Again (arr items) path q vs xs h p =
      let (t, h1) =
        guard-eq-ok (leb (length (items_list items)) max_items) _ (ok (items_list items)) h in
      let same = parse_each-length path 0 vs xs p ∙ ap length (sym (ok_inj h1)) in
      rw (subst (λ n. leb n max_items ≡ true) (sym same) t)
  list-Again null path q vs xs h p = absurd (cc)
  list-Again (bool b) path q vs xs h p = absurd (cc)
  list-Again (int n) path q vs xs h p = absurd (cc)
  list-Again (float s) path q vs xs h p = absurd (cc)
  list-Again (str s) path q vs xs h p = absurd (cc)
  list-Again (obj fs) path q vs xs h p = absurd (cc)

  pub items-Again :
      (name : String) (identity : A → String)
      → Again (state_items parse name identity) (list_json json)
  unfolding state_items
  items-Again name identity v path q xs h = bind_inv (state_list v path) _ h λ vs e h1.
      bind_inv (parse_each parse path 0 vs) _ h1 λ ys es h2.
        let (t, h3) = guard-eq-ok (is_duplicate_free (map identity ys)) _ (ok ys) h2 in
        subst (λ xs. state_items parse name identity (list_json json xs) q ≡ ok xs) (ok_inj h3)
          (rw (list-Again v path q vs ys e es, parse_each-Again path q 0 0 vs ys es, t))

-- Texts are the JSON form of a list of identifiers.
json_each-str : (xs : List String) → json_each str xs ≡ str_items xs
json_each-str [] = refl
json_each-str (x ∷ xs) = ap (cons (str x)) (json_each-str xs)

pub id_list-Again : Again id_list (λ ids. arr (str_items ids))
unfolding id_list
id_list-Again v path q xs h = bind_inv (state_list v path) _ h λ vs e h1.
    bind_inv (parse_each state_identifier path 0 vs) _ h1 λ ys es h2.
      let (t, h3) = guard-eq-ok (is_duplicate_free ys) _ (ok ys) h2 in
      subst (λ xs. id_list (arr (str_items xs)) q ≡ ok xs) (ok_inj h3)
        (subst (λ items. id_list (arr items) q ≡ ok ys) (json_each-str ys)
          (rw (
            list-Again state_identifier str identifier-Again v path q vs ys e es,
            parse_each-Again state_identifier str identifier-Again path q 0 0 vs ys es,
            t,
          )))

-- What is known of a word, and of identifiers that may have to be present.
pub read_word-Again :
    (raw : Dict Json) (path name first second q : String) (s : String)
    → read_word raw path name first second ≡ ok s
    → (state_text (str s) q ≡ ok s) × ((s == first || s == second) ≡ true)
unfolding read_word
read_word-Again raw path name first second q s h =
    bind_inv (read state_text raw path name) _ h λ t e h1.
      let (w, h2) = guard-eq-ok (t == first || t == second) _ (ok t) h1 in
      subst (λ s. (state_text (str s) q ≡ ok s) × ((s == first || s == second) ≡ true)) (ok_inj h2)
        (read-Again state_text str text-Again raw path name q t e, w)

pub read_proof-Again :
    (needed : Bool) (raw : Dict Json) (path name complaint q : String) (ids : List String)
    → read_proof needed raw path name complaint ≡ ok ids
    → (id_list (arr (str_items ids)) q ≡ ok ids) × (not (needed && is_empty ids) ≡ true)
unfolding read_proof
read_proof-Again needed raw path name complaint q ids h =
    bind_inv (read id_list raw path name) _ h λ xs e h1.
      let (w, h2) = guard-eq-ok (not (needed && is_empty xs)) _ (ok xs) h1 in
      subst
        (λ ids. (id_list (arr (str_items ids)) q ≡ ok ids) × (not (needed && is_empty ids) ≡ true))
        (ok_inj h2)
        (read-Again id_list (λ ids. arr (str_items ids)) id_list-Again raw path name q xs e, w)

-- A field that was read is accepted again; the rest of a proof goes on with the rest of the block.
module _ {ℓ κ ν} {A : Type ℓ} {B : Type κ} {C : Type ν} (raw : Dict Json) (path q : String) where
  pub read_inv :
      (parse : Json → String → Result A) (json : A → Json)
      → Again parse json
      → (name : String) (f : A → Result B) {b : B} → (read parse raw path name >>= f) ≡ ok b
      → ((x : A) → parse (json x) (field_path q name) ≡ ok x → f x ≡ ok b → C)
      → C
  read_inv parse json again name f h k =
      bind_inv (read parse raw path name) f h
        λ x e h1. k x (read-Again parse json again raw path name (field_path q name) x e) h1

module _ {κ ν} {B : Type κ} {C : Type ν} (raw : Dict Json) (path q : String) where
  pub word_inv :
      (name first second : String) (f : String → Result B) {b : B}
      → (read_word raw path name first second >>= f) ≡ ok b
      → ((s : String)
          → state_text (str s) (field_path q name) ≡ ok s
          → (s == first || s == second) ≡ true
          → f s ≡ ok b
          → C)
      → C
  word_inv name first second f h k = bind_inv (read_word raw path name first second) f h λ s e h1.
      let (w, t) = read_word-Again raw path name first second (field_path q name) s e in k s w t h1

  pub proof_inv :
      (needed : Bool) (name complaint : String) (f : List String → Result B) {b : B}
      → (read_proof needed raw path name complaint >>= f) ≡ ok b
      → ((ids : List String)
          → id_list (arr (str_items ids)) (field_path q name) ≡ ok ids
          → not (needed && is_empty ids) ≡ true
          → f ids ≡ ok b
          → C)
      → C
  proof_inv needed name complaint f h k =
      bind_inv (read_proof needed raw path name complaint) f h λ ids e h1.
        let (w, t) = read_proof-Again needed raw path name complaint (field_path q name) ids e in
        k ids w t h1
