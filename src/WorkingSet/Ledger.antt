-- ===== src/WorkingSet/Ledger.antt =====
-- `_CountLedger` of src/agent_continuity/working_set.py: exact counts, each text counted once. The
-- token counter is a parameter.
use local_ai_coding_agent.Common.{
  ℕ, String, [], ◌∷◌, ◌++◌, Option, none, some, Result, ok, err, ok_inj, contract_error, Dict, get,
  ◌≡◌, refl, sym, subst, Succeeds, AllEntries, AllEntries-get, AllEntries-append,
}

-- What a token counter does: it gives a count, or a value that is none, or it raises.
pub data Counted : Type 0 where
  counted : ℕ → Counted
  invalid raised : Counted

-- A count, and the cache after it.
pub record Count : Type 0 where
  pub tokens : ℕ
  pub cache : Dict ℕ

-- The counter's value is checked and cached.
unfoldable pub fresh_count : Dict ℕ → String → Counted → Result Count
fresh_count cache text (counted n) = ok (record { tokens = n; cache = cache ++ (text, n) ∷ [] })
fresh_count cache text invalid = err (contract_error "token counter returned an invalid count")
fresh_count cache text raised = err (contract_error "token counter failed")

module _ (counter : String → Counted) where
  unfoldable pub cached_count : Dict ℕ → String → Option ℕ → Result Count
  unfolding fresh_count
  cached_count cache text (some n) = ok (record { tokens = n; cache = cache })
  cached_count cache text none = fresh_count cache text (counter text)

  -- `_CountLedger.count`
  unfoldable pub count : Dict ℕ → String → Result Count
  count cache text = cached_count cache text (get text cache)

  -- Each cached count is the counter's own.
  abbrev pub IsExact : Dict ℕ → Type 0
  IsExact cache = AllEntries (λ t n. counter t ≡ counted n) cache

  -- The count is the counter's, and the cache stays exact.
  abbrev pub IsCounted : String → Count → Type 0
  IsCounted text c = (counter text ≡ counted c.tokens) × IsExact c.cache

  fresh_count-IsCounted :
      (cache : Dict ℕ) (text : String) (o : Counted) {c : Count}
      → IsExact cache
      → counter text ≡ o
      → fresh_count cache text o ≡ ok c
      → IsCounted text c
  unfolding fresh_count
  fresh_count-IsCounted cache text (counted n) exact e h =
      subst (IsCounted text) (ok_inj h)
        (e, AllEntries-append (λ t n. counter t ≡ counted n) cache text n exact e)
  fresh_count-IsCounted cache text invalid exact e h = absurd (cc)
  fresh_count-IsCounted cache text raised exact e h = absurd (cc)

  cached_count-IsCounted :
      (cache : Dict ℕ) (text : String) (o : Option ℕ) {c : Count}
      → IsExact cache
      → get text cache ≡ o
      → cached_count cache text o ≡ ok c
      → IsCounted text c
  unfolding cached_count
  cached_count-IsCounted cache text (some n) exact e h =
      subst (IsCounted text) (ok_inj h)
        (AllEntries-get (λ t n. counter t ≡ counted n) text cache exact e, exact)
  cached_count-IsCounted cache text none exact e h =
      fresh_count-IsCounted cache text (counter text) exact refl h

  pub count-IsCounted :
      (cache : Dict ℕ) (text : String) {c : Count}
      → IsExact cache
      → count cache text ≡ ok c
      → IsCounted text c
  unfolding count
  count-IsCounted cache text exact h =
      cached_count-IsCounted cache text (get text cache) exact refl h

  -- A text that the counter counts is counted.
  pub count_total :
      (cache : Dict ℕ) (text : String) {n : ℕ}
      → counter text ≡ counted n
      → Succeeds (count cache text)
  unfolding count cached_count fresh_count
  count_total cache text {n} e = go (get text cache)
    where
      go : (o : Option ℕ) → Succeeds (cached_count cache text o)
      go (some k) = (_, refl)
      go none = subst (λ o. Succeeds (fresh_count cache text o)) (sym e) (_, refl)
