-- ===== src/Lib.antt =====
-- Verification library of the local coding agent (the Python package src/agent_continuity).
--
-- Routing (src/agent_continuity/routing.py) is the agent's pure control plane. A manifest is
-- validated, a request and a snapshot of the runtime are matched against its routes, and a decision
-- with its evidence and its reasons is returned. A Python exception is an error value (Common/Results);
-- `key_error` is a failed subscript. A mapping is a list of entries in order of insertion (Common/Dicts),
-- a set a list that is asked for membership (Common/Sets), `sorted` a stable insertion sort
-- (Common/Orders, Common/SortedSets).
--   Routing/Types: the dataclasses. Routing/Fields: the regular expressions and `_text`.
--   Routing/Validation: `_validate_cross_references`, one child for each of its loops; Soundness and
--   Governance hold what a validated manifest satisfies.
--   Routing/Locality, Routing/Eligibility: `_route_is_local`, `_runtime_references_are_known`,
--   `_consider_route`; Routing/Permission describes eligibility without the code.
--   Routing/Selection: `_select_non_primary` (Ranking), the evidence of a decision (Evidence) and
--   `select_route`; Origin, Routing/Totality and Routing/Decisions hold the proofs, and
--   Routing/Decisions/Merits the order of the routes without the code.
--   Routing/Canonical: the `canonical` methods. Routing/Adjudication: `adjudicate_qualification_status`.
--   Routing/Requests: what the constructors of a request and a snapshot check.
--   Routing/WellFormed: what the manifest's parsers guarantee. Routing/Tests: a small manifest.
--   Routing/Parsing: the parsers over decoded JSON, one child for each part of the manifest; Manifest
--   has `validate_routing_manifest`, and Soundness, WellFormed and Acceptance the proofs. What the
--   source observes of an evidence file under the root is a parameter, a function of its path.
-- A message of an exception is kept as its fixed words, without the identifiers put into it. The hash
-- function is a parameter, from the canonical JSON value to the text of its hash. Every loop is over a
-- list, so nothing takes fuel.
--
-- Working sets (src/agent_continuity/working_set.py): WorkingSet packs a task state and the memories
-- that were retrieved for it into a text for the model, within fixed budgets of tokens.
--   WorkingSet/Types: the records. WorkingSet/Ledger: `_CountLedger`. WorkingSet/Query:
--   `build_literal_query`. WorkingSet/Blocks: `_provenance` and `_memory_block`.
--   WorkingSet/Packing: the loop of `pack_working_set`, from the state and the candidates on; Reasons
--   describes an audit's reasons without the code, Steps is the step relation, Loop,
--   Bounds and Totality hold the proofs. WorkingSet/Scopes: `MemoryScope` and the
--   normalized scopes. WorkingSet/Task: `_load_current_state` and the whole of `pack_working_set`, which
--   reads the table of Memory/States; Task/Currency holds the proofs.
-- The token counter and the JSON encoder are parameters. A counter is a function of the text, which the
-- ledger asks at most once for each text.
--
-- Compaction (src/agent_continuity/compaction.py) is the boundary that a compacted task state passes.
--   Compaction/Types: the normalized state. Compaction/Values, Compaction/Times, Compaction/Items: the
--   validators (`_object` to `_dispute`). Compaction/State: `validate_task_state` and the state's hash.
--   Compaction/References: `_check_references`, `_check_source_range`. Compaction/Invariants:
--   `_check_invariants`. Compaction/Proposal: `validate_compaction_proposal`. Compaction/Chain:
--   `validate_state_chain`. Compaction/Reports: the results' dictionaries.
--   Compaction/Again, Compaction/Errors, Compaction/Preserved and Compaction/Chain/Links hold the proofs.
-- The resolver is a parameter that answers or raises; the hash of a canonical state is one too. Messages
-- are whole here, since issues are ordered by them.
--
-- Memory (src/agent_continuity/memory_store.py) is the event log and the tables that are projected
-- from it.
--   Memory/States: `_normalize_payload` of a `state/committed` event and `_apply_task_state`, as
--   `append` calls them one event after the other; that an identifier is a UUID and new, the actor, the
--   scope and the segment are not checked here, and it is not the sorted loop of `replay`.
--   Memory/Ledger: the proofs on the table `task_state`; Memory/Payloads: what a log commits;
--   Memory/Errors: those on what a commit raises. Memory/Order: the `visit` of
--   `_projection_order`, with Topological, Replay and Totality for the proofs. Compaction/Samples has
--   the task states of the tests.
-- The recursion of `visit` is on fuel, the number of commits. A path of superseded commits without a
-- cycle has no more commits than there are, so the fuel is enough; without fuel, as on a cycle, the
-- error is the source's. A payload's revision `True` counts as 1, to which it is equal.
--
-- Retention (src/agent_continuity/retention.py) is the contract of a retention plan.
--   Retention: decisions, `__post_init__`, `as_dict` and `from_value`. Retention/Plan: the plan, `verify`,
--   `create` and its JSON form. Retention/RoundTrip: the proofs.
-- The digest of a plan and Python's `str` are parameters; of `str` it is used that it keeps texts.
--
-- Not modelled: the store's search, its lock, its other tables and its files, the HTTP client of the llama.cpp counter, reading
-- the manifest's file (load_routing_manifest), the JSON encoder and decoder themselves, and the
-- other modules of the package, which read files, databases and the network.
pub mod Common
pub mod Compaction
pub mod Memory
pub mod Retention
pub mod Routing
pub mod WorkingSet
