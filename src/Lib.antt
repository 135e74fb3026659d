-- ===== src/Lib.antt =====
-- A verification library for data-olympus, a governed knowledge base over git.
--
-- A write to the knowledge base passes the governed lane (src/data_olympus/governed_lane.py), which
-- may demote it to the pending queue (src/data_olympus/pending.py), where an operator approves or
-- rejects it. A write that commits is queued for `git push` (src/data_olympus/push_queue.py), and a
-- commit that cannot be published goes back to the pending queue. Callers pass a rate limiter
-- (src/data_olympus/rate_limit.py), and the onboarding of a workspace a guard against a second
-- onboarding in flight (src/data_olympus/onboarding_inflight.py). Both an automatic commit and the
-- operator's resolution compare the caller's base with the target first
-- (src/data_olympus/write_gate.py). The principal of a caller comes from its bearer token
-- (src/data_olympus/principals.py). Every step leaves an event in the audit log
-- (src/data_olympus/audit_log.py). Before an agent acts, a gate asks whether it has consulted the
-- knowledge base on the action (src/data_olympus/tools_enforce.py, enforce_policy.py).
--
-- The files:
--   Base        names of the libraries and shared helpers; Base/Dicts association lists with their laws
--   Pending     src/data_olympus/pending.py: Pending/Records the JSON documents, Pending/Disk the two
--               directories and the monad of methods, Pending/Lock the path locks, Pending/Queue
--               `enqueue`, `get` and the sizes, Pending/Claim the claim and its completions,
--               Pending/Sweep the two lock sweeps, Pending/Reconcile `reconcile_claims` and
--               `claims_at_risk`. Pending/Ensures has the rules for a postcondition with a condition
--               at every crash point; Pending/Returns the completions that always return;
--               Pending/Evidence, Pending/Fencing, Pending/Survival, Pending/Handling,
--               Pending/Recovered, Pending/Steady and Pending/Refusal prove what the methods promise;
--               Pending/Held the invariant that the lock of every entry's path
--               names that entry, with a module for each group of methods that keeps it;
--               Pending/System the sequences of calls and crashes.
--   Push        src/data_olympus/push_queue.py, with Push/Survival, Push/Contention and Push/Recovery;
--               src/data_olympus/refresh.py: Push/Demote, the callback of a rebase conflict
--   Limiter     src/data_olympus/rate_limit.py, with Limiter/Window and Limiter/Refinement
--   Bootstrap   src/data_olympus/onboarding_inflight.py, with Bootstrap/Ownership
--   Access      src/data_olympus/principals.py: Access/Registry, with Access/Ownership;
--               src/data_olympus/auth.py: Access/Paths, with Access/Canonical
--   Gate        src/data_olympus/write_gate.py: Gate/Cas `check_cas`, with Gate/Stale, Gate/Documents
--               `validate_postimage`, over the types and tests of Gate/Fronts;
--               src/data_olympus/tools_write.py: Gate/Bundle the gates of
--               `commit_multifile_in_worktree`. Gate/Owners, Gate/Batch, Gate/Unique and
--               Gate/References hold their proofs
--   Audit       src/data_olympus/audit_log.py: Audit/Log the log, its chain and `verify`, Audit/Query
--               `iter_filtered`; Audit/Segments, Audit/Rotated, Audit/Chain, Audit/Append, Audit/Tamper,
--               Audit/Recent and Audit/Limit hold its proofs
--   Enforce     src/data_olympus/enforce_policy.py: Enforce/Ledger `ConsultationLedger`, Enforce/Store its
--               file, Enforce/Policy the classifier; src/data_olympus/tools_enforce.py: Enforce/Gate.
--               Enforce/Support, Enforce/Signals, Enforce/Entries, Enforce/Clearance, Enforce/Capacity,
--               Enforce/Since, Enforce/Places, Enforce/Lasting, Enforce/Renewal, Enforce/Hooks,
--               Enforce/Naming, Enforce/Pairs and Enforce/Restart hold its proofs
--   Write       src/data_olympus/tools_write.py: Write/Gates the gates of `_commit_in_worktree`,
--               Write/Commit the rest of it, over the types of Write/Answers, Write/Propose
--               `kb_propose_edit_fn`, over those of Write/Request; Write/Outcomes, Write/Passed,
--               Write/Leftovers, Write/Audited and Write/Authorised hold its proofs; Write/Resolve is
--               `kb_resolve_pending_fn`, over the types of Write/Decision, with its proofs in Write/Claimed,
--               Write/Landed, Write/Once, Write/Kept and Write/Handback
--   Search      src/data_olympus/query_expansion.py: Search/Synonyms, with Search/Groups, Search/Bounded
--               and the lists of Search/Distinct
--   Lane        Lane/Validity is src/data_olympus/format/validate.py (validity and freshness),
--               Lane/Governed src/data_olympus/governed_lane.py; Lane/Force and Lane/FailClosed hold
--               its proofs
--   Tests       runs on concrete inputs
--
-- State and operations. A method of `PendingQueue` is a program over `Disk` that returns or raises
-- and leaves the list of its file-system calls; each call is atomic (`os.link`, `os.rename`,
-- `os.unlink`, `atomic_write_json`), so a crash leaves the disk after a first part of the list. The
-- shared write serializer keeps the methods apart, so one method is one program; `path_lock` takes no
-- serializer, and its two ends are two calls of Pending/System. The push queue is a dictionary of
-- files; what `push_fn` and the demotion callback do are functions. Names of files stand without
-- their extension.
--
-- The audit log of Audit is its files as lists of lines; Enforce and Write take the log as the list of
-- what is appended to it. `_commit_in_worktree` is a function of the worktree, the claim and the push
-- queue (Write/Answers.Tree) under the answers of one run (Write/Answers.Site), which say how each
-- call of git, of the file system and of the other components ends. `kb_propose_edit_fn` runs it
-- together with the rate limiter, the governed lane and `enqueue` of the pending queue.
-- `kb_resolve_pending_fn` runs it together with the claim of the entry: the calls of the recorder
-- that took effect are replayed on the pending queue's disk, and no other caller comes between them.
--
-- Numbers. Times and ages are whole numbers in ℕ, and an age before 0 is 0. Every loop is structural
-- recursion over a listing of a directory or over a list in a document. The one loop that the source
-- bounds by nothing, the search for a free name of a rotated audit file, runs once at most for each
-- file that is there, which Audit/Rotated shows to be enough.
--
-- Parameters. The digests of hashlib and git, fresh ids and tokens, the clock, the git side, the search for a
-- claim's commit, the age of a date in days, the parsed frontmatter, the matches of the injection
-- scan, the path functions of the index, `_strict_equal` and `str.lower` are arguments. In one run of
-- `_commit_in_worktree` so is whether the path lock is free, and in the governed lane whether the
-- prediction of the write gate rejects. What `push_fn` and the callback do is fixed within one drain.
-- The text of a time in the name of a rotated audit file is an argument of the rotation.
--
-- Not modelled: the text of messages and log lines, the listing methods of the pending queue
-- (`list`, `held_locks`, `derive_running_contest`), temporary files, JSON values of unexpected types
-- beyond those that Pending/Records names, the SQL of the index, the server, the git commands, and a save of
-- the ledger that fails after the entry is in memory.
pub mod Access
pub mod Audit
pub mod Base
pub mod Bootstrap
pub mod Enforce
pub mod Gate
pub mod Lane
pub mod Limiter
pub mod Pending
pub mod Push
pub mod Search
pub mod Tests
pub mod Write
