-- ===== src/Pull/Run.antt =====
-- Run of internal/pull/pull.go: the order in which a pull tries its sources.
--
-- The steps that Run calls are parameters: the Hub's answer for the commit, the mapping, the test and the
-- writing of a snapshot, and the two pulls. The result holds the list of the steps taken, in their
-- order. The progress events are left out.
use hf_ipfs.Prelude.{
  ◌≡◌, ◌⊎◌, inl, inr, Bool, true, false, not, List, [], ◌∷◌, ◌++◌, Option, none, some, Text, codes,
  is_empty, trim_space, if◌then◌else◌, Result, ok, err, arith, Bool-cases, Result-cases,
}
use hf_ipfs.Cids.{CidLib}
use hf_ipfs.Dummy.{DummyError, from_commit}
use hf_ipfs.Mapping.Entries.{Entry, FileManifest}
use hf_ipfs.Pull.Sources.{Sources, resolve}

pub record Options : Type 0 where
  pub repo_id : Text
  pub pinned : Text
  pub ref : Text
  pub force : Bool
  pub sources : Sources

-- The requests to the Hub for the latest commit, and the steps that write: a relinked snapshot, and the two
-- pulls, each of a commit.
pub data Step : Type 0 where
  asked_latest : Step
  relinked : Text → List FileManifest → Text → Step
  from_peers : Text → Text → Step
  from_hub : Text → Text → Step

pub data RunError (E : Type 0) : Type 0 where
  no_repo_id : RunError E
  unresolved : E → RunError E
  bad_commit : DummyError → RunError E
  not_relinked : E → RunError E
  peers_failed : E → RunError E
  hub_failed : E → RunError E

-- The ways in which a pull succeeds.
pub data Done : Type 0 where
  already_present restored pulled nothing_tried : Done

pub record Steps (E : Type 0) : Type 0 where
  pub latest : Result E Text
  pub mapping_get : Text → Result E (Option Entry)
  pub snapshot_complete : Text → Bool
  pub write_snapshot : Text → List FileManifest → Text → Result E (Unit {0})
  pub pull_from_peers : Text → Text → Result E (Unit {0})
  pub pull_from_hub : Text → Text → Result E (Unit {0})

module _ {E : Type 0} (L : CidLib) (steps : Steps E) where
  open steps use {
    latest, mapping_get, snapshot_complete, write_snapshot, pull_from_peers, pull_from_hub,
  }

  -- The end of Run, where the peers were not asked or failed.
  unfoldable pub try_hub : Text → Text → Result (RunError E) Done × List Step
  try_hub commit ref = elim (pull_from_hub commit ref) [
    | ok u ↦ (ok pulled, from_hub commit ref ∷ [])
    | err e ↦ (err (hub_failed e), from_hub commit ref ∷ [])
  ]

  abbrev pub after_step :
      Step → Result (RunError E) Done × List Step → Result (RunError E) Done × List Step
  after_step s (r, taken) = (r, s ∷ taken)

  -- What follows `src := opts.Sources.resolve()`; the steps are in their order.
  unfoldable pub transfer : Sources → Text → Text → Result (RunError E) Done × List Step
  transfer src commit ref =
      if src.p2p
      then (elim (pull_from_peers commit ref) [
        | ok u ↦ (ok pulled, from_peers commit ref ∷ [])
        | err e ↦
            if not src.hf
            then (err (peers_failed e), from_peers commit ref ∷ [])
            else after_step (from_peers commit ref) (try_hub commit ref)
      ])
      else if not src.hf
      then (ok nothing_tried, [])
      else try_hub commit ref

  -- A commit that this node has a mapping for.
  unfoldable pub relink : Text → Text → Entry → Result (RunError E) Done × List Step
  relink commit ref entry =
      if snapshot_complete commit
      then (ok already_present, [])
      else elim (write_snapshot commit entry.files ref) [
        | ok u ↦ (ok restored, relinked commit entry.files ref ∷ [])
        | err e ↦ (err (not_relinked e), relinked commit entry.files ref ∷ [])
      ]

  -- The lookup behind `!opts.Force`; an error of the mapping counts for a missing entry.
  unfoldable pub local_or_transfer :
      Options → Text → Text → Result E (Option Entry) → Result (RunError E) Done × List Step
  local_or_transfer opts commit ref (ok (some entry)) =
      if not opts.force then relink commit ref entry else transfer (resolve opts.sources) commit ref
  local_or_transfer opts commit ref (ok none) = transfer (resolve opts.sources) commit ref
  local_or_transfer opts commit ref (err e) = transfer (resolve opts.sources) commit ref

  -- From the commit on.
  unfoldable pub run_commit : Options → Text → Text → Result (RunError E) Done × List Step
  run_commit opts ref commit = elim (from_commit L commit) [
    | err e ↦ (err (bad_commit e), [])
    | ok c ↦ local_or_transfer opts commit ref (mapping_get commit)
  ]

  -- Run
  unfoldable pub run : Options → Result (RunError E) Done × List Step
  run opts =
      if is_empty (trim_space opts.repo_id)
      then (err no_repo_id, [])
      else let ref = if is_empty opts.ref then codes "main" else opts.ref in
        if not (is_empty opts.pinned) then run_commit opts ref opts.pinned else (elim latest [
          | err e ↦ (err (unresolved e), asked_latest ∷ [])
          | ok commit ↦ after_step asked_latest (run_commit opts ref commit)
        ])

  -- Whether a step is the pull from the Hub.
  unfoldable pub pulls_from_hub : List Step → Bool
  pulls_from_hub [] = false
  pulls_from_hub (from_hub commit ref ∷ taken) = true
  pulls_from_hub (s ∷ taken) = pulls_from_hub taken

  -- The commit that is asked for, and the step that finds it.
  named : Options → Result E Text
  named opts = if is_empty opts.pinned then latest else ok opts.pinned

  lookups : Options → List Step
  lookups opts = if is_empty opts.pinned then asked_latest ∷ [] else []

  ref_of : Options → Text
  ref_of opts = if is_empty opts.ref then codes "main" else opts.ref

  -- The pulls where the Hub stands second, or alone.
  abbrev both_pulls : Bool → Text → Text → List Step
  both_pulls true commit ref = from_peers commit ref ∷ from_hub commit ref ∷ []
  both_pulls false commit ref = from_hub commit ref ∷ []

  -- The pull from the Hub is the last step, and it is selected. Only if the peers are not selected it
  -- stands without the pull of the same commit from them, which failed.
  IsSecond : Sources → Text → Text → List Step → Type 0
  IsSecond src commit ref taken =
      (src.hf ≡ true)
      × (taken ≡ both_pulls src.p2p commit ref)
      × ((src.p2p ≡ false) ⊎ ((e : E) × (pull_from_peers commit ref ≡ err e)))

  pub IsFallback : Options → List Step → Type 0
  IsFallback opts taken =
      (commit : Text) × (named opts ≡ ok commit)
      × (rest : List Step) × (taken ≡ lookups opts ++ rest)
      × IsSecond (resolve opts.sources) commit (ref_of opts) rest

  transfer-IsSecond :
      (src : Sources) (commit ref : Text)
      → pulls_from_hub (transfer src commit ref).1 ≡ true
      → IsSecond src commit ref (transfer src commit ref).1
  unfolding transfer try_hub pulls_from_hub IsSecond
  transfer-IsSecond src commit ref h = elim (Result-cases (pull_from_hub commit ref)) [
    | inl (v, fetched) ↦ elim (Bool-cases src.p2p) [
      | inr off ↦ (ground (arith, off), ground (arith, off, fetched, h), inl off)
      | inl on ↦ elim (Result-cases (pull_from_peers commit ref)) [
        | inl (u, delivered) ↦ absurd (ground (arith, on, delivered))
        | inr (e, failed) ↦
            (ground (arith, on, failed), ground (arith, on, failed, fetched, h), inr (e, failed))
      ]
    ]
    | inr (w, broken) ↦ elim (Bool-cases src.p2p) [
      | inr off ↦ (ground (arith, off), ground (arith, off, broken, h), inl off)
      | inl on ↦ elim (Result-cases (pull_from_peers commit ref)) [
        | inl (u, delivered) ↦ absurd (ground (arith, on, delivered))
        | inr (e, failed) ↦
            (ground (arith, on, failed), ground (arith, on, failed, broken, h), inr (e, failed))
      ]
    ]
  ]

  relink-pulls_from_hub :
      (commit ref : Text) (entry : Entry) → pulls_from_hub (relink commit ref entry).1 ≡ false
  unfolding relink pulls_from_hub
  relink-pulls_from_hub commit ref entry =
      elim (Result-cases (write_snapshot commit entry.files ref)) [
        | inl (u, written) ↦ ground (arith, written)
        | inr (e, failed) ↦ ground (arith, failed)
      ]

  local-IsSecond :
      (opts : Options) (commit ref : Text) (r : Result E (Option Entry))
      → pulls_from_hub (local_or_transfer opts commit ref r).1 ≡ true
      → IsSecond (resolve opts.sources) commit ref (local_or_transfer opts commit ref r).1
  unfolding local_or_transfer
  local-IsSecond opts commit ref (err e) h = transfer-IsSecond (resolve opts.sources) commit ref h
  local-IsSecond opts commit ref (ok none) h = transfer-IsSecond (resolve opts.sources) commit ref h
  local-IsSecond opts commit ref (ok (some entry)) h = elim (Bool-cases opts.force) [
    | inl forced ↦
        rw forced (transfer-IsSecond (resolve opts.sources) commit ref (ground (arith, forced, h)))
    | inr careful ↦ absurd (ground (arith, careful, h, relink-pulls_from_hub commit ref entry))
  ]

  commit-IsSecond :
      (opts : Options) (ref commit : Text)
      → pulls_from_hub (run_commit opts ref commit).1 ≡ true
      → IsSecond (resolve opts.sources) commit ref (run_commit opts ref commit).1
  unfolding run_commit pulls_from_hub
  commit-IsSecond opts ref commit h = elim (Result-cases (from_commit L commit)) [
    | inr (e, bad) ↦ absurd (ground (arith, bad))
    | inl (c, known) ↦
        rw (known, run_commit)
          (local-IsSecond opts commit ref (mapping_get commit) (ground (arith, known, h)))
  ]

  -- A pull that comes to the pull from the Hub has the Hub among its sources. Its steps are, in their order:
  -- the request for the latest commit, if none is pinned; the pull of the commit from the peers, if these are
  -- selected, which failed; and the pull of the same commit from the Hub.
  pub run-IsFallback :
      (opts : Options) → pulls_from_hub (run opts).1 ≡ true → IsFallback opts (run opts).1
  unfolding run pulls_from_hub IsFallback named lookups ref_of
  run-IsFallback opts h = elim (Bool-cases (is_empty (trim_space opts.repo_id))) [
    | inl missing ↦ absurd (ground (arith, missing))
    | inr given ↦
        let ref = if is_empty opts.ref then codes "main" else opts.ref in
        elim (Bool-cases (is_empty opts.pinned)) [
          | inr pinned ↦ (
            opts.pinned,
            ground (arith, pinned),
            (run_commit opts ref opts.pinned).1,
            ground (arith, given, pinned),
            commit-IsSecond opts ref opts.pinned (ground (arith, given, pinned, h)),
          )
          | inl open_ended ↦ elim (Result-cases latest) [
            | inr (e, failed) ↦ absurd (ground (arith, given, open_ended, failed))
            | inl (commit, found) ↦ (
              commit,
              ground (arith, open_ended, found),
              (run_commit opts ref commit).1,
              ground (arith, given, open_ended, found),
              commit-IsSecond opts ref commit (ground (arith, given, open_ended, found, h)),
            )
          ]
        ]
  ]
