-- ===== src/Controls.antt =====
-- handle and Call of internal/controls/controls.go, with ControlRequest and ControlEvent of
-- internal/wire/wire.go: the commands of a client, and the events that answer them.
--
-- The operations that a command starts are the record `Ops`, over a state of their own. A connection takes
-- every event; what a client that has gone away does to an operation is not modelled.
pub mod Answers
use hf_ipfs.Prelude.{
  ℕ, Bool, true, false, List, [], ◌∷◌, ◌++◌, Option, none, some, Text, codes, text_eq, is_empty,
  map, if◌then◌else◌, Result, ok, err,
}
use hf_ipfs.Prelude.Int64.{ℤ, pos}
use hf_ipfs.Mapping.Entries.{Entry}
use hf_ipfs.Hfcache.RepoNames.{RepoType, parse_repo_type}
use hf_ipfs.Pull.Sources.{Sources, SourceError, parse_sources}

pub record Request : Type 0 where
  pub cmd : Text
  pub repo_id : Text
  pub repo_type : Text
  pub commit : Text
  pub ref : Text
  pub peers : List Text
  pub connect : List Text
  pub force : Bool
  pub sources : Text
  pub token : Text

pub record Event : Type 0 where
  pub event_type : Text
  pub message : Text
  pub bytes : ℤ
  pub total : ℤ

abbrev pub event : Text → Text → Event
event t m = record { event_type = t; message = m; bytes = pos 0; total = pos 0 }

abbrev pub progress : Text → Event
progress m = event (codes "progress") m

abbrev pub done : Text → Event
done m = event (codes "done") m

abbrev pub failed : Text → Event
failed m = event (codes "error") m

-- The operations, with the events that pull.Run sends itself, the progress lines of the others, and the
-- texts of errors and of what was done.
pub record Ops (S : Type 0) : Type 0 where
  pub pull_run : Request → RepoType → Sources → S → (List Event × Option Text) × S
  pub current_commit : RepoType → Text → Text → S → Result Text Text
  pub ingest_run : Text → RepoType → Text → S → (List Text × Result Text Text) × S
  pub list : S → Result Text (List Entry)
  pub get : Text → S → Result Text (Option Entry)
  pub evict_commit : Entry → S → (List Text × Option Text) × S
  pub evict_repo : Text → S → (List Text × Result Text Text) × S
  pub close_shutdown : S → S
  pub status_line : S → Text
  pub listed_line : Entry → Text
  pub listed_count : List Entry → Text
  pub evicted_line : Entry → Text
  pub type_error : Text → Text
  pub source_error : SourceError → Text

module _ {S : Type 0} (ops : Ops S) where
  -- The error event, if there was an error.
  abbrev pub on_error : Option Text → List Event
  on_error none = []
  on_error (some m) = failed m ∷ []

  -- An operation that reports progress, and then how it ended.
  abbrev pub answer_of : List Text × Result Text Text → List Event
  answer_of (lines, err m) = map progress lines ++ failed m ∷ []
  answer_of (lines, ok m) = map progress lines ++ done m ∷ []

  unfoldable pub handle_pull : Request → S → List Event × S
  handle_pull req s = elim (parse_repo_type req.repo_type) [
    | err text ↦ (failed (ops.type_error text) ∷ [], s)
    | ok t ↦ elim (parse_sources req.sources) [
      | err e ↦ (failed (codes "pull: " ++ ops.source_error e) ∷ [], s)
      | ok src ↦
          let ((events, problem), after) = ops.pull_run req t src s in
          (events ++ on_error problem, after)
    ]
  ]

  unfoldable pub ingest_commit : Request → RepoType → Text → S → List Event × S
  ingest_commit req t commit s =
      let (outcome, after) = ops.ingest_run req.repo_id t commit s in (answer_of outcome, after)

  unfoldable pub handle_ingest : Request → S → List Event × S
  handle_ingest req s = elim (parse_repo_type req.repo_type) [
    | err text ↦ (failed (ops.type_error text) ∷ [], s)
    | ok t ↦
        if is_empty req.commit
        then (elim (ops.current_commit t req.repo_id req.ref s) [
          | err m ↦ (failed m ∷ [], s)
          | ok commit ↦ ingest_commit req t commit s
        ])
        else ingest_commit req t req.commit s
  ]

  unfoldable pub handle_list : S → List Event
  handle_list s = elim (ops.list s) [
    | err m ↦ failed m ∷ []
    | ok entries ↦
        map (λ e. progress (ops.listed_line e)) entries ++ done (ops.listed_count entries) ∷ []
  ]

  abbrev pub evicted : Entry → List Text × Option Text → List Text × Result Text Text
  evicted entry (lines, none) = (lines, ok (ops.evicted_line entry))
  evicted entry (lines, some m) = (lines, err m)

  unfoldable pub handle_evict : Request → S → List Event × S
  handle_evict req s =
      if is_empty req.commit
      then (let (outcome, after) = ops.evict_repo req.repo_id s in (answer_of outcome, after))
      else (elim (ops.get req.commit s) [
        | err m ↦ (failed m ∷ [], s)
        | ok none ↦ (failed (codes "unknown commit") ∷ [], s)
        | ok (some entry) ↦
            let (outcome, after) = ops.evict_commit entry s in
            (answer_of (evicted entry outcome), after)
      ])

  -- The switch of handle.
  unfoldable pub dispatch : Request → S → List Event × S
  dispatch req s =
      if text_eq req.cmd (codes "pull")
      then handle_pull req s
      else if text_eq req.cmd (codes "ingest")
      then handle_ingest req s
      else if text_eq req.cmd (codes "status")
      then (done (ops.status_line s) ∷ [], s)
      else if text_eq req.cmd (codes "list")
      then (handle_list s, s)
      else if text_eq req.cmd (codes "evict")
      then handle_evict req s
      else if text_eq req.cmd (codes "shutdown")
      then (done (codes "shutting down") ∷ [], ops.close_shutdown s)
      else (failed (codes "unknown command: " ++ req.cmd) ∷ [], s)

  -- handle, from what ReadJSON gives
  unfoldable pub handle : Result Text Request → S → List Event × S
  handle (err m) s = (failed m ∷ [], s)
  handle (ok req) s = dispatch req s

pub data CallError : Type 0 where
  closed_early : CallError
  of_callback of_daemon : Text → CallError

-- The loop of Call over the events up to the end of the connection; `fn` is the callback.
unfoldable pub call : (Event → Option Text) → List Event → Result CallError (Unit {0})
call fn [] = err closed_early
call fn (ev ∷ events) =
    let rest = call fn events in
    elim (fn ev) [
      | some m ↦ err (of_callback m)
      | none ↦
          if text_eq ev.event_type (codes "done")
          then ok tt
          else if text_eq ev.event_type (codes "error")
          then err (of_daemon ev.message)
          else rest
    ]
