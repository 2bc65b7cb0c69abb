-- ===== src/Controls/Answers.antt =====
-- The events that answer a command, and what its client makes of them.
use hf_ipfs.Prelude.{
  ◌≡◌, ◌≢◌, refl, inl, inr, Bool, true, false, not, ◌&&◌, ◌||◌, List, [], ◌∷◌, ◌++◌, none, some,
  Text, codes, text_eq, is_empty, map, All, Result, ok, err, arith, Bool-cases, Result-cases,
}
use hf_ipfs.Hfcache.RepoNames.{RepoType, parse_repo_type}
use hf_ipfs.Pull.Sources.{parse_sources}
use hf_ipfs.Controls.{
  Request, Event, progress, done, failed, Ops, answer_of, handle_pull, ingest_commit, handle_ingest,
  handle_list, evicted, handle_evict, dispatch, handle, closed_early, call,
}

-- The events that end a command.
unfoldable pub is_last : Event → Bool
is_last e = text_eq e.event_type (codes "done") || text_eq e.event_type (codes "error")

-- Exactly the last event is one that ends a command.
unfoldable pub is_answer : List Event → Bool
is_answer [] = false
is_answer (e ∷ []) = is_last e
is_answer (e ∷ f ∷ events) = not (is_last e) && is_answer (f ∷ events)

-- A request that comes as far as pull.Run.
unfoldable pub runs_pull : Result Text Request → Bool
runs_pull (err m) = false
runs_pull (ok req) =
    text_eq req.cmd (codes "pull")
    && (elim (parse_repo_type req.repo_type) as (λ r. Bool) [ err text ↦ false | ok t ↦ true ])
    && (elim (parse_sources req.sources) as (λ r. Bool) [ err e ↦ false | ok src ↦ true ])

is_answer-append :
    (events : List Event) (e : Event)
    → All (λ e. is_last e ≡ false) events
    → is_last e ≡ true
    → is_answer (events ++ e ∷ []) ≡ true
unfolding is_answer
is_answer-append [] e h last = last
is_answer-append (f ∷ []) e (h, hs) last = ground (arith, h, last)
is_answer-append (f ∷ g ∷ events) e (h, hs) last =
    ground (arith, h, is_answer-append (g ∷ events) e hs last)

progress_lem :
    {A : Type 0} (line : A → Text) (l : List A)
    → All (λ e. is_last e ≡ false) (map (λ a. progress (line a)) l)
unfolding is_last text_eq
progress_lem line [] = tt
progress_lem line (a ∷ l) = (refl, progress_lem line l)

last_lem : (m : Text) → (is_last (done m) ≡ true) × (is_last (failed m) ≡ true)
unfolding is_last text_eq
last_lem m = (refl, refl)

call_lem :
    (events : List Event) → is_answer events ≡ true → call (λ e. none) events ≢ err closed_early
unfolding call is_answer is_last
call_lem [] h eq = absurd (ground (arith, h))
call_lem (e ∷ []) h eq = absurd (ground (arith, h, eq))
call_lem (e ∷ f ∷ events) h eq = call_lem (f ∷ events) (ground (arith, h)) (ground (arith, h, eq))

module _ {S : Type 0} (ops : Ops S) where
  answer_of_lem :
      (outcome : List Text × Result Text Text) → is_answer (answer_of ops outcome) ≡ true
  answer_of_lem (lines, err m) =
      is_answer-append (map progress lines) (failed m) (progress_lem (λ l. l) lines) (last_lem m).1
  answer_of_lem (lines, ok m) =
      is_answer-append (map progress lines) (done m) (progress_lem (λ l. l) lines) (last_lem m).0

  one_error : (m : Text) → is_answer (failed m ∷ []) ≡ true
  unfolding is_answer
  one_error m = (last_lem m).1

  one_done : (m : Text) → is_answer (done m ∷ []) ≡ true
  unfolding is_answer
  one_done m = (last_lem m).0

  handle_pull_lem :
      (req : Request) (s : S)
      → text_eq req.cmd (codes "pull") ≡ true
      → runs_pull (ok req) ≡ false
      → is_answer (handle_pull ops req s).0 ≡ true
  unfolding handle_pull runs_pull
  handle_pull_lem req s named stops = elim (Result-cases (parse_repo_type req.repo_type)) [
    | inr (text, bad) ↦ ground (arith, bad, one_error (ops.type_error text))
    | inl (t, good) ↦ elim (Result-cases (parse_sources req.sources)) [
      | inr (e, bad) ↦ ground (arith, good, bad, one_error (codes "pull: " ++ ops.source_error e))
      | inl (src, parsed) ↦ absurd (ground (arith, named, good, parsed, stops))
    ]
  ]

  ingest_commit_lem :
      (req : Request) (t : RepoType) (commit : Text) (s : S)
      → is_answer (ingest_commit ops req t commit s).0 ≡ true
  unfolding ingest_commit
  ingest_commit_lem req t commit s = answer_of_lem (ops.ingest_run req.repo_id t commit s).0

  handle_ingest_lem : (req : Request) (s : S) → is_answer (handle_ingest ops req s).0 ≡ true
  unfolding handle_ingest
  handle_ingest_lem req s = elim (Result-cases (parse_repo_type req.repo_type)) [
    | inr (text, bad) ↦ ground (arith, bad, one_error (ops.type_error text))
    | inl (t, good) ↦ elim (Bool-cases (is_empty req.commit)) [
      | inr given ↦ ground (arith, good, given, ingest_commit_lem req t req.commit s)
      | inl unset ↦ elim (Result-cases (ops.current_commit t req.repo_id req.ref s)) [
        | inr (m, bad) ↦ ground (arith, good, unset, bad, one_error m)
        | inl (commit, named) ↦ ground (arith, good, unset, named, ingest_commit_lem req t commit s)
      ]
    ]
  ]

  handle_list_lem : (s : S) → is_answer (handle_list ops s) ≡ true
  unfolding handle_list
  handle_list_lem s = elim (Result-cases (ops.list s)) [
    | inr (m, bad) ↦ ground (arith, bad, one_error m)
    | inl (entries, listed) ↦ ground (
      arith,
      listed,
      is_answer-append (map (λ e. progress (ops.listed_line e)) entries)
          (done (ops.listed_count entries)) (progress_lem ops.listed_line entries)
          (last_lem (ops.listed_count entries)).0,
    )
  ]

  handle_evict_lem : (req : Request) (s : S) → is_answer (handle_evict ops req s).0 ≡ true
  unfolding handle_evict
  handle_evict_lem req s = elim (Bool-cases (is_empty req.commit)) [
    | inl unset ↦ ground (arith, unset, answer_of_lem (ops.evict_repo req.repo_id s).0)
    | inr given ↦ elim (Result-cases (ops.get req.commit s)) [
      | inr (m, bad) ↦ ground (arith, given, bad, one_error m)
      | inl (none, absent) ↦ ground (arith, given, absent, one_error (codes "unknown commit"))
      | inl (some entry, found) ↦
          ground
            (arith, given, found, answer_of_lem (evicted ops entry (ops.evict_commit entry s).0))
    ]
  ]

  handle_lem :
      (req : Result Text Request) (s : S)
      → runs_pull req ≡ false
      → is_answer (handle ops req s).0 ≡ true
  unfolding handle dispatch
  handle_lem (err m) s stops = one_error m
  handle_lem (ok req) s stops = elim (Bool-cases (text_eq req.cmd (codes "pull"))) [
    | inl named ↦ ground (arith, named, handle_pull_lem req s named stops)
    | inr other ↦ ground (
      arith,
      other,
      handle_ingest_lem req s,
      one_done (ops.status_line s),
      handle_list_lem s,
      handle_evict_lem req s,
      one_done (codes "shutting down"),
      one_error (codes "unknown command: " ++ req.cmd),
    )
  ]

  -- A request that does not come as far as pull.Run is answered with events of which exactly the last is of
  -- type done or error: that is a request that cannot be read, one with another command, known or not, and a
  -- pull whose repository type or list of sources is refused. So a client that reads to the end of the
  -- connection never sees it closed before its command has completed.
  pub call-handle :
      (req : Result Text Request) (s : S)
      → runs_pull req ≡ false
      → (is_answer (handle ops req s).0 ≡ true)
        × (call (λ e. none) (handle ops req s).0 ≢ err closed_early)
  call-handle req s stops =
      (handle_lem req s stops, call_lem (handle ops req s).0 (handle_lem req s stops))
