-- ===== src/Watch.antt =====
-- internal/watch/watch.go: the choice of what to ingest and what to prune.
--
-- What the watcher reads and calls is the record `Ops`, over a state of its own. Times are nanoseconds, the
-- context is never cancelled, and the order in which Go goes through a map is a parameter.
pub mod Debounce
use hf_ipfs.Prelude.{
  ℕ, zero, suc, ◌-◌, ◌*◌, Bool, true, false, not, ◌&&◌, ◌||◌, List, [], ◌∷◌, Option, none, some,
  Text, codes, text_eq, is_empty, leb, if◌then◌else◌,
}
use hf_ipfs.Prelude.Table.{text_Eq, insert, remove}
use hf_ipfs.Mapping.Entries.{Entry}
use hf_ipfs.Hfcache.RepoNames.{
  RepoType, model, dataset, space, repo_dir_name, repo_type_of, repo_from_dir_name,
}
use hf_ipfs.Hfcache.Paths.{path_join}
use hf_ipfs.Hfcache.Paths.Parts.{path_dir, path_base}

-- DebounceWindow
abbrev pub debounce_window : ℕ
debounce_window = 1500 * 1000000

-- repoDirOf: the loop of at most six rounds.
unfoldable pub climb : ℕ → Text → Text → Text
climb zero hub cur = []
climb (suc n) hub cur =
    let parent = path_dir cur in
    let rest = climb n hub parent in
    if text_eq cur hub
    then []
    else if text_eq parent cur
    then []
    else if text_eq (path_dir parent) hub
    then parent
    else rest

unfoldable pub repo_dir_of : Text → Text → Text
repo_dir_of hub path = climb 6 hub path

-- What `handle` does to the map of pending repositories: the time of the last event.
unfoldable pub note_event : Text → Text → ℕ → List (Text × ℕ) → List (Text × ℕ)
note_event hub name now pending =
    if is_empty (repo_dir_of hub name)
    then pending
    else (elim (repo_from_dir_name (path_base (repo_dir_of hub name))) [
      | none ↦ pending
      | some (repo_id, t) ↦ insert repo_id now pending
    ])

-- The two loops at the start of flush.
unfoldable pub due_repos : ℕ → List (Text × ℕ) → List Text
due_repos now [] = []
due_repos now ((repo_id, at) ∷ pending) =
    let rest = due_repos now pending in
    if leb debounce_window (now - at) then repo_id ∷ rest else rest

unfoldable pub forget : List Text → List (Text × ℕ) → List (Text × ℕ)
forget [] pending = pending
forget (r ∷ due) pending = forget due (remove r pending)

pub record Ops (S : Type 0) : Type 0 where
  pub is_dir : Text → S → Bool
  pub current_commit : Text → RepoType → S → Option Text
  pub complete : Text → RepoType → Text → S → Bool
  pub mapping_get : Text → S → Option Entry
  pub mapping_list : S → Option (List Entry)
  pub list_repos : S → Option (List Text)
  -- evict.Commit and ingest.Run, whose errors are logged
  pub evict : Entry → S → S
  pub ingest : Text → RepoType → Text → S → S
  pub shuffle : List Text → List Text

module _ {S : Type 0} (ops : Ops S) (hub : Text) where
  -- repoType
  unfoldable pub first_type : List RepoType → Text → S → RepoType
  first_type [] repo_id s = model
  first_type (t ∷ ts) repo_id s =
      let rest = first_type ts repo_id s in
      if ops.is_dir (path_join (hub ∷ repo_dir_name repo_id t ∷ [])) s then t else rest

  unfoldable pub repo_type_on_disk : Text → S → RepoType
  repo_type_on_disk repo_id s = first_type (model ∷ dataset ∷ space ∷ []) repo_id s

  -- pruneOrphans
  unfoldable pub prune_entry : Text → Entry → S → S
  prune_entry repo_id e s =
      let t = repo_type_of e.repo_type in
      if not (is_empty repo_id) && not (text_eq e.repo_id repo_id)
      then s
      else if ops.is_dir (path_join (hub ∷ repo_dir_name e.repo_id t ∷ [])) s
          && ops.complete e.repo_id t e.commit_hash s
      then s
      else ops.evict e s

  unfoldable pub prune_all : Text → List Entry → S → S
  prune_all repo_id [] s = s
  prune_all repo_id (e ∷ entries) s = prune_all repo_id entries (prune_entry repo_id e s)

  unfoldable pub prune_orphans : Text → S → S
  prune_orphans repo_id s = elim (ops.mapping_list s) [
    | none ↦ s
    | some entries ↦ prune_all repo_id entries s
  ]

  -- tryIngest, behind the ref
  unfoldable pub try_commit : Text → RepoType → Text → S → S
  try_commit repo_id t commit s = elim (ops.mapping_get commit s) [
    | some entry ↦ if not (ops.complete repo_id t commit s) then ops.evict entry s else s
    | none ↦ if not (ops.complete repo_id t commit s) then s else ops.ingest repo_id t commit s
  ]

  unfoldable pub try_ingest : Text → S → S
  try_ingest repo_id s = elim (ops.current_commit repo_id (repo_type_on_disk repo_id s) s) [
    | none ↦ prune_orphans repo_id s
    | some commit ↦ try_commit repo_id (repo_type_on_disk repo_id s) commit s
  ]

  unfoldable pub try_all : List Text → S → S
  try_all [] s = s
  try_all (repo_id ∷ repos) s = try_all repos (try_ingest repo_id s)

  -- flush
  unfoldable pub flush : ℕ → List (Text × ℕ) × S → List (Text × ℕ) × S
  flush now (pending, s) =
      let due = ops.shuffle (due_repos now pending) in (forget due pending, try_all due s)

  -- Scan
  unfoldable pub scan : S → S
  scan s = elim (ops.list_repos s) [ none ↦ s | some repos ↦ prune_orphans [] (try_all repos s) ]
