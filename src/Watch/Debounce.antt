-- ===== src/Watch/Debounce.antt =====
-- The map of pending repositories.
use hf_ipfs.Prelude.{
  ℕ, ◌-◌, ◌≡◌, refl, subst, ◌∙◌, inl, inr, Bool, true, false, ◌&&◌, List, [], ◌∷◌, Option, none,
  some, Text, text_eq, leb, if◌then◌else◌, arith, Bool-cases, Option-cases, text_eq_sound,
}
use hf_ipfs.Prelude.Table.{text_Eq, lookup, insert, remove, member, lookup-remove, lookup-insert}
use hf_ipfs.Hfcache.RepoNames.{repo_from_dir_name}
use hf_ipfs.Hfcache.Paths.Parts.{path_base}
use hf_ipfs.Watch.{debounce_window, repo_dir_of, note_event, due_repos, forget, Ops, try_all, flush}

-- A Go map has one value for a key.
unfoldable pub is_distinct : List (Text × ℕ) → Bool
is_distinct [] = true
is_distinct ((k, at) ∷ pending) =
    (elim (lookup k pending) as (λ o. Bool) [ none ↦ true | some v ↦ false ]) && is_distinct pending

due_lookup :
    (now : ℕ) (repo_id : Text) (pending : List (Text × ℕ))
    → is_distinct pending ≡ true
    → member repo_id (due_repos now pending) ≡ (elim (lookup repo_id pending) as (λ o. Bool) [
      | none ↦ false
      | some at ↦ leb debounce_window (now - at)
    ])
unfolding due_repos lookup is_distinct
due_lookup now repo_id [] h = refl
due_lookup now repo_id ((k, at) ∷ pending) h =
    let rest = due_lookup now repo_id pending (ground (arith, h)) in
    elim (Bool-cases (text_eq k repo_id)) [
      | inr other ↦ ground (arith, other, rest)
      | inl same ↦ elim (Option-cases (lookup k pending)) [
        | inr (v, twice) ↦ absurd (ground (arith, h, twice))
        | inl once ↦
            let absent : lookup repo_id pending ≡ none =
              subst (λ r. lookup r pending ≡ none) (text_eq_sound k repo_id same) once in
            ground (arith, same, rest, absent)
      ]
    ]

lookup-forget :
    (repo_id : Text) (due : List Text) (pending : List (Text × ℕ))
    → lookup repo_id (forget due pending)
      ≡ (if member repo_id due then none else lookup repo_id pending)
unfolding forget
lookup-forget repo_id [] pending = refl
lookup-forget repo_id (r ∷ due) pending =
    ground (arith, lookup-forget repo_id due (remove r pending), lookup-remove r repo_id pending)

insert-is_distinct :
    (r : Text) (now : ℕ) (pending : List (Text × ℕ))
    → is_distinct pending ≡ true
    → is_distinct (insert r now pending) ≡ true
unfolding is_distinct insert lookup
insert-is_distinct r now [] h = refl
insert-is_distinct r now ((k, at) ∷ pending) h = ground (
  arith,
  h,
  insert-is_distinct r now pending,
  lookup-insert r k now pending,
  text_eq_sound k r,
  text_eq_sound r k,
  text_Eq.beq_iff k r,
  text_Eq.beq_iff r k,
)

-- What happens to the time of a pending repository.
unfoldable pub kept_time : ℕ → Option ℕ → Option ℕ
kept_time now none = none
kept_time now (some at) = if leb debounce_window (now - at) then none else some at

-- On a map with one time for each pending repository, flush tries the repositories whose last event is at
-- least the debounce window ago, in some order. These and no others leave the map, and every other repository
-- keeps its time.
pub flush_lem :
    {S : Type 0} (ops : Ops S) (hub : Text) (now : ℕ) (pending : List (Text × ℕ)) (s : S)
    → ((r : Text) (l : List Text) → member r (ops.shuffle l) ≡ member r l)
    → is_distinct pending ≡ true
    → (due : List Text) × ((flush ops hub now (pending, s)).1 ≡ try_all ops hub due s)
      × ((r : Text)
          → (member r due ≡ (elim (lookup r pending) as (λ o. Bool) [
            | none ↦ false
            | some at ↦ leb debounce_window (now - at)
          ])))
      × ((r : Text)
          → (lookup r (flush ops hub now (pending, s)).0 ≡ kept_time now (lookup r pending)))
unfolding flush kept_time
flush_lem ops hub now pending s same h =
    let due = ops.shuffle (due_repos now pending) in
    let listed = λ (r : Text). same r (due_repos now pending) ∙ due_lookup now r pending h in
    (
      due,
      refl,
      listed,
      λ r. elim (Option-cases (lookup r pending)) [
        | inl absent ↦ ground (arith, lookup-forget r due pending, listed r, absent)
        | inr (at, found) ↦ ground (arith, lookup-forget r due pending, listed r, found)
      ],
    )

-- An event leaves the map with one time for each repository.
note_event-is_distinct :
    (hub name : Text) (now : ℕ) (pending : List (Text × ℕ))
    → is_distinct pending ≡ true
    → is_distinct (note_event hub name now pending) ≡ true
unfolding note_event
note_event-is_distinct hub name now pending h =
    elim (Option-cases (repo_from_dir_name (path_base (repo_dir_of hub name)))) [
      | inl unknown ↦ ground (arith, h, unknown)
      | inr ((repo_id, t), known) ↦
          ground (arith, h, known, insert-is_distinct repo_id now pending h)
    ]
