-- ===== src/Mapping/Database.antt =====
-- DB of internal/mapping/mapping.go over the bucket "map" of the store. JSON is a parameter, a pair of
-- functions, and so is the cleaning that ds.NewKey does.
use hf_ipfs.Prelude.{
  Bool, false, List, [], ◌∷◌, ◌++◌, ◌||◌, ◌&&◌, Option, none, some, Text, text_eq, text_lt, codes,
  is_empty, if◌then◌else◌, Result, ok, err, ◌>>=◌, ◌≡◌,
}
use hf_ipfs.Store.{
  Bolt, StoreError, not_found, fault, QueryEntry, ds_get, ds_has, ds_put, ds_delete, ds_query,
}
use hf_ipfs.Mapping.Entries.{Entry, strip_entry}
pub mod Laws

-- encoding/json on entries.
pub record EntryJson : Type 0 where
  pub encode : Entry → Option Text
  pub decode : Text → Option Entry

-- What was encoded decodes, without what has the tag "-".
pub record EntryJsonLaws (J : EntryJson) : Type 0 where
  pub decode-encode :
      (e : Entry) (s : Text) → J.encode e ≡ some s → J.decode s ≡ some (strip_entry e)

pub data DatabaseError (F : Type 0) : Type 0 where
  no_commit_hash unmarshalled unmarshallable : DatabaseError F
  of_store : StoreError F → DatabaseError F

-- The test of the sort of List: by repository, then by commit.
unfoldable pub entry_lt : Entry → Entry → Bool
entry_lt a b =
    if text_eq a.repo_id b.repo_id
    then text_lt a.commit_hash b.commit_hash
    else text_lt a.repo_id b.repo_id

-- The name of the bucket that New is given.
abbrev pub map_bucket : Text
map_bucket = codes "map"

-- mapKey
unfoldable pub map_key : (Text → Text) → Text → Text
map_key new_key commit = new_key (codes "/" ++ commit)

module _ (B : Bolt) (J : EntryJson) (new_key : Text → Text) where
  abbrev pub of_store_result :
      Result (StoreError B.Fault) (Unit {0}) × B.Contents
      → Result (DatabaseError B.Fault) (Unit {0}) × B.Contents
  of_store_result (ok u, c) = (ok u, c)
  of_store_result (err e, c) = (err (of_store e), c)

  -- Put
  unfoldable pub db_put :
      Entry → B.Contents → Result (DatabaseError B.Fault) (Unit {0}) × B.Contents
  db_put e c = if is_empty e.commit_hash then (err no_commit_hash, c) else elim (J.encode e) [
    | none ↦ (err unmarshallable, c)
    | some value ↦ of_store_result (ds_put B map_bucket (map_key new_key e.commit_hash) value c)
  ]

  -- What Get makes of the answer of the store.
  unfoldable pub decode_entry :
      Result (StoreError B.Fault) Text → Result (DatabaseError B.Fault) (Option Entry)
  decode_entry (err not_found) = ok none
  decode_entry (err (fault e)) = err (of_store (fault e))
  decode_entry (ok value) = elim (J.decode value) [ none ↦ err unmarshalled | some e ↦ ok (some e) ]

  -- Get; `none` stands for `nil, false`.
  unfoldable pub db_get : Text → B.Contents → Result (DatabaseError B.Fault) (Option Entry)
  db_get commit c = decode_entry (ds_get B map_bucket (map_key new_key commit) c)

  -- Has
  unfoldable pub db_has : Text → B.Contents → Bool
  db_has commit c = ds_has B map_bucket (map_key new_key commit) c

  -- Delete
  unfoldable pub db_delete :
      Text → B.Contents → Result (DatabaseError B.Fault) (Unit {0}) × B.Contents
  db_delete commit c = of_store_result (ds_delete B map_bucket (map_key new_key commit) c)

  -- The loop of List over the results of the query, which are in the order of the keys.
  unfoldable pub decode_all : List QueryEntry → Result (DatabaseError B.Fault) (List Entry)
  decode_all [] = ok []
  decode_all (q ∷ qs) =
      let rest = decode_all qs in
      elim q.value [
        | none ↦ rest
        | some [] ↦ rest
        | some (b ∷ value) ↦ elim (J.decode (b ∷ value)) [
          | none ↦ err unmarshalled
          | some e ↦ rest >>= λ es. ok (e ∷ es)
        ]
      ]

  -- List; the sort of the standard library is a parameter.
  unfoldable pub db_list :
      ((Entry → Entry → Bool) → List Entry → List Entry)
      → B.Contents
      → Result (DatabaseError B.Fault) (List Entry)
  db_list sort_slice c =
      decode_all (ds_query B map_bucket false c) >>= λ es. ok (sort_slice entry_lt es)
