-- ===== src/Mapping/Database/Laws.antt =====
-- The mapping of commits to entries of internal/mapping/mapping.go as a map.
use hf_ipfs.Prelude.{
  Option, none, some, Text, text_eq, if◌then◌else◌, ok, err, ◌≡◌, arith, Result-cases, Option-cases,
  inl, inr,
}
use hf_ipfs.Store.{Bolt, BoltLaws, raw, ds_get, ds_put}
use hf_ipfs.Store.Batches.{get-put}
use hf_ipfs.Mapping.Entries.{Entry, strip_entry}
use hf_ipfs.Mapping.Database.{
  EntryJson, EntryJsonLaws, unmarshalled, map_key, map_bucket, db_put, db_get, decode_entry,
}

module _ (B : Bolt) (laws : BoltLaws B) (J : EntryJson) (json : EntryJsonLaws J)
    (new_key : Text → Text) where
  -- Get and Has read the bucket, which is empty before it is created.
  value_at : Text → B.Contents → Option Text
  value_at commit c = B.get c map_bucket (raw (map_key new_key commit))

  db_get_value :
      (commit : Text) (c : B.Contents)
      → db_get B J new_key commit c ≡ elim (value_at commit c) [
        | none ↦ ok none
        | some v ↦ (elim (J.decode v) [ none ↦ err unmarshalled | some e ↦ ok (some e) ])
      ]
  unfolding db_get decode_entry ds_get value_at
  db_get_value commit c =
      ground (arith, laws.get_no_bucket c map_bucket (raw (map_key new_key commit)))

  -- A Put that returned no error wrote what JSON made of the entry.
  put_sound :
      (e : Entry) (c : B.Contents)
      → (db_put B J new_key e c).0 ≡ ok tt
      → (d : B.Contents) × (v : Text) × (J.encode e ≡ some v)
        × (B.create_bucket c map_bucket ≡ ok d)
        × (B.put d map_bucket (raw (map_key new_key e.commit_hash)) v
            ≡ ok (db_put B J new_key e c).1)
  unfolding db_put ds_put
  put_sound e c h = elim (Option-cases (J.encode e)) [
    | inl fails ↦ absurd (ground (arith, fails))
    | inr (v, encoded) ↦ elim (Result-cases (B.create_bucket c map_bucket)) [
      | inr (f, fails) ↦ absurd (ground (arith, encoded, fails))
      | inl (d, created) ↦
          elim (Result-cases (B.put d map_bucket (raw (map_key new_key e.commit_hash)) v)) [
            | inr (f, fails) ↦ absurd (ground (arith, encoded, created, fails))
            | inl (c', put) ↦ (d, v, encoded, created, ground (arith, encoded, created, put))
          ]
    ]
  ]

  -- A Put that returns no error binds the commit of its entry, and no other: what Get returns for a
  -- commit with another key stays as it was, and for its own it is the entry without the paths of
  -- the sources, which are not stored.
  pub db_get-db_put :
      (e : Entry) (c : B.Contents)
      → (db_put B J new_key e c).0 ≡ ok tt
      → (commit : Text)
      → db_get B J new_key commit (db_put B J new_key e c).1 ≡ (
          if text_eq (raw (map_key new_key e.commit_hash)) (raw (map_key new_key commit))
          then ok (some (strip_entry e))
          else db_get B J new_key commit c)
  unfolding value_at
  db_get-db_put e c h commit =
      let (d, v, encoded, created, put) = put_sound e c h in
      ground (
        arith,
        db_get_value commit c,
        db_get_value commit (db_put B J new_key e c).1,
        json.decode-encode e v encoded,
        get-put B laws map_bucket d (db_put B J new_key e c).1 (raw (map_key new_key e.commit_hash))
            v (raw (map_key new_key commit)) put,
        laws.get-create c d map_bucket map_bucket (raw (map_key new_key commit)) created,
      )
