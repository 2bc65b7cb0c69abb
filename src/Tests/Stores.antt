-- ===== src/Tests/Stores.antt =====
-- The store and the mapping, at concrete inputs.
use hf_ipfs.Prelude.{
  ℕ, ◌≡◌, ◌≢◌, ◌⊎◌, ◌↔◌, refl, inl, inr, Bool, true, false, ◌&&◌, List, [], ◌∷◌, Option, none, some,
  Text, codes, if◌then◌else◌, ok, err, arith, text_eq, text_eq_iff, is_empty,
}
use hf_ipfs.Prelude.Int64.{ℤ, pos}
use hf_ipfs.Prelude.Table.{Eq, text_Eq, lookup, insert, remove, lookup-insert, lookup-remove}
use hf_ipfs.Mapping.Entries.{FileManifest, Entry, strip_entry}
use hf_ipfs.Mapping.Database.{EntryJson, EntryJsonLaws, db_put, db_get, map_key}
use hf_ipfs.Mapping.Database.Laws.{db_get-db_put}
use hf_ipfs.Store.{Bolt, BoltLaws, fault, raw, ds_put, batch_commit}
use hf_ipfs.Store.Batches.{after_puts, after_deletes, batch_commit_lem}

-- A bbolt file whose buckets are all there.
abbrev pair_eq : Text × Text → Text × Text → Bool
pair_eq p q = text_eq p.0 q.0 && text_eq p.1 q.1

pair_eq_iff : (p q : Text × Text) → (pair_eq p q ≡ true) ↔ (p ≡ q)
pair_eq_iff p q = ground (arith, text_eq_iff p.0 q.0, text_eq_iff p.1 q.1)

pair_eq_ne : (b k a j : Text) → (b ≢ a) ⊎ (k ≢ j) → pair_eq (b, k) (a, j) ≡ false
pair_eq_ne b k a j (inl ne) = ground (arith, text_eq_iff b a)
pair_eq_ne b k a j (inr ne) = ground (arith, text_eq_iff k j)

instance abbrev pair_Eq : Eq (Text × Text)
pair_Eq = record { beq = pair_eq; beq_iff = pair_eq_iff }

abbrev pairs_of : Text → List ((Text × Text) × Text) → List (Text × Text)
pairs_of b [] = []
pairs_of b ((k, v) ∷ m) = let rest = pairs_of b m in if text_eq k.0 b then (k.1, v) ∷ rest else rest

abbrev toy_bolt : Bolt
toy_bolt = record {
  Contents = List ((Text × Text) × Text);
  Fault = Unit {0};
  has_bucket = λ c b. true;
  create_bucket = λ c b. ok c;
  get = λ c b k. lookup (b, k) c;
  put = λ c b k v. ok (insert (b, k) v c);
  delete = λ c b k. ok (remove (b, k) c);
  pairs = λ c b. pairs_of b c;
  commit_fault = λ c. none;
}

toy_bolt-BoltLaws : BoltLaws toy_bolt
toy_bolt-BoltLaws = record {
  get_no_bucket = λ c b k h. cc;
  has_bucket-create = λ c d b h. refl;
  get-create = λ c d b a k h. ground arith;
  has_bucket-put = λ c d b k v a h. refl;
  get-put_self =
      λ c d b k v h. ground (arith, lookup-insert (b, k) (b, k) v c, pair_eq_iff (b, k) (b, k));
  get-put_ne =
      λ c d b k v a j h ne. ground (arith, lookup-insert (b, k) (a, j) v c, pair_eq_ne b k a j ne);
  has_bucket-delete = λ c d b k a h. refl;
  get-delete_self =
      λ c d b k h. ground (arith, lookup-remove (b, k) (b, k) c, pair_eq_iff (b, k) (b, k));
  get-delete_ne =
      λ c d b k a j h ne. ground (arith, lookup-remove (b, k) (a, j) c, pair_eq_ne b k a j ne);
}

abbrev some_puts : List (Text × Text)
some_puts = (codes "/k", codes "v") ∷ (codes "/j", codes "w") ∷ []

batch_commit_lem_example :
    (((batch_commit toy_bolt (codes "map") some_puts (codes "/j" ∷ []) []).0 ≡ ok tt)
      × ((j : Text)
          → toy_bolt.get
              (batch_commit toy_bolt (codes "map") some_puts (codes "/j" ∷ []) []).1
              (codes "map")
              j
            ≡ after_deletes j
                (codes "/j" ∷ [])
                (after_puts j some_puts (toy_bolt.get [] (codes "map") j)))
      × ((a j : Text)
          → codes "map" ≢ a
          → toy_bolt.get (batch_commit toy_bolt (codes "map") some_puts (codes "/j" ∷ []) []).1 a j
            ≡ toy_bolt.get [] a j))
    ⊎ ((e : Unit {0}) × ((batch_commit toy_bolt (codes "map") some_puts (codes "/j" ∷ []) []).0
          ≡ err (fault e))
        × ((batch_commit toy_bolt (codes "map") some_puts (codes "/j" ∷ []) []).1 ≡ []))
batch_commit_lem_example =
    batch_commit_lem toy_bolt toy_bolt-BoltLaws (codes "map") some_puts (codes "/j" ∷ []) []

-- A JSON that writes entries which say no more than a commit and a size.
abbrev bare_entry : ℕ → Text → Entry
bare_entry n commit = record {
  repo_id = [];
  repo_type = [];
  commit_hash = commit;
  actual_cid = [];
  dummy_cid = [];
  files = [];
  total_size = pos n;
  origin = [];
}

abbrev encode_fields : Text → Text → Text → Text → Text → List FileManifest → ℤ → Text → Option Text
encode_fields [] [] commit [] [] [] (pos n) [] = some (n ∷ commit)
encode_fields _ _ _ _ _ _ _ _ = none

abbrev decode_fields : Text → Option Entry
decode_fields [] = none
decode_fields (n ∷ commit) = some (bare_entry n commit)

abbrev toy_json : EntryJson
toy_json = record {
  encode = λ e.
      encode_fields e.repo_id e.repo_type e.commit_hash e.actual_cid e.dummy_cid e.files
        e.total_size e.origin;
  decode = decode_fields;
}

fields_sound :
    (a b commit c d : Text) (fs : List FileManifest) (n : ℤ) (o s : Text)
    → encode_fields a b commit c d fs n o ≡ some s
    → decode_fields s
      ≡ some (
          strip_entry (record {
            repo_id = a;
            repo_type = b;
            commit_hash = commit;
            actual_cid = c;
            dummy_cid = d;
            files = fs;
            total_size = n;
            origin = o;
          }))
unfolding strip_entry
fields_sound a b commit c d fs n o s h = ground arith

toy_json-EntryJsonLaws : EntryJsonLaws toy_json
toy_json-EntryJsonLaws = record {
  decode-encode = λ e s h.
      fields_sound e.repo_id e.repo_type e.commit_hash e.actual_cid e.dummy_cid e.files e.total_size
        e.origin s h;
}

-- A key is the text itself.
abbrev clean_key : Text → Text
clean_key s = s

put_succeeds : (db_put toy_bolt toy_json clean_key (bare_entry 5 (codes "c0")) []).0 ≡ ok tt
unfolding db_put ds_put is_empty
put_succeeds = refl

db_get-db_put_example :
    db_get toy_bolt toy_json clean_key
      (codes "c0")
      (db_put toy_bolt toy_json clean_key (bare_entry 5 (codes "c0")) []).1
    ≡ (if text_eq (raw (map_key clean_key (codes "c0"))) (raw (map_key clean_key (codes "c0")))
        then ok (some (strip_entry (bare_entry 5 (codes "c0"))))
        else db_get toy_bolt toy_json clean_key (codes "c0") [])
db_get-db_put_example =
    db_get-db_put toy_bolt toy_bolt-BoltLaws toy_json toy_json-EntryJsonLaws clean_key
      (bare_entry 5 (codes "c0")) [] put_succeeds (codes "c0")
