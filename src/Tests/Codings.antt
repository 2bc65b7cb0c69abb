-- ===== src/Tests/Codings.antt =====
-- Codings that stand for encoding/json in tests: each value as a list of numbers.
use hf_ipfs.Prelude.{
  ℕ, zero, suc, ◌≡◌, refl, Bool, true, false, List, [], ◌∷◌, ◌++◌, append_assoc, append-nil, Option,
  none, some, Text, length, take, drop, take-append, drop-append, ap, sym, ◌∙◌, arith,
}
use hf_ipfs.Prelude.Int64.{ℤ, pos, negsuc}
use hf_ipfs.Mapping.Entries.{FileManifest}
use hf_ipfs.Hfcache.Tree.{Tree, TreeFile, TreeJson, TreeJsonLaws}
use hf_ipfs.Wire.{MapRequest, MapResponse, on_wire}
use hf_ipfs.Protoio.{Codec}

pub record Coding (A : Type 0) : Type 0 where
  pub put : A → Text
  pub get : Text → Option (A × Text)
  pub get-put : (a : A) (rest : Text) → get (put a ++ rest) ≡ some (a, rest)

abbrev pub get_text : Text → Option (Text × Text)
get_text [] = none
get_text (n ∷ s) = some (take n s, drop n s)

abbrev text_coding : Coding Text
text_coding = record {
  put = λ t. length t ∷ t;
  get = get_text;
  get-put = λ t rest. rw (take-append t rest, drop-append t rest) refl;
}

abbrev pub get_number : Text → Option (ℕ × Text)
get_number [] = none
get_number (n ∷ s) = some (n, s)

abbrev number_coding : Coding ℕ
number_coding = record { put = λ n. n ∷ []; get = get_number; get-put = λ n rest. refl }

abbrev pub put_int : ℤ → Text
put_int (pos n) = 0 ∷ n ∷ []
put_int (negsuc n) = 1 ∷ n ∷ []

abbrev pub get_int : Text → Option (ℤ × Text)
get_int (zero ∷ n ∷ s) = some (pos n, s)
get_int (suc k ∷ n ∷ s) = some (negsuc n, s)
get_int _ = none

pub get_int-put_int : (n : ℤ) (rest : Text) → get_int (put_int n ++ rest) ≡ some (n, rest)
get_int-put_int (pos n) rest = refl
get_int-put_int (negsuc n) rest = refl

abbrev int_coding : Coding ℤ
int_coding = record { put = put_int; get = get_int; get-put = get_int-put_int }

abbrev pub put_bool : Bool → Text
put_bool true = 1 ∷ []
put_bool false = 0 ∷ []

abbrev pub get_bool : Text → Option (Bool × Text)
get_bool (zero ∷ s) = some (false, s)
get_bool (suc k ∷ s) = some (true, s)
get_bool [] = none

pub get_bool-put_bool : (b : Bool) (rest : Text) → get_bool (put_bool b ++ rest) ≡ some (b, rest)
get_bool-put_bool true rest = refl
get_bool-put_bool false rest = refl

abbrev bool_coding : Coding Bool
bool_coding = record { put = put_bool; get = get_bool; get-put = get_bool-put_bool }

module _ {A B : Type 0} (a : Coding A) (b : Coding B) where
  abbrev pub get_pair : Text → Option ((A × B) × Text)
  get_pair s = elim (a.get s) [
    | none ↦ none
    | some (x, r) ↦ elim (b.get r) [ none ↦ none | some (y, t) ↦ some ((x, y), t) ]
  ]

  pub get_pair-put :
      (p : A × B) (rest : Text) → get_pair ((a.put p.0 ++ b.put p.1) ++ rest) ≡ some (p, rest)
  get_pair-put (x, y) rest = ground (
    arith,
    append_assoc (a.put x) (b.put y) rest,
    a.get-put x (b.put y ++ rest),
    b.get-put y rest,
  )

  abbrev pair_coding : Coding (A × B)
  pair_coding = record { put = λ p. a.put p.0 ++ b.put p.1; get = get_pair; get-put = get_pair-put }

module _ {A B : Type 0} (to : B → A) (of : A → B) (of-to : (x : B) → of (to x) ≡ x)
    (a : Coding A) where
  abbrev pub get_as : Text → Option (B × Text)
  get_as s = elim (a.get s) [ none ↦ none | some (x, r) ↦ some (of x, r) ]

  pub get_as-put : (x : B) (rest : Text) → get_as (a.put (to x) ++ rest) ≡ some (x, rest)
  get_as-put x rest = ground (arith, a.get-put (to x) rest, of-to x)

  abbrev coding_as : Coding B
  coding_as = record { put = λ x. a.put (to x); get = get_as; get-put = get_as-put }

module _ {A : Type 0} (a : Coding A) where
  abbrev pub put_items : List A → Text
  put_items [] = []
  put_items (x ∷ xs) = a.put x ++ put_items xs

  abbrev pub get_items : ℕ → Text → Option (List A × Text)
  get_items zero s = some ([], s)
  get_items (suc n) s = elim (a.get s) [
    | none ↦ none
    | some (x, r) ↦ elim (get_items n r) [ none ↦ none | some (xs, t) ↦ some (x ∷ xs, t) ]
  ]

  pub get_items-put_items :
      (xs : List A) (rest : Text) → get_items (length xs) (put_items xs ++ rest) ≡ some (xs, rest)
  get_items-put_items [] rest = refl
  get_items-put_items (x ∷ xs) rest =
      rw
        (
          append_assoc (a.put x) (put_items xs) rest,
          a.get-put x (put_items xs ++ rest),
          get_items-put_items xs rest,
        )
        refl

  abbrev pub get_list : Text → Option (List A × Text)
  get_list [] = none
  get_list (n ∷ s) = get_items n s

  abbrev list_coding : Coding (List A)
  list_coding = record {
    put = λ xs. length xs ∷ put_items xs;
    get = get_list;
    get-put = get_items-put_items;
  }

infixr 4 ◌&◌
abbrev ◌&◌ : {A B : Type 0} → Coding A → Coding B → Coding (A × B)
a & b = pair_coding a b

abbrev tree_file_coding : Coding TreeFile
tree_file_coding =
    coding_as (λ t. (t.tree_size, (t.tree_blob, (t.lfs_sha256, (t.lfs_size, t.tree_xet)))))
      (λ (n, (blob, (sha, (m, xet)))). record {
        tree_size = n;
        tree_blob = blob;
        lfs_sha256 = sha;
        lfs_size = m;
        tree_xet = xet;
      })
      (λ t. refl) (int_coding & text_coding & text_coding & int_coding & text_coding)

abbrev tree_coding : Coding Tree
tree_coding =
    coding_as (λ t. (t.format_version, t.tree_files))
      (λ (v, files). record { format_version = v; tree_files = files }) (λ t. refl)
      (number_coding & list_coding (text_coding & tree_file_coding))

abbrev manifest_coding : Coding FileManifest
manifest_coding =
    coding_as
      (λ f. (
        f.path,
        (f.blob_name, (f.size, (f.sha256, (f.mode, (f.mtime, (f.lfs, (f.xet_hash, f.src_path))))))),
      ))
      (λ (path, (blob, (size, (sha, (mode, (mtime, (lfs, (xet, src)))))))). record {
        path = path;
        blob_name = blob;
        size = size;
        sha256 = sha;
        mode = mode;
        mtime = mtime;
        lfs = lfs;
        xet_hash = xet;
        src_path = src;
      })
      (λ f. refl)
      (text_coding & text_coding & int_coding & text_coding & number_coding & int_coding
        & bool_coding & text_coding & text_coding)

abbrev request_coding : Coding MapRequest
request_coding =
    coding_as (λ q. (q.commit_hash, q.repo_id))
      (λ (commit, repo). record { commit_hash = commit; repo_id = repo }) (λ q. refl)
      (text_coding & text_coding)

abbrev response_coding : Coding MapResponse
response_coding =
    coding_as
      (λ r. (
        r.served,
        (
          r.error,
          (
            r.commit_hash,
            (r.repo_id, (r.repo_type, (r.actual_cid, (r.dummy_cid, (r.total_size, r.files))))),
          ),
        ),
      ))
      (λ (served, (error, (commit, (repo, (type, (actual, (dummy, (total, files)))))))). record {
        served = served;
        error = error;
        commit_hash = commit;
        repo_id = repo;
        repo_type = type;
        actual_cid = actual;
        dummy_cid = dummy;
        total_size = total;
        files = files;
      })
      (λ r. refl)
      (bool_coding
        & text_coding
        & text_coding
        & text_coding
        & text_coding
        & text_coding
        & text_coding
        & int_coding
        & list_coding manifest_coding)

some_inj : {A : Type 0} {x y : A} → some x ≡ some y → x ≡ y
some_inj h = ground (arith, h)

module _ {A : Type 0} (a : Coding A) where
  -- The value of a text that holds a coded value, and nothing behind it that counts.
  abbrev pub decoded : Text → Option A
  decoded s = elim (a.get s) [ none ↦ none | some (x, r) ↦ some x ]

  pub decoded-put : (x : A) → decoded (a.put x) ≡ some x
  decoded-put x =
      ap decoded (sym (append-nil (a.put x)))
      ∙ ap
          (λ (o : Option (A × Text)). elim o as (λ p. Option A) [
            | none ↦ none
            | some (y, r) ↦ some y
          ])
          (a.get-put x [])

abbrev pub tree_json : TreeJson
tree_json = record {
  encode_tree = λ t. some (tree_coding.put t);
  decode_tree = decoded tree_coding;
}

pub tree_json-TreeJsonLaws : TreeJsonLaws tree_json
tree_json-TreeJsonLaws = record {
  decode-encode_tree = λ t s h. (
    t,
    ap (decoded tree_coding) (sym (some_inj h)) ∙ decoded-put tree_coding t,
    refl,
    λ path. refl,
  );
}

abbrev pub request_json : Codec MapRequest
request_json = record {
  marshal = λ q. some (request_coding.put q);
  unmarshal = decoded request_coding;
}

pub request_json_lem :
    (q : MapRequest) (s : Text)
    → request_json.marshal q ≡ some s
    → request_json.unmarshal s ≡ some q
request_json_lem q s h =
    ap (decoded request_coding) (sym (some_inj h)) ∙ decoded-put request_coding q

abbrev pub response_json : Codec MapResponse
response_json = record {
  marshal = λ r. some (response_coding.put (on_wire r));
  unmarshal = decoded response_coding;
}

pub response_json_lem :
    (r : MapResponse) (s : Text)
    → response_json.marshal r ≡ some s
    → response_json.unmarshal s ≡ some (on_wire r)
response_json_lem r s h =
    ap (decoded response_coding) (sym (some_inj h)) ∙ decoded-put response_coding (on_wire r)
