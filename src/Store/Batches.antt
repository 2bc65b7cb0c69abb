-- ===== src/Store/Batches.antt =====
-- The transaction of a batch of internal/store/bolt.go, against a map of keys to values.
use hf_ipfs.Prelude.{
  ◌≡◌, ◌≢◌, ◌⊎◌, inl, inr, List, [], ◌∷◌, Option, none, some, Text, text_eq, text_eq_iff,
  if◌then◌else◌, ok, err, >>=-eq-ok, Result-cases, Option-cases, refl, sym, ap, ◌∙◌, Bool-cases,
  arith,
}
use hf_ipfs.Store.{Bolt, BoltLaws, fault, raw, put_all, delete_all, batch_commit}

-- What a series of puts, and then of deletes, makes of the value of one key.
unfoldable pub after_puts : Text → List (Text × Text) → Option Text → Option Text
after_puts j [] old = old
after_puts j ((k, v) ∷ puts) old = after_puts j puts (if text_eq (raw k) j then some v else old)

unfoldable pub after_deletes : Text → List Text → Option Text → Option Text
after_deletes j [] old = old
after_deletes j (k ∷ ks) old = after_deletes j ks (if text_eq (raw k) j then none else old)

module _ (B : Bolt) (laws : BoltLaws B) (bucket : Text) where
  -- One put, and one delete, seen from the bucket it writes to.
  pub get-put :
      (c d : B.Contents) (k v j : Text)
      → B.put c bucket k v ≡ ok d
      → B.get d bucket j ≡ (if text_eq k j then some v else B.get c bucket j)
  get-put c d k v j done = elim (Bool-cases (text_eq k j)) [
    | inl same ↦ rw (same, sym ((text_eq_iff k j).0 same), laws.get-put_self c d bucket k v done)
    | inr differs ↦ rw (
      differs,
      laws.get-put_ne c d bucket k v bucket j done (inr (λ e. ground (arith, text_eq_iff k j))),
    )
  ]

  pub get-delete :
      (c d : B.Contents) (k j : Text)
      → B.delete c bucket k ≡ ok d
      → B.get d bucket j ≡ (if text_eq k j then none else B.get c bucket j)
  get-delete c d k j done = elim (Bool-cases (text_eq k j)) [
    | inl same ↦ rw (same, sym ((text_eq_iff k j).0 same), laws.get-delete_self c d bucket k done)
    | inr differs ↦ rw (
      differs,
      laws.get-delete_ne c d bucket k bucket j done (inr (λ e. ground (arith, text_eq_iff k j))),
    )
  ]

  -- The loops of the commit, on the bucket and beside it.
  get-put_all :
      (puts : List (Text × Text)) (c d : B.Contents) (j : Text)
      → put_all B bucket puts c ≡ ok d
      → B.get d bucket j ≡ after_puts j puts (B.get c bucket j)
  unfolding put_all after_puts
  get-put_all [] c d j done = ground arith
  get-put_all ((k, v) ∷ puts) c d j done =
      let (m, put, rest) = >>=-eq-ok (B.put c bucket (raw k) v) (put_all B bucket puts) done in
      get-put_all puts m d j rest ∙ ap (after_puts j puts) (get-put c m (raw k) v j put)

  get-delete_all :
      (ks : List Text) (c d : B.Contents) (j : Text)
      → delete_all B bucket ks c ≡ ok d
      → B.get d bucket j ≡ after_deletes j ks (B.get c bucket j)
  unfolding delete_all after_deletes
  get-delete_all [] c d j done = ground arith
  get-delete_all (k ∷ ks) c d j done =
      let (m, deleted, rest) =
        >>=-eq-ok (B.delete c bucket (raw k)) (delete_all B bucket ks) done in
      get-delete_all ks m d j rest ∙ ap (after_deletes j ks) (get-delete c m (raw k) j deleted)

  get-put_all_ne :
      (puts : List (Text × Text)) (c d : B.Contents) (a j : Text)
      → bucket ≢ a
      → put_all B bucket puts c ≡ ok d
      → B.get d a j ≡ B.get c a j
  unfolding put_all
  get-put_all_ne [] c d a j other done = ground arith
  get-put_all_ne ((k, v) ∷ puts) c d a j other done =
      let (m, put, rest) = >>=-eq-ok (B.put c bucket (raw k) v) (put_all B bucket puts) done in
      get-put_all_ne puts m d a j other rest
      ∙ laws.get-put_ne c m bucket (raw k) v a j put (inl other)

  get-delete_all_ne :
      (ks : List Text) (c d : B.Contents) (a j : Text)
      → bucket ≢ a
      → delete_all B bucket ks c ≡ ok d
      → B.get d a j ≡ B.get c a j
  unfolding delete_all
  get-delete_all_ne [] c d a j other done = ground arith
  get-delete_all_ne (k ∷ ks) c d a j other done =
      let (m, deleted, rest) =
        >>=-eq-ok (B.delete c bucket (raw k)) (delete_all B bucket ks) done in
      get-delete_all_ne ks m d a j other rest
      ∙ laws.get-delete_ne c m bucket (raw k) a j deleted (inl other)

  -- The three steps of a commit that returns no error.
  batch_committed :
      (puts : List (Text × Text)) (deletes : List Text) (c d m n : B.Contents)
      → B.create_bucket c bucket ≡ ok d
      → put_all B bucket puts d ≡ ok m
      → delete_all B bucket deletes m ≡ ok n
      → B.commit_fault n ≡ none
      → batch_commit B bucket puts deletes c ≡ (ok tt, n)
  unfolding batch_commit
  batch_committed puts deletes c d m n created put deleted fine =
      ground (arith, created, put, deleted, fine)

  -- A batch is one transaction. Where its Commit returns no error, every key of the bucket has the
  -- value that the puts, in order, and then the deletes make of the one it had, and every other
  -- bucket is as it was; where it returns an error, nothing has changed.
  pub batch_commit_lem :
      (puts : List (Text × Text)) (deletes : List Text) (c : B.Contents)
      → (((batch_commit B bucket puts deletes c).0 ≡ ok tt)
          × ((j : Text)
              → B.get (batch_commit B bucket puts deletes c).1 bucket j
                ≡ after_deletes j deletes (after_puts j puts (B.get c bucket j)))
          × ((a j : Text)
              → bucket ≢ a
              → B.get (batch_commit B bucket puts deletes c).1 a j ≡ B.get c a j))
        ⊎ ((e : B.Fault) × ((batch_commit B bucket puts deletes c).0 ≡ err (fault e))
            × ((batch_commit B bucket puts deletes c).1 ≡ c))
  unfolding batch_commit
  batch_commit_lem puts deletes c = elim (Result-cases (B.create_bucket c bucket)) [
    | inr (e, failed) ↦ inr (e, ground (arith, failed), ground (arith, failed))
    | inl (d, created) ↦ elim (Result-cases (put_all B bucket puts d)) [
      | inr (e, failed) ↦ inr (e, ground (arith, created, failed), ground (arith, created, failed))
      | inl (m, put) ↦ elim (Result-cases (delete_all B bucket deletes m)) [
        | inr (e, failed) ↦
            inr (e, ground (arith, created, put, failed), ground (arith, created, put, failed))
        | inl (n, deleted) ↦ elim (Option-cases (B.commit_fault n)) [
          | inr (e, failed) ↦ inr (
            e,
            ground (arith, created, put, deleted, failed),
            ground (arith, created, put, deleted, failed),
          )
          | inl fine ↦
              let done = batch_committed puts deletes c d m n created put deleted fine in
              inl (
                rw done refl,
                (λ j. rw done (
                    get-delete_all deletes m n j deleted
                    ∙ ap (after_deletes j deletes) (
                        get-put_all puts d m j put
                        ∙ ap (after_puts j puts) (laws.get-create c d bucket bucket j created)))),
                (λ a j other. rw done (
                    get-delete_all_ne deletes m n a j other deleted
                    ∙ (get-put_all_ne puts d m a j other put
                        ∙ laws.get-create c d bucket a j created))),
              )
        ]
      ]
    ]
  ]
