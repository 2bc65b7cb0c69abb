-- ===== src/Evict/Keeps.antt =====
-- What an eviction leaves: the blocks and the filestore references that another mapping entry needs.
use mathlib.Core.List.{Memᴰ}
use mathlib.Core.List.Memᴰ.{cases_cons}
use hf_ipfs.Prelude.{
  ◌≡◌, ◌⊎◌, refl, sym, subst, ◌∙◌, inl, inr, Bool, true, false, List, [], ◌∷◌, Option, some, Text,
  text_eq, text_eq_sound, err, arith, Bool-cases, Option-cases, and_next_lem, and_next,
}
use hf_ipfs.Prelude.Table.{text_Eq, lookup, member, lookup-remove}
use hf_ipfs.Cids.{CidLib}
use hf_ipfs.Mapping.Entries.{Entry, FileManifest}
use hf_ipfs.Pull.Transfer.{Filestore, FilestoreLaws}
use hf_ipfs.Hfcache.Paths.{Paths}
use hf_ipfs.Evict.Walk.{links}
use hf_ipfs.Evict.Walk.Exact.{Reach, Reach-sound, walk_from, walk_exact}
use hf_ipfs.Evict.{
  Outcome, query_failed, bad_actual_cid, list_failed, Tools, Held, keep_others, drop_cid, drop_cids,
  remove_blob, drop_blob, drop_blobs, drop_entry, drop_rest, drop_cache, drop_files, drop_all,
  evict_target, evict_commit, paths_of_entry, referenced_paths,
}

module _ (L : CidLib) (F : Filestore) (laws : FilestoreLaws F) (tools : Tools L F)
    (hub_dir : Text) where
  abbrev in_set : L.Cid → List L.Cid → Bool
  in_set c cs = member ⦃e = L.cid_Eq⦄ c cs

  abbrev Blocks : Type 0
  Blocks = List (Text × Text)

  module _ (commit : Text) (blocks : Blocks) where
    IsClosed : List L.Cid → Type 0
    IsClosed keep =
        (x y : L.Cid)
        → in_set x keep ≡ true
        → in_set y (links ⦃e = L.cid_Eq⦄ tools.dag blocks x) ≡ true
        → in_set y keep ≡ true

    Grows : List L.Cid → List L.Cid → Type 0
    Grows keep r = (x : L.Cid) → in_set x keep ≡ true → in_set x r ≡ true

    HasRoots : List Entry → List L.Cid → Type 0
    HasRoots others r =
        (o : Entry) (oc : L.Cid)
        → Memᴰ o others
        → text_eq o.commit_hash commit ≡ false
        → L.decode o.actual_cid ≡ some oc
        → in_set oc r ≡ true

    Kept : List Entry → List L.Cid → Type 0
    Kept others keep =
        (r : List L.Cid) × (keep_others L F tools hub_dir commit blocks others keep ≡ some r)
        × IsClosed r
        × Grows keep r
        × HasRoots others r

    only : {q : Option L.Cid} (a b : L.Cid) → q ≡ some a → q ≡ some b → a ≡ b
    only a b ha hb = ground (arith, ha, hb)

    -- An entry that adds nothing, since it has the commit itself or no CID.
    skip_lem :
        (o : Entry) (others : List Entry) (keep : List L.Cid)
        → ((oc : L.Cid)
            → text_eq o.commit_hash commit ≡ false
            → L.decode o.actual_cid ≡ some oc
            → ⊥)
        → keep_others L F tools hub_dir commit blocks (o ∷ others) keep
          ≡ keep_others L F tools hub_dir commit blocks others keep
        → Kept others keep
        → Kept (o ∷ others) keep
    unfolding Kept HasRoots
    skip_lem o others keep never same (r, done, closed, grows, roots) = (
      r,
      same ∙ done,
      closed,
      grows,
      λ p oc m other d. elim (cases_cons m) [
        | inl eq ↦ absurd (
            never oc (subst (λ q. text_eq q.commit_hash commit ≡ false) eq other)
              (subst (λ q. L.decode q.actual_cid ≡ some oc) eq d))
        | inr later ↦ roots p oc later other d
      ],
    )

    keep_others_lem : (others : List Entry) (keep : List L.Cid) → IsClosed keep → Kept others keep
    unfolding keep_others IsClosed Grows HasRoots Kept
    keep_others_lem [] keep closed = (keep, refl, closed, λ x h. h, λ o oc m. elim m [ ])
    keep_others_lem (o ∷ others) keep closed = elim (Bool-cases (text_eq o.commit_hash commit)) [
      | inl same ↦
          skip_lem o others keep (λ oc other d. absurd (ground (arith, same)))
            (ground (arith, same)) (keep_others_lem others keep closed)
      | inr other ↦ elim (Option-cases (L.decode o.actual_cid)) [
        | inl bad ↦
            skip_lem o others keep (λ oc ne d. absurd (ground (arith, bad)))
              (ground (arith, other, bad)) (keep_others_lem others keep closed)
        | inr (oc, good) ↦
            let (m, done, w, found) = walk_from ⦃e = L.cid_Eq⦄ tools.dag blocks oc keep in
            let (r, rest, closes, grows, roots) = keep_others_lem others m (λ x y h l.
              elim (w.closed x y h l) [
                | inl before ↦ w.grows y (closed x y before l)
                | inr new ↦ new
              ]) in
            (
              r,
              ground (arith, other, good, done, rest),
              closes,
              λ x h. grows x (w.grows x h),
              λ p pc later ne d. elim (cases_cons later) [
                | inl eq ↦ grows pc (
                    subst (λ c. in_set c m ≡ true)
                      (only oc pc good (subst (λ q. L.decode q.actual_cid ≡ some pc) eq d)) found)
                | inr behind ↦ roots p pc behind ne d
              ],
            )
      ]
    ]

  abbrev State : Type 0
  State = Held L F

  -- A CID of which neither the block nor the filestore reference changed.
  pub record IsKept (c : L.Cid) (s t : Held L F) : Type 0 where
    pub same_block :
        lookup (tools.dag.multihash c) t.blocks ≡ lookup (tools.dag.multihash c) s.blocks
    pub same_ref : F.get t.refs (tools.dag.multihash c) ≡ F.get s.refs (tools.dag.multihash c)

  IsKept-refl : (c : L.Cid) (s : State) → IsKept c s s
  IsKept-refl c s = record { same_block = refl; same_ref = refl }

  module _ (s : State) (x : L.Cid) where
    Keeps : State → Type 0
    Keeps t = IsKept x s t

    -- The CIDs of a list that share the multihash are kept.
    AreSpared : List L.Cid → List L.Cid → Type 0
    AreSpared keep cs =
        (c : L.Cid)
        → in_set c cs ≡ true
        → tools.dag.multihash c ≡ tools.dag.multihash x
        → in_set c keep ≡ true

    drop_cid_lem :
        (keep : List L.Cid) (c : L.Cid) (t : State)
        → (tools.dag.multihash c ≡ tools.dag.multihash x → in_set c keep ≡ true)
        → Keeps t
        → Keeps (drop_cid L F tools hub_dir keep c t).1
    unfolding drop_cid Keeps
    drop_cid_lem keep c t spared k = record {
      same_block = ground (
        arith,
        k.same_block,
        other,
        lookup-remove (tools.dag.multihash c) (tools.dag.multihash x) t.blocks,
      );
      same_ref = ground (
        arith,
        k.same_ref,
        other,
        laws.get-delete t.refs (tools.dag.multihash c) (tools.dag.multihash x),
      );
    }
      where
        other :
            (in_set c keep ≡ true)
            ⊎ (text_eq (tools.dag.multihash c) (tools.dag.multihash x) ≡ false)
        other = elim (Bool-cases (text_eq (tools.dag.multihash c) (tools.dag.multihash x))) [
          | inl same ↦
              inl (spared (text_eq_sound (tools.dag.multihash c) (tools.dag.multihash x) same))
          | inr ne ↦ inr ne
        ]

    drop_cids_lem :
        (keep cs : List L.Cid) (t : State)
        → AreSpared keep cs
        → Keeps t
        → Keeps (drop_cids L F tools hub_dir keep cs t).1
    unfolding drop_cids Keeps AreSpared
    drop_cids_lem keep [] t spared k = k
    drop_cids_lem keep (c ∷ cs) t spared k =
        and_next_lem Keeps (drop_cid L F tools hub_dir keep c t)
          (drop_cids L F tools hub_dir keep cs)
          (drop_cid_lem keep c t (spared c (ground (arith, L.cid_Eq.beq_iff c c))) k)
          (λ u q. drop_cids_lem keep cs u (λ d l. spared d (ground (arith, l))) q)

    drop_blob_lem :
        (paths : Paths) (remaining : List Text) (f : FileManifest) (t : State)
        → Keeps t
        → Keeps (drop_blob L F tools hub_dir paths remaining f t).1
    unfolding drop_blob remove_blob Keeps
    drop_blob_lem paths remaining f t k = record {
      same_block = ground (arith, k.same_block);
      same_ref = ground (arith, k.same_ref);
    }

    drop_blobs_lem :
        (paths : Paths) (remaining : List Text) (fs : List FileManifest) (t : State)
        → Keeps t
        → Keeps (drop_blobs L F tools hub_dir paths remaining fs t).1
    unfolding drop_blobs
    drop_blobs_lem paths remaining [] t k = k
    drop_blobs_lem paths remaining (f ∷ fs) t k =
        and_next_lem Keeps (drop_blob L F tools hub_dir paths remaining f t)
          (drop_blobs L F tools hub_dir paths remaining fs) (drop_blob_lem paths remaining f t k)
          (drop_blobs_lem paths remaining fs)

    drop_entry_lem :
        (commit : Text) (t : State) → Keeps t → Keeps (drop_entry L F tools hub_dir commit t).1
    unfolding drop_entry Keeps
    drop_entry_lem commit t k = record {
      same_block = ground (arith, k.same_block);
      same_ref = ground (arith, k.same_ref);
    }

    drop_rest_lem :
        (entry : Entry) (remaining : List Text) (t : State)
        → Keeps t
        → Keeps (drop_rest L F tools hub_dir entry remaining t).1
    unfolding drop_rest drop_cache Keeps
    drop_rest_lem entry remaining t k =
        let blobs =
          drop_blobs L F tools hub_dir (paths_of_entry L F tools hub_dir entry) remaining
            entry.files t in
        let forget = drop_entry L F tools hub_dir entry.commit_hash in
        and_next_lem Keeps (and_next blobs forget) (drop_cache L F tools hub_dir entry)
          (and_next_lem Keeps blobs forget
            (drop_blobs_lem (paths_of_entry L F tools hub_dir entry) remaining entry.files t k)
            (drop_entry_lem entry.commit_hash))
          (λ u q. record { same_block = q.same_block; same_ref = q.same_ref })

    -- The state behind an outcome that is computed to be another.
    along : (p q : Outcome L F) → p ≡ q → Keeps q.1 → Keeps p.1
    along p q eq k = subst (λ (p : Outcome L F). Keeps p.1) (sym eq) k

    drop_files_lem :
        (entry : Entry) (t : State) → Keeps t → Keeps (drop_files L F tools hub_dir entry t).1
    unfolding drop_files
    drop_files_lem entry t k = elim (Option-cases (referenced_paths L F tools hub_dir t.refs)) [
      | inl failed ↦
          along (drop_files L F tools hub_dir entry t) (err query_failed, t)
            (ground (arith, failed)) k
      | inr (remaining, read) ↦
          along (drop_files L F tools hub_dir entry t)
            (drop_rest L F tools hub_dir entry remaining t) (ground (arith, read))
            (drop_rest_lem entry remaining t k)
    ]

    drop_all_lem :
        (entry : Entry) (keep target : List L.Cid)
        → AreSpared keep (tools.shuffle target)
        → Keeps (drop_all L F tools hub_dir entry keep target s).1
    unfolding drop_all Keeps
    drop_all_lem entry keep target spared =
        and_next_lem Keeps (drop_cids L F tools hub_dir keep (tools.shuffle target) s)
          (drop_files L F tools hub_dir entry)
          (drop_cids_lem keep (tools.shuffle target) s spared (IsKept-refl x s))
          (drop_files_lem entry)

    evict_target_lem :
        (entry : Entry) (keep : List L.Cid)
        → ((c : L.Cid) (l : List L.Cid) → in_set c (tools.shuffle l) ≡ true → in_set c l ≡ true)
        → ((root c : L.Cid)
            → L.decode entry.actual_cid ≡ some root
            → Reach ⦃e = L.cid_Eq⦄ tools.dag s.blocks root c
            → tools.dag.multihash c ≡ tools.dag.multihash x
            → c ≡ x)
        → in_set x keep ≡ true
        → Keeps (evict_target L F tools hub_dir entry keep s).1
    unfolding evict_target Keeps AreSpared
    evict_target_lem entry keep shuffled alone kept =
        elim (Option-cases (L.decode entry.actual_cid)) [
          | inl bad ↦
              along (evict_target L F tools hub_dir entry keep s) (err bad_actual_cid, s)
                (ground (arith, bad)) (IsKept-refl x s)
          | inr (root, good) ↦
              let (target, done, reached) = walk_exact ⦃e = L.cid_Eq⦄ tools.dag s.blocks root in
              along (evict_target L F tools hub_dir entry keep s)
                (drop_all L F tools hub_dir entry keep target s) (ground (arith, good, done))
                (drop_all_lem entry keep target (λ c l same.
                  subst (λ y. in_set y keep ≡ true)
                    (sym (alone root c good ((reached c).0 (shuffled c target l)) same)) kept))
        ]

  reached_lem :
      (blocks : Blocks) (keep : List L.Cid) (commit : Text)
      → IsClosed commit blocks keep
      → (root x : L.Cid) → in_set root keep ≡ true
      → Reach ⦃e = L.cid_Eq⦄ tools.dag blocks root x
      → in_set x keep ≡ true
  unfolding IsClosed
  reached_lem blocks keep commit closed =
      Reach-sound ⦃e = L.cid_Eq⦄ tools.dag blocks (λ y. in_set y keep ≡ true) closed

  IsClosed-nil : (blocks : Blocks) (commit : Text) → IsClosed commit blocks []
  unfolding IsClosed
  IsClosed-nil blocks commit y z h l = absurd (ground arith)

  -- An eviction, whether it succeeds or fails, leaves the block and the filestore reference under the multihash
  -- of every CID that can be reached, when it starts, from the actual CID of an entry with another commit, if
  -- no other CID that the evicted entry reaches has the same multihash.
  pub evict_commit_keeps_others :
      (entry : Entry) (s : Held L F) (o : Entry) (oc x : L.Cid)
      → ((c : L.Cid) (l : List L.Cid) → in_set c (tools.shuffle l) ≡ true → in_set c l ≡ true)
      → ((root c : L.Cid)
          → L.decode entry.actual_cid ≡ some root
          → Reach ⦃e = L.cid_Eq⦄ tools.dag s.blocks root c
          → tools.dag.multihash c ≡ tools.dag.multihash x
          → c ≡ x)
      → Memᴰ o s.shared
      → text_eq o.commit_hash entry.commit_hash ≡ false
      → L.decode o.actual_cid ≡ some oc
      → Reach ⦃e = L.cid_Eq⦄ tools.dag s.blocks oc x
      → IsKept x s (evict_commit L F tools hub_dir entry s).1
  unfolding evict_commit Keeps HasRoots Kept
  evict_commit_keeps_others entry s o oc x shuffled alone m other d path =
      let (keep, done, closed, grows, roots) =
        keep_others_lem entry.commit_hash s.blocks s.shared []
          (IsClosed-nil s.blocks entry.commit_hash) in
      let kept =
        reached_lem s.blocks keep entry.commit_hash closed oc x (roots o oc m other d) path in
      elim (Bool-cases tools.list_succeeds) [
        | inl listed ↦
            along s x (evict_commit L F tools hub_dir entry s)
              (evict_target L F tools hub_dir entry keep s) (ground (arith, listed, done))
              (evict_target_lem s x entry keep shuffled alone kept)
        | inr failed ↦
            along s x (evict_commit L F tools hub_dir entry s) (err list_failed, s)
              (ground (arith, failed)) (IsKept-refl x s)
      ]
