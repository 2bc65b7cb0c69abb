-- ===== src/Node/Announce.antt =====
-- ProvideCommit, ReprovideAll and FindProvidersForCommit of internal/node/node.go. The DHT is a
-- parameter: which CIDs it accepts, and the peers that it finds. The state is what was announced.
pub mod Laws
use hf_ipfs.Prelude.{
  ℕ, zero, suc, Bool, true, false, not, ◌&&◌, List, [], ◌∷◌, ◌++◌, Option, none, some, Text,
  text_eq, if◌then◌else◌, Result, ok, err, map, take, Result-cases,
}
use hf_ipfs.Prelude.Int64.{ℤ, pos, negsuc}
use hf_ipfs.Cids.{CidLib}
use hf_ipfs.Node.Addresses.{dial_order}
use hf_ipfs.Dummy.{DummyError, from_commit}
use hf_ipfs.Mapping.Entries.{Entry}

pub data ProvideError : Type 0 where
  bad_commit : DummyError → ProvideError
  not_provided : ProvideError

module _ (L : CidLib) (accepts : L.Cid → Bool) where
  -- DHT.Provide
  unfoldable pub provide : L.Cid → List L.Cid → Bool × List L.Cid
  provide c announced = if accepts c then (true, c ∷ announced) else (false, announced)

  -- ProvideCommit, where the dummy CID is known.
  unfoldable pub provide_both :
      L.Cid → L.Cid → List L.Cid → Result ProvideError (Unit {0}) × List L.Cid
  provide_both dummy actual announced =
      let (done, after) = provide dummy announced in
      if not done
      then (err not_provided, after)
      else if L.defined actual && not (L.cid_Eq.beq actual dummy)
      then (ok tt, (provide actual after).1)
      else (ok tt, after)

  -- ProvideCommit
  unfoldable pub provide_commit :
      Text → L.Cid → List L.Cid → Result ProvideError (Unit {0}) × List L.Cid
  provide_commit commit actual announced = elim (from_commit L commit) [
    | err e ↦ (err (bad_commit e), announced)
    | ok dummy ↦ provide_both dummy actual announced
  ]

  -- The loop of ReprovideAll.
  unfoldable pub reprovide_entries : List Entry → ℕ → List L.Cid → ℕ × List L.Cid
  reprovide_entries [] n announced = (n, announced)
  reprovide_entries (e ∷ entries) n announced = elim (L.decode e.actual_cid) [
    | none ↦ reprovide_entries entries n announced
    | some actual ↦
        let (r, after) = provide_commit e.commit_hash actual announced in
        elim r [
          | err failure ↦ reprovide_entries entries n after
          | ok u ↦ reprovide_entries entries (suc n) after
        ]
  ]

  -- ReprovideAll, with the size of the routing table and what Mapping.List returns.
  unfoldable pub reprovide_all {ℓ} :
      {E : Type ℓ} → ℕ → Result E (List Entry) → List L.Cid → Result E ℕ × List L.Cid
  reprovide_all zero entries announced = (ok 0, announced)
  reprovide_all (suc peers) (err e) announced = (err e, announced)
  reprovide_all (suc peers) (ok entries) announced =
      let (n, after) = reprovide_entries entries 0 announced in (ok n, after)

-- The loop of FindProvidersForCommit over the peers that the DHT sends.
module _ {P A : Type 0} (is_self : P → Bool) (is_public : A → Bool) where
  unfoldable pub providers_of : List (P × List A) → List (P × List A)
  providers_of [] = []
  providers_of ((peer, addrs) ∷ found) =
      let rest = providers_of found in
      if is_self peer then rest else (peer, dial_order is_public addrs) ∷ rest

  unfoldable pub provider_limit : ℤ → ℤ
  provider_limit (negsuc n) = pos 16
  provider_limit (pos zero) = pos 16
  provider_limit (pos (suc n)) = pos (suc n)

  -- FindProvidersForCommit, with FindProvidersAsync of the DHT
  unfoldable pub find_providers_for_commit :
      (L : CidLib)
      → (L.Cid → ℤ → List (P × List A))
      → Text
      → ℤ
      → Result DummyError (List (P × List A))
  find_providers_for_commit L find commit limit = elim (from_commit L commit) [
    | err e ↦ err e
    | ok dummy ↦ ok (providers_of (find dummy (provider_limit limit)))
  ]
