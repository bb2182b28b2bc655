-- ===== src/Assets/Confirm/Sound.antt =====
-- What a confirmation rests on, and the row that it leaves.
use owne_x.Base.{
  ◌⊎◌, ◌≡◌, ◌≢◌, refl, subst, inl, inr, Bool, true, ◌==◌, Option, none, some, Memᴰ, Read, arith,
  Bool-cases, Option-cases, Outcome-cases, ok, thrown,
}
use owne_x.Base.Text.{Text, codes, lower, ===_iff}
use owne_x.Chain.Reads.{Contracts}
use owne_x.Sessions.Guards.{Member, require_permission}
use owne_x.Assets.Binding.{AssetNft, ChainAsset, conflict, read_asset, same_hex}
use owne_x.Assets.Store.{
  AssetRow, AssetTable, AssetDeployment, AssetRequest, load_draft, read_claims, claims_on,
  bound_row, BindResult, bound, unique_violation, no_draft_left, bind_failed, bind_token,
  verdict_on, ReleaseResult, all_released, conflicts_with, release_failed, release_claims,
}
use owne_x.Assets.Store.Claims.{
  IsClaim, StampedElsewhere, IsClaim-claims_on, verdict_on-uncontested,
}
use owne_x.Assets.Store.Changes.{release_claims-columns}
use owne_x.Assets.Confirm.Draft.{release_claims-draft, release_claims-uncontested, bind_token-draft}
use owne_x.Assets.Confirm.{
  ConfirmBody, confirmed, readable, answer_bound, after_release, claim_token, compare_asset,
  check_draft, confirm, row_with_id,
}

module _ (answers : AssetRequest → Bool) (chain : Contracts) (nft : AssetNft) (d : AssetDeployment)
    (caller : Option Text) (id : Text) (body : ConfirmBody) where
  -- What a confirmation with `asset` rests on, and the record after it.
  pub record Confirmation (before after : AssetTable) (asset : ChainAsset) : Type 0 where
    pub draft : AssetRow
    pub found : row_with_id id before.rows ≡ some draft
    pub free : draft.token_id ≡ none
    pub member : Member
    pub permitted : require_permission chain caller draft.org_id (codes "MINT_ASSETS") ≡ ok member
    pub minted : read_asset nft body.token_id ≡ ok (some asset)
    pub own_organization : asset.org_id ≡ draft.org_id
    pub same_anchor : lower asset.asset_hash ≡ lower draft.asset_hash
    pub uncontested :
        (c : AssetRow)
        → IsClaim body.token_id id before.rows c
        → StampedElsewhere before.has_deployment_columns d c
          ⊎ (lower c.asset_hash ≢ lower asset.asset_hash)
    pub binding :
        row_with_id id after.rows
        ≡ some (bound_row before.has_deployment_columns d body.token_id body.tx_hash draft)

  -- The claims of the token and the binding of the draft.
  abbrev Claimed : AssetTable → AssetTable → AssetRow → ChainAsset → Type 0
  Claimed before after draft asset =
      ((c : AssetRow)
        → Memᴰ c (claims_on body.token_id id before.rows)
        → verdict_on answers d asset.asset_hash before.has_deployment_columns c ≢ conflict)
      × (row_with_id id after.rows
          ≡ some (bound_row before.has_deployment_columns d body.token_id body.tx_hash draft))

  answer_bound-bound :
      (asset asset' : ChainAsset) (result : BindResult)
      → answer_bound answers chain nft d caller asset result ≡ confirmed asset'
      → (result ≡ bound) × (asset ≡ asset')
  unfolding answer_bound
  answer_bound-bound asset asset' bound h = (refl, cc h)
  answer_bound-bound asset asset' unique_violation h = absurd (cc h)
  answer_bound-bound asset asset' no_draft_left h = absurd (cc h)
  answer_bound-bound asset asset' bind_failed h = absurd (cc h)

  after_release-Claimed :
      (table released : AssetTable) (draft : AssetRow) (asset asset' : ChainAsset)
      (result : ReleaseResult)
      → draft.token_id ≡ none
      → row_with_id id released.rows ≡ some draft
      → released.has_deployment_columns ≡ table.has_deployment_columns
      → (after_release answers chain nft d caller id body asset (result, released)).0
        ≡ confirmed asset'
      → (result ≡ all_released)
        × (asset ≡ asset')
        × (row_with_id id
              (after_release answers chain nft d caller id body asset (result, released)).1.rows
            ≡ some (bound_row table.has_deployment_columns d body.token_id body.tx_hash draft))
  unfolding after_release
  after_release-Claimed table released draft asset asset' (conflicts_with c) free e columns h =
      absurd (cc h)
  after_release-Claimed table released draft asset asset' release_failed free e columns h =
      absurd (cc h)
  after_release-Claimed table released draft asset asset' all_released free e columns h =
      let (is_bound, same) = answer_bound-bound asset asset' _ h in
      (
        refl,
        same,
        subst
            (λ b.
              row_with_id id (bind_token answers d id body.token_id body.tx_hash released).1.rows
              ≡ some (bound_row b d body.token_id body.tx_hash draft))
            columns
            (bind_token-draft answers d id body.token_id body.tx_hash released draft free e
              is_bound),
      )

  claim_token-Claimed :
      (table : AssetTable) (draft : AssetRow) (asset asset' : ChainAsset)
      → draft.token_id ≡ none
      → row_with_id id table.rows ≡ some draft
      → (claim_token answers chain nft d caller id body asset table).0 ≡ confirmed asset'
      → (asset ≡ asset')
        × Claimed table (claim_token answers chain nft d caller id body asset table).1 draft asset
  unfolding claim_token
  claim_token-Claimed table draft asset asset' free e h = elim (Bool-cases (answers read_claims)) [
    | inr refused ↦ absurd (cc (rw refused at h))
    | inl answered ↦
        let claims = claims_on body.token_id id table.rows in
        let (result, after) =
          release_claims answers d asset.asset_hash body.token_id claims table in
        let (released, same, binding) =
          after_release-Claimed table _ draft asset asset' _ free
            (release_claims-draft answers d id asset.asset_hash body.token_id claims table draft
              free e)
            (release_claims-columns answers d asset.asset_hash body.token_id claims table)
            (rw answered at h) in
        (
          same,
          (
            release_claims-uncontested answers d id asset.asset_hash body.token_id claims table
                released,
            rw answered binding,
          ),
        )
  ]

  compare_asset-Confirmation :
      (table : AssetTable) (draft : AssetRow) (member : Member) (asset' : ChainAsset)
      (read : Read (Option ChainAsset))
      → read_asset nft body.token_id ≡ read
      → draft.token_id ≡ none
      → row_with_id id table.rows ≡ some draft
      → require_permission chain caller draft.org_id (codes "MINT_ASSETS") ≡ ok member
      → (compare_asset answers chain nft d caller id draft body read table).0 ≡ confirmed asset'
      → Confirmation table
          (compare_asset answers chain nft d caller id draft body read table).1
          asset'
  unfolding compare_asset
  compare_asset-Confirmation table draft member asset' (thrown reason) r free e permitted h =
      absurd (cc h)
  compare_asset-Confirmation table draft member asset' (ok none) r free e permitted h =
      absurd (cc h)
  compare_asset-Confirmation table draft member asset' (ok (some asset)) r free e permitted h =
      elim (Bool-cases (asset.org_id == draft.org_id)) [
        | inr other ↦ absurd (cc (rw other at h))
        | inl own ↦ elim (Bool-cases (same_hex asset.asset_hash draft.asset_hash)) [
          | inr differs ↦ absurd (cc (rw (own, differs) at h))
          | inl same ↦
              rw (own, same)
                (confirmation own same
                  (claim_token-Claimed table draft asset asset' free e (rw (own, same) at h)))
        ]
      ]
    where
      confirmation :
          (asset.org_id == draft.org_id) ≡ true
          → same_hex asset.asset_hash draft.asset_hash ≡ true
          → (asset ≡ asset')
            × Claimed table
                (claim_token answers chain nft d caller id body asset table).1
                draft
                asset
          → Confirmation table (claim_token answers chain nft d caller id body asset table).1 asset'
      confirmation own same (is, (uncontested, binding)) =
          subst
            (λ a.
              Confirmation table (claim_token answers chain nft d caller id body asset table).1 a)
            is
            (record {
              draft = draft;
              found = e;
              free = free;
              member = member;
              permitted = permitted;
              minted = r;
              own_organization = ground arith;
              same_anchor =
                  ground (arith, ===_iff (lower asset.asset_hash) (lower draft.asset_hash));
              uncontested = λ c claim.
                  verdict_on-uncontested answers d asset.asset_hash table.has_deployment_columns c
                    (uncontested c (IsClaim-claims_on body.token_id id table.rows c claim));
              binding = binding;
            })

  -- Where the route confirms a token for a record, the record was a draft, the guard of
  -- MINT_ASSETS let the caller pass in the organization of the draft, the chain holds a token with
  -- that organization and with the anchor of the draft up to case, every other record that held
  -- the token is stamped with the address of another deployment or has another anchor than the
  -- token, up to case, and the record is now bound to the token and the transaction.
  pub confirm-Confirmation :
      (table : AssetTable) (asset : ChainAsset)
      → (confirm answers chain nft d caller id (readable body) table).0 ≡ confirmed asset
      → Confirmation table (confirm answers chain nft d caller id (readable body) table).1 asset
  unfolding confirm check_draft
  confirm-Confirmation table asset h = elim (Bool-cases (answers load_draft)) [
    | inr refused ↦ absurd (cc (rw refused at h))
    | inl answered ↦ elim (Option-cases (row_with_id id table.rows)) [
      | inl missing ↦ absurd (cc (rw (answered, missing, confirm) at h))
      | inr (draft, e) ↦ elim (Option-cases draft.token_id) [
        | inr (token, bound') ↦ absurd (cc (rw (answered, e, bound', confirm, check_draft) at h))
        | inl free ↦
            elim (Outcome-cases
              (require_permission chain caller draft.org_id (codes "MINT_ASSETS"))) [
                | inr (reason, no') ↦
                    absurd (cc (rw (answered, e, free, no', confirm, check_draft) at h))
                | inl (member, ok') ↦
                    rw (answered, e, free, ok', confirm, check_draft)
                      (compare_asset-Confirmation table draft member asset
                        (read_asset nft body.token_id) refl free e ok'
                        (rw (answered, e, free, ok', confirm, check_draft) at h))
              ]
      ]
    ]
  ]
