-- ===== src/Assets/Confirm/Changes.antt =====
-- What a call of the route may change of each row, however it ends.
use owne_x.Base.{
  ◌≡◌, ◌≢◌, ◌⊎◌, refl, sym, ap, subst, ◌∙◌, inl, inr, Bool, ◌==◌, Option, none, some, Read,
  Bool-cases, Option-cases, Outcome-cases, ok, thrown,
}
use owne_x.Base.Text.{lower, Text, codes}
use owne_x.Chain.Reads.{Contracts}
use owne_x.Sessions.Guards.{require_permission}
use owne_x.Assets.Binding.{AssetNft, ChainAsset, read_asset, same_hex}
use owne_x.Assets.Store.{
  released_row, AssetRow, AssetTable, AssetDeployment, AssetRequest, load_draft, read_claims,
  claims_on, bound_row, bind_token, ReleaseResult, all_released, conflicts_with, release_failed,
  release_claims,
}
use owne_x.Assets.Store.Claims.{
  IsClaim, StampedElsewhere, claims_on-IsClaim, verdict_on-contradicted,
}
use owne_x.Assets.Store.Changes.{
  Pointwise, Pointwise-refl, Pointwise-trans, Released, MayRelease, MayBind, bind_token-MayBind,
  release_claims-MayRelease, release_claims-columns,
}
use owne_x.Assets.Confirm.{
  ConfirmBody, readable, after_release, claim_token, compare_asset, check_draft, confirm,
  row_with_id,
}

module _ (answers : AssetRequest → Bool) (chain : Contracts) (nft : AssetNft) (d : AssetDeployment)
    (caller : Option Text) (id : Text) (body : ConfirmBody) where
  -- The row is bound: it was a draft of the id that was asked for.
  abbrev pub IsBound : Bool → AssetRow → AssetRow → Type 0
  IsBound columns x z =
      (x.id ≡ id) × (x.token_id ≡ none) × (z ≡ bound_row columns d body.token_id body.tx_hash x)

  -- The row lost the token. It is another row; its id is that of a record that held the token, was
  -- not stamped with another deployment's address, and had another anchor than the token has.
  pub record IsReleased (table : AssetTable) (x z : AssetRow) : Type 0 where
    pub other : x.id ≢ id
    pub held : x.token_id ≡ some body.token_id
    pub asset : ChainAsset
    pub minted : read_asset nft body.token_id ≡ ok (some asset)
    pub claim : AssetRow
    pub claimed : IsClaim body.token_id id table.rows claim
    pub same_id : claim.id ≡ x.id
    pub here : ¬ StampedElsewhere table.has_deployment_columns d claim
    pub other_anchor : lower claim.asset_hash ≢ lower asset.asset_hash
    pub changed : z ≡ released_row x

  abbrev pub Changed : AssetTable → AssetRow → AssetRow → Type 0
  Changed table x z = (z ≡ x) ⊎ IsReleased table x z ⊎ IsBound table.has_deployment_columns x z

  Pointwise-same : (table : AssetTable) → Pointwise (Changed table) table.rows table.rows
  Pointwise-same table = Pointwise-refl _ table.rows (λ x. inl refl)

  Released-IsReleased :
      (table : AssetTable) (asset : ChainAsset) (x y : AssetRow)
      → read_asset nft body.token_id ≡ ok (some asset)
      → Released answers d asset.asset_hash body.token_id table.has_deployment_columns
          (claims_on body.token_id id table.rows)
          x
          y
      → IsReleased table x y
  Released-IsReleased table asset x y e r =
      let (there, held, other) = claims_on-IsClaim body.token_id id table.rows r.claim r.claimed in
      let (here, other_anchor) =
        verdict_on-contradicted answers d asset.asset_hash table.has_deployment_columns r.claim
          r.contradicted in
      record {
        other = λ is_id. other (r.same_id ∙ is_id);
        held = r.held;
        asset = asset;
        minted = e;
        claim = r.claim;
        claimed = (there, held, other);
        same_id = r.same_id;
        here = here;
        other_anchor = other_anchor;
        changed = r.changed;
      }

  -- A row that was released is not the one that is bound.
  release-bind :
      (table : AssetTable) (asset : ChainAsset) (x y z : AssetRow)
      → read_asset nft body.token_id ≡ ok (some asset)
      → MayRelease answers d asset.asset_hash body.token_id table.has_deployment_columns
          (claims_on body.token_id id table.rows)
          x
          y
      → MayBind answers d id body.token_id body.tx_hash table.has_deployment_columns y z
      → Changed table x z
  release-bind table asset x y z e (inl same) (inl same') = inl (same' ∙ same)
  release-bind table asset x y z e (inl same) (inr (is_id, draft, bound')) =
      inr (inr (subst (λ w. IsBound table.has_deployment_columns w z) same (is_id, draft, bound')))
  release-bind table asset x y z e (inr r) (inl same') = inr (
      inl (subst (λ w. IsReleased table x w) (sym same') (Released-IsReleased table asset x y e r)))
  release-bind table asset x y z e (inr r) (inr (is_id, draft, bound')) =
      let v = Released-IsReleased table asset x y e r in
      absurd (v.other (sym (ap (λ (w : AssetRow). w.id) v.changed) ∙ is_id))

  after_release-Changed :
      (table released : AssetTable) (asset : ChainAsset) (result : ReleaseResult)
      → read_asset nft body.token_id ≡ ok (some asset)
      → released.has_deployment_columns ≡ table.has_deployment_columns
      → Pointwise
          (MayRelease answers d asset.asset_hash body.token_id table.has_deployment_columns
            (claims_on body.token_id id table.rows))
          table.rows
          released.rows
      → Pointwise
          (Changed table)
          table.rows
          (after_release answers chain nft d caller id body asset (result, released)).1.rows
  unfolding after_release
  after_release-Changed table released asset (conflicts_with c) e columns h =
      Pointwise-trans _ _ _ table.rows released.rows released.rows
        (λ x y z r same. release-bind table asset x y z e r (inl same)) h
        (Pointwise-refl (λ x y. y ≡ x) released.rows (λ x. refl))
  after_release-Changed table released asset release_failed e columns h =
      Pointwise-trans _ _ _ table.rows released.rows released.rows
        (λ x y z r same. release-bind table asset x y z e r (inl same)) h
        (Pointwise-refl (λ x y. y ≡ x) released.rows (λ x. refl))
  after_release-Changed table released asset all_released e columns h =
      Pointwise-trans _ _ _ table.rows released.rows _ (λ x y z. release-bind table asset x y z e) h
        (subst
          (λ b.
            Pointwise (MayBind answers d id body.token_id body.tx_hash b) released.rows
              (bind_token answers d id body.token_id body.tx_hash released).1.rows)
          columns (bind_token-MayBind answers d id body.token_id body.tx_hash released))

  claim_token-Changed :
      (table : AssetTable) (asset : ChainAsset)
      → read_asset nft body.token_id ≡ ok (some asset)
      → Pointwise
          (Changed table)
          table.rows
          (claim_token answers chain nft d caller id body asset table).1.rows
  unfolding claim_token
  claim_token-Changed table asset e = elim (Bool-cases (answers read_claims)) [
    | inr refused ↦ rw refused (Pointwise-same table)
    | inl answered ↦
        let claims = claims_on body.token_id id table.rows in
        let done' = release_claims answers d asset.asset_hash body.token_id claims table in
        rw answered (
          after_release-Changed table done'.1 asset done'.0 e
            (release_claims-columns answers d asset.asset_hash body.token_id claims table)
            (release_claims-MayRelease answers d asset.asset_hash body.token_id claims claims table
              (λ c m. m)))
  ]

  compare_asset-Changed :
      (table : AssetTable) (draft : AssetRow) (found : Read (Option ChainAsset))
      → read_asset nft body.token_id ≡ found
      → Pointwise
          (Changed table)
          table.rows
          (compare_asset answers chain nft d caller id draft body found table).1.rows
  unfolding compare_asset
  compare_asset-Changed table draft (thrown reason) e = Pointwise-same table
  compare_asset-Changed table draft (ok none) e = Pointwise-same table
  compare_asset-Changed table draft (ok (some asset)) e =
      elim (Bool-cases (asset.org_id == draft.org_id)) [
        | inr other ↦ rw other (Pointwise-same table)
        | inl own ↦ elim (Bool-cases (same_hex asset.asset_hash draft.asset_hash)) [
          | inr differs ↦ rw (own, differs) (Pointwise-same table)
          | inl same ↦ rw (own, same) (claim_token-Changed table asset e)
        ]
      ]

  check_draft-Changed :
      (table : AssetTable) (draft : AssetRow)
      → Pointwise
          (Changed table)
          table.rows
          (check_draft answers chain nft d caller id body draft table).1.rows
  unfolding check_draft
  check_draft-Changed table draft = elim (Option-cases draft.token_id) [
    | inr (token, e) ↦ rw (e, check_draft) (Pointwise-same table)
    | inl free ↦
        elim (Outcome-cases (require_permission chain caller draft.org_id (codes "MINT_ASSETS"))) [
          | inr (reason, e) ↦ rw (free, e, check_draft) (Pointwise-same table)
          | inl (member, e) ↦
              rw (free, e, check_draft)
                (compare_asset-Changed table draft (read_asset nft body.token_id) refl)
        ]
  ]

  -- However a readable request to confirm ends, and whichever requests the database refuses, each
  -- record of the table is as it was, or is another one than the record asked for, held the token,
  -- has the id of a record that held it with another anchor than the token has on the chain and
  -- without the stamp of another deployment, and lost the token and its transaction only, or was a
  -- draft with the id asked for and is bound.
  pub confirm-Changed :
      (table : AssetTable)
      → Pointwise
          (Changed table)
          table.rows
          (confirm answers chain nft d caller id (readable body) table).1.rows
  unfolding confirm
  confirm-Changed table = elim (Bool-cases (answers load_draft)) [
    | inr refused ↦ rw refused (Pointwise-same table)
    | inl answered ↦ elim (Option-cases (row_with_id id table.rows)) [
      | inl missing ↦ rw (answered, missing, confirm) (Pointwise-same table)
      | inr (draft, e) ↦ rw (answered, e, confirm) (check_draft-Changed table draft)
    ]
  ]
