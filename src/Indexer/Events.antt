-- ===== src/Indexer/Events.antt =====
-- The events that are kept, and the row that is made of one: `extract`, `TRACKED`, `readablePayload`.
-- How JavaScript turns a decoded argument into a string or a number is the record `Conversions`.
use owne_x.Base.{ℕ, zero, suc, Bool, ◌&&◌, Option, none, some, List, [], ◌∷◌, if◌then◌else◌, find}
use mathlib.Core.Option
use owne_x.Base.Text.{Text, codes, ◌===◌, lower, includes}
use owne_x.Chain.Roles.{role_name, role_text}

pub data ContractName : Type 0 where
  identity_registry org_access_manager asset_nft : ContractName

-- The events of the switch, which are those of `TRACKED`.
pub data TrackedEvent : Type 0 where
  identity_registered identity_hash_updated identity_revoked identity_reactivated : TrackedEvent
  organization_created organization_status_changed org_root_admin_transferred : TrackedEvent
  organization_metadata_updated registrar_updated : TrackedEvent
  member_added member_removed role_assigned role_expiry_updated permission_updated : TrackedEvent
  application_registered app_access_changed : TrackedEvent
  asset_minted asset_assigned asset_revoked asset_restored asset_metadata_updated : TrackedEvent

abbrev pub event_text : TrackedEvent → Text
event_text identity_registered = codes "IdentityRegistered"
event_text identity_hash_updated = codes "IdentityHashUpdated"
event_text identity_revoked = codes "IdentityRevoked"
event_text identity_reactivated = codes "IdentityReactivated"
event_text organization_created = codes "OrganizationCreated"
event_text organization_status_changed = codes "OrganizationStatusChanged"
event_text org_root_admin_transferred = codes "OrgRootAdminTransferred"
event_text organization_metadata_updated = codes "OrganizationMetadataUpdated"
event_text registrar_updated = codes "RegistrarUpdated"
event_text member_added = codes "MemberAdded"
event_text member_removed = codes "MemberRemoved"
event_text role_assigned = codes "RoleAssigned"
event_text role_expiry_updated = codes "RoleExpiryUpdated"
event_text permission_updated = codes "PermissionUpdated"
event_text application_registered = codes "ApplicationRegistered"
event_text app_access_changed = codes "AppAccessChanged"
event_text asset_minted = codes "AssetMinted"
event_text asset_assigned = codes "AssetAssigned"
event_text asset_revoked = codes "AssetRevoked"
event_text asset_restored = codes "AssetRestored"
event_text asset_metadata_updated = codes "AssetMetadataUpdated"

abbrev pub tracked : List TrackedEvent
tracked =
    identity_registered ∷ identity_hash_updated ∷ identity_revoked ∷ identity_reactivated
    ∷ registrar_updated ∷ organization_created ∷ organization_metadata_updated
    ∷ organization_status_changed ∷ org_root_admin_transferred ∷ member_added ∷ member_removed
    ∷ role_assigned ∷ role_expiry_updated ∷ permission_updated ∷ application_registered
    ∷ app_access_changed ∷ asset_minted ∷ asset_assigned ∷ asset_revoked ∷ asset_restored
    ∷ asset_metadata_updated ∷ []

-- `TRACKED.has(name)`, with the case of the switch that it is.
unfoldable pub tracked_event : Text → Option TrackedEvent
tracked_event name = find (λ e. event_text e === name) tracked

-- A decoded argument: an integer, or a value of another type by its text.
pub data ArgValue : Type 0 where
  big : ℕ → ArgValue
  other : Text → ArgValue

pub record Conversions : Type 0 where
  pub string_of : ArgValue → Text
  pub number_of : ArgValue → ℕ
  pub keccak_id : Text → Text

-- An input of the event's fragment.
pub record EventInput : Type 0 where
  pub name : Text
  pub type' : Text

pub record EventLog : Type 0 where
  pub event_name : Text
  pub args : List ArgValue
  pub inputs : List EventInput
  pub transaction_hash : Text
  pub block_number : ℕ
  pub index : ℕ

-- A log whose topic is of no event of the ABI is `undecoded`.
pub data Log : Type 0 where
  decoded : EventLog → Log
  undecoded : Log

-- `args[i]`
abbrev pub arg_at : ℕ → List ArgValue → Option ArgValue
arg_at n [] = none
arg_at zero (a ∷ args) = some a
arg_at (suc n) (a ∷ args) = arg_at n args

pub record EventFields : Type 0 where
  pub org_id : Option ℕ
  pub actor : Option Text
  pub subject : Option Text
  pub token_id : Option ℕ

pub data PayloadValue : Type 0 where
  number : ℕ → PayloadValue
  text : Text → PayloadValue

module _ (js : Conversions) where
  -- The positions of the arguments that are read; `none` is a field that is null.
  unfoldable fields_at : List ArgValue → (org actor subject token : Option ℕ) → EventFields
  fields_at args org actor subject token = record {
    org_id = number_at org;
    actor = text_at actor;
    subject = text_at subject;
    token_id = number_at token;
  }
    where
      text_at : Option ℕ → Option Text
      text_at none = none
      text_at (some i) = Option.map js.string_of (arg_at i args)

      number_at : Option ℕ → Option ℕ
      number_at none = none
      number_at (some i) = Option.map js.number_of (arg_at i args)

  unfoldable pub extract : TrackedEvent → List ArgValue → EventFields
  unfolding fields_at
  extract identity_registered a = fields_at a none (some 2) (some 0) none
  extract identity_hash_updated a = fields_at a none (some 3) (some 0) none
  extract identity_revoked a = fields_at a none (some 1) (some 0) none
  extract identity_reactivated a = fields_at a none (some 1) (some 0) none
  extract organization_created a = fields_at a (some 0) (some 1) (some 1) none
  extract organization_status_changed a = fields_at a (some 0) (some 2) none none
  extract org_root_admin_transferred a = fields_at a (some 0) (some 1) (some 2) none
  extract organization_metadata_updated a = fields_at a (some 0) none none none
  extract registrar_updated a = fields_at a none none (some 0) none
  extract member_added a = fields_at a (some 0) (some 4) (some 1) none
  extract member_removed a = fields_at a (some 0) (some 3) (some 1) none
  extract role_assigned a = fields_at a (some 0) (some 5) (some 1) none
  extract role_expiry_updated a = fields_at a (some 0) (some 4) (some 1) none
  extract permission_updated a = fields_at a (some 0) (some 4) none none
  extract application_registered a = fields_at a (some 0) (some 3) none none
  extract app_access_changed a = fields_at a (some 0) (some 4) none none
  extract asset_minted a = fields_at a (some 1) (some 5) (some 2) (some 0)
  extract asset_assigned a = fields_at a none (some 3) (some 2) (some 0)
  extract asset_revoked a = fields_at a none (some 3) (some 1) (some 0)
  extract asset_restored a = fields_at a none (some 2) (some 1) (some 0)
  extract asset_metadata_updated a = fields_at a none (some 4) none (some 0)

  is_role_input : EventInput → Bool
  is_role_input input =
      input.type' === codes "bytes32" && includes (lower input.name) (codes "role")

  payload_value : EventInput → Option ArgValue → PayloadValue
  unfolding is_role_input
  payload_value input (some (big n)) = number (js.number_of (big n))
  payload_value input (some (other t)) =
      if is_role_input input
      then text (role_text (role_name js.keccak_id (js.string_of (other t))))
      else text (js.string_of (other t))
  payload_value input none =
      if is_role_input input
      then text (role_text (role_name js.keccak_id (codes "undefined")))
      else text (codes "undefined")

  -- `out[name] = value`: a name that is there keeps its place.
  set_entry : Text → PayloadValue → List (Text × PayloadValue) → List (Text × PayloadValue)
  set_entry name v [] = (name, v) ∷ []
  set_entry name v ((k, w) ∷ out) =
      let rest = set_entry name v out in if k === name then (name, v) ∷ out else (k, w) ∷ rest

  payload_from :
      ℕ → List ArgValue → List EventInput → List (Text × PayloadValue) → List (Text × PayloadValue)
  unfolding payload_value set_entry
  payload_from i args [] out = out
  payload_from i args (input ∷ inputs) out =
      payload_from (suc i) args inputs
        (set_entry input.name (payload_value input (arg_at i args)) out)

  unfoldable pub readable_payload : EventLog → List (Text × PayloadValue)
  unfolding payload_from
  readable_payload log = payload_from 0 log.args log.inputs []
