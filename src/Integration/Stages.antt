-- ===== src/Integration/Stages.antt =====
-- apps/platform/lib/integration.ts: `integrationSteps` and `integrationStage`.
pub mod Furthest
use owne_x.Base.{ℕ, Bool, true, not, ◌&&◌, List, [], ◌∷◌, ltb, if◌then◌else◌}
use owne_x.Base.Text.{Text, codes, ◌===◌}

pub data IntegrationStage : Type 0 where
  draft registered callback secret active : IntegrationStage

unfoldable pub integration_stage_label : IntegrationStage → Text
integration_stage_label draft = codes "Draft"
integration_stage_label registered = codes "Registered on-chain"
integration_stage_label callback = codes "Callback configured"
integration_stage_label secret = codes "Secret generated"
integration_stage_label active = codes "Active"

pub record IntegrationStep : Type 0 where
  pub key : IntegrationStage
  pub label : Text
  pub done : Bool
  pub todo : Text

pub record IntegrationInput : Type 0 where
  pub registered_on_chain : Bool
  pub callback_count : ℕ
  pub has_client_secret : Bool
  pub roles_allowed_on_chain : ℕ
  pub status : Text

step : IntegrationStage → Bool → Text → IntegrationStep
unfolding integration_stage_label
step key done todo = record {
  key = key;
  label = integration_stage_label key;
  done = done;
  todo = todo;
}

abbrev is_revoked_input : IntegrationInput → Bool
is_revoked_input input = input.status === codes "revoked"

-- The five conditions, each with those before it.
abbrev is_registered : IntegrationInput → Bool
is_registered input = input.registered_on_chain && not (is_revoked_input input)

abbrev has_callback : IntegrationInput → Bool
has_callback input = is_registered input && ltb 0 input.callback_count

abbrev has_secret : IntegrationInput → Bool
has_secret input = has_callback input && input.has_client_secret

abbrev is_active_input : IntegrationInput → Bool
is_active_input input =
    has_secret input && ltb 0 input.roles_allowed_on_chain && not (is_revoked_input input)

abbrev active_todo : Bool → Text
active_todo revoked =
    if revoked
    then codes "This integration is revoked. Restore it to allow sign-in again."
    else codes "Grant at least one role access on-chain with setAppAccess."

unfoldable pub integration_steps : IntegrationInput → List IntegrationStep
unfolding step
integration_steps input =
    step draft true []
    ∷ step registered (is_registered input)
        (codes "An admin must sign registerApplication(orgId, appId, metadataHash).")
    ∷ step callback (has_callback input) (codes "Add at least one exact callback URL.")
    ∷ step secret (has_secret input)
        (codes "Generate a client secret and store it in the partner's backend.")
    ∷ step active (is_active_input input) (active_todo (is_revoked_input input))
    ∷ []

-- The loop, which a step that is not done breaks.
furthest : IntegrationStage → List IntegrationStep → IntegrationStage
furthest stage [] = stage
furthest stage (s ∷ steps) = let rest = furthest s.key steps in if s.done then rest else stage

unfoldable pub integration_stage : IntegrationInput → IntegrationStage
unfolding furthest
integration_stage input = furthest draft (integration_steps input)
