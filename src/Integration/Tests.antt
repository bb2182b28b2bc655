-- ===== src/Integration/Tests.antt =====
-- An application with a callback and no secret.
use owne_x.Base.{◌≡◌, ◌↔◌, true, false}
use owne_x.Base.Text.{codes}
use owne_x.Integration.Stages.{IntegrationInput, callback, integration_stage}
use owne_x.Integration.Stages.Furthest.{IsFurthest, integration_stage_iff}

abbrev input : IntegrationInput
input = record {
  registered_on_chain = true;
  callback_count = 2;
  has_client_secret = false;
  roles_allowed_on_chain = 1;
  status = codes "active";
}

integration_stage_iff_example : (integration_stage input ≡ callback) ↔ IsFurthest input callback
integration_stage_iff_example = integration_stage_iff input callback
