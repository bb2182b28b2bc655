-- ===== src/Integration/Stages/Furthest.antt =====
-- What each stage stands for, stated without the loop.
use owne_x.Base.{ℕ, suc, ◌≤◌, ◌<◌, ◌≡◌, ◌≢◌, ◌↔◌, true, arith}
use owne_x.Base.Text.{codes, ===_iff}
use owne_x.Integration.Stages.{
  IntegrationStage, draft, registered, callback, secret, active, IntegrationInput,
  integration_stage, integration_steps,
}

-- What a stage asks beyond the stages before it.
abbrev pub Meets : IntegrationInput → IntegrationStage → Type 0
Meets input draft = Unit
Meets input registered = (input.registered_on_chain ≡ true) × (input.status ≢ codes "revoked")
Meets input callback = 0 < input.callback_count
Meets input secret = input.has_client_secret ≡ true
Meets input active = 0 < input.roles_allowed_on_chain

abbrev pub order : IntegrationStage → ℕ
order draft = 0
order registered = 1
order callback = 2
order secret = 3
order active = 4

-- Everything up to the stage is met, and what the next one asks is not.
abbrev pub IsFurthest : IntegrationInput → IntegrationStage → Type 0
IsFurthest input stage =
    ((s : IntegrationStage) → order s ≤ order stage → Meets input s)
    × ((s : IntegrationStage) → order s ≡ suc (order stage) → ¬ Meets input s)

module _ (input : IntegrationInput) where
  stage-Meets :
      (stage s : IntegrationStage)
      → integration_stage input ≡ stage
      → order s ≤ order stage
      → Meets input s
  unfolding integration_stage integration_steps
  stage-Meets stage draft h le = tt
  stage-Meets stage registered h le = ground (arith, ===_iff input.status (codes "revoked"))
  stage-Meets stage callback h le = ground (arith, ===_iff input.status (codes "revoked"))
  stage-Meets stage secret h le = ground (arith, ===_iff input.status (codes "revoked"))
  stage-Meets stage active h le = ground (arith, ===_iff input.status (codes "revoked"))

  stage_stops :
      (stage s : IntegrationStage)
      → integration_stage input ≡ stage
      → order s ≡ suc (order stage)
      → Meets input s
      → ⊥
  unfolding integration_stage integration_steps
  stage_stops stage draft h next m = omega arith
  stage_stops stage registered h next m = ground (arith, ===_iff input.status (codes "revoked"))
  stage_stops stage callback h next m = ground (arith, ===_iff input.status (codes "revoked"))
  stage_stops stage secret h next m = ground (arith, ===_iff input.status (codes "revoked"))
  stage_stops stage active h next m = ground (arith, ===_iff input.status (codes "revoked"))

  furthest-stage :
      (stage : IntegrationStage) → IsFurthest input stage → integration_stage input ≡ stage
  unfolding integration_stage integration_steps
  furthest-stage stage (met, stops) = ground (
    arith,
    ===_iff input.status (codes "revoked"),
    met registered,
    met callback,
    met secret,
    met active,
    stops registered,
    stops callback,
    stops secret,
    stops active,
  )

-- The stage of an integration is the one up to which every stage has what it asks, and whose next
-- stage has not.
pub integration_stage_iff :
    (input : IntegrationInput) (stage : IntegrationStage)
    → (integration_stage input ≡ stage) ↔ IsFurthest input stage
integration_stage_iff input stage = (
  λ h. (λ s le. stage-Meets input stage s h le, λ s next m. stage_stops input stage s h next m),
  furthest-stage input stage,
)
