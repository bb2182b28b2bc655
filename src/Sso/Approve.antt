-- ===== src/Sso/Approve.antt =====
-- apps/platform/app/api/authorize/approve/route.ts: `POST`. `coerce` is the reading of a number by
-- `z.coerce.number().int()`, `none` where it refuses; the wallet is what the session holds.
pub mod Sound
use owne_x.Base.{
  ℕ, Bool, true, false, not, ◌&&◌, Option, none, some, [], ltb, if◌then◌else◌, Read, ok, thrown,
}
use owne_x.Base.Text.{Text, codes}
use owne_x.Access.Evaluate.{EvaluatedAccess, evaluated, chain_unavailable}
use owne_x.Access.Live.{evaluate_live_access}
use owne_x.Callback.Redirect.{RedirectTarget, RedirectParams, build_callback_redirect}
use owne_x.Codes.Store.{GrantInput, AuthorizationCodeStore}
use owne_x.Codes.Operations.{IssuedCode, issue_authorization_code}
use owne_x.Registry.Records.{RegisteredApplication}
use owne_x.Registry.Requests.{ResolvedRequest, resolved, unresolved, resolve_authorization_request}
use owne_x.Sso.Platform.{Platform, is_within}

-- The fields of the form; `none` is a field that is missing or is a file.
pub record ApproveForm : Type 0 where
  pub client_id : Option Text
  pub org_id : Option Text
  pub redirect_uri : Option Text
  pub state : Option Text

-- What `formSchema` gives.
pub record ApproveFields : Type 0 where
  pub client_id : Text
  pub org_id : ℕ
  pub redirect_uri : Text
  pub state : Text

pub data ApproveResponse : Type 0 where
  plain : (status : ℕ) → ApproveResponse
  redirect : RedirectTarget → ApproveResponse
  -- `new URL` throws, and nothing catches it.
  uncaught : ApproveResponse

fields_of : Option Text → Option ℕ → Option Text → Option Text → Option ApproveFields
fields_of (some client_id) (some org_id) (some redirect_uri) (some state) =
    if is_within 8 128 client_id
      && ltb 0 org_id
      && is_within 8 2048 redirect_uri
      && is_within 8 512 state
    then some (record {
      client_id = client_id;
      org_id = org_id;
      redirect_uri = redirect_uri;
      state = state;
    })
    else none
fields_of _ _ _ _ = none

unfoldable pub parse_form : (coerce : Text → Option ℕ) → ApproveForm → Option ApproveFields
unfolding fields_of
parse_form coerce form =
    fields_of form.client_id (elim form.org_id [ none ↦ none | some text ↦ coerce text ])
      form.redirect_uri form.state

module _ (platform : Platform) where
  abbrev pub answer_params : Option Text → Option Text → Text → RedirectParams
  answer_params code error state = record { code = code; error = error; state = state }

  unfoldable pub redirect_to : Text → RedirectParams → ApproveResponse
  redirect_to registered params =
      elim (build_callback_redirect platform.parse_url registered params) [
        | none ↦ uncaught
        | some target ↦ redirect target
      ]

  abbrev refuse_with : Text → Text → Text → ApproveResponse
  refuse_with registered state error =
      redirect_to registered (answer_params none (some error) state)

  abbrev pub grant_of : ApproveFields → RegisteredApplication → Text → Text → GrantInput
  grant_of fields app registered wallet = record {
    client_id = fields.client_id;
    app_slug = app.slug;
    org_id = fields.org_id;
    wallet = wallet;
    redirect_uri = registered;
  }

  module _ {S : Type 0} (store : AuthorizationCodeStore S) (code : Text) where
    -- A code that was issued, or an outage of the store.
    issue : ApproveFields → RegisteredApplication → Text → Text → S → ApproveResponse × S
    issue fields app registered wallet s =
        let (answer, s') =
          issue_authorization_code store (grant_of fields app registered wallet) code platform.now
            s in
        (
          elim answer [
            | ok issued ↦
                redirect_to registered (answer_params (some issued.code) none fields.state)
            | thrown detail ↦ refuse_with registered fields.state (codes "temporarily_unavailable")
          ],
          s',
        )

    consent : ApproveFields → RegisteredApplication → Text → Text → S → ApproveResponse × S
    unfolding issue
    consent fields app registered wallet s =
        elim (evaluate_live_access platform.chain platform.now fields.org_id wallet
          (some app.slug)) [
            | chain_unavailable detail ↦
                (refuse_with registered fields.state (codes "temporarily_unavailable"), s)
            | evaluated decision snapshot ↦
                if not decision.allowed
                then (refuse_with registered fields.state (codes "access_denied"), s)
                else issue fields app registered wallet s
          ]

    approve_resolved : ApproveFields → Option Text → Read ResolvedRequest → S → ApproveResponse × S
    unfolding consent
    approve_resolved fields session (thrown detail) s = (plain 503, s)
    approve_resolved fields session (ok (unresolved reason)) s = (plain 400, s)
    approve_resolved fields none (ok (resolved app registered)) s =
        (refuse_with registered fields.state (codes "access_denied"), s)
    approve_resolved fields (some wallet) (ok (resolved app registered)) s =
        consent fields app registered wallet s

    approve_fields : Option ApproveFields → Option Text → S → ApproveResponse × S
    unfolding approve_resolved
    approve_fields none session s = (plain 400, s)
    approve_fields (some fields) session s =
        approve_resolved fields session
          (resolve_authorization_request platform.parse_url platform.mode platform.context
            platform.registry
            (record {
              client_id = fields.client_id;
              org_id = fields.org_id;
              redirect_uri = some fields.redirect_uri;
              require_secret = false;
            }))
          s

    -- The form is `none` where the body is malformed.
    unfoldable pub approve :
        (coerce : Text → Option ℕ) → Option ApproveForm → Option Text → S → ApproveResponse × S
    unfolding approve_fields
    approve coerce none session s = (plain 400, s)
    approve coerce (some form) session s = approve_fields (parse_form coerce form) session s
