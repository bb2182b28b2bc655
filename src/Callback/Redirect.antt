-- ===== src/Callback/Redirect.antt =====
-- `buildCallbackRedirect`: the only place where a redirect target is made. The query that
-- `searchParams` writes is kept as its list of pairs, beside a URL whose own query is empty.
pub mod Closed
use owne_x.Base.{Option, none, some, List, [], ◌∷◌, if◌then◌else◌}
use owne_x.Base.Text.{Text, codes, ◌===◌, is_empty}
use owne_x.Callback.Url.{Url}

pub record RedirectTarget : Type 0 where
  pub url : Url
  pub params : List (Text × Text)

pub record RedirectParams : Type 0 where
  pub code : Option Text
  pub error : Option Text
  pub state : Text

drop_param : Text → List (Text × Text) → List (Text × Text)
drop_param name [] = []
drop_param name ((k, v) ∷ params) =
    let rest = drop_param name params in if k === name then rest else (k, v) ∷ rest

-- `searchParams.set(name, value)`: the first pair of that name is replaced, the others go, and a
-- new name stands last.
set_param : Text → Text → List (Text × Text) → List (Text × Text)
unfolding drop_param
set_param name v [] = (name, v) ∷ []
set_param name v ((k, w) ∷ params) =
    let rest = set_param name v params in
    if k === name then (name, v) ∷ drop_param name params else (k, w) ∷ rest

-- `if (value) searchParams.set(name, value)`
set_given : Text → Option Text → List (Text × Text) → List (Text × Text)
unfolding set_param
set_given name none params = params
set_given name (some v) params = if is_empty v then params else set_param name v params

redirect_params : RedirectParams → List (Text × Text)
unfolding set_given set_param
redirect_params p =
    set_param (codes "state") p.state
      (set_given (codes "error") p.error (set_given (codes "code") p.code []))

-- `none`: `new URL` throws.
unfoldable pub build_callback_redirect :
    (Text → Option Url) → Text → RedirectParams → Option RedirectTarget
unfolding redirect_params
build_callback_redirect parse_url registered_callback p = elim (parse_url registered_callback) [
  | none ↦ none
  | some url ↦
      some (record { url = record url { search = []; hash = [] }; params = redirect_params p })
]
