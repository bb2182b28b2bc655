-- ===== src/Sessions/Tests.antt =====
-- A session of a day, and a caller who may manage members.
use owne_x.Base.{◌≡◌, ◌≤◌, ◌↔◌, ◌/◌, ◌+◌, refl, ok, some, true, Outcome, arith, [], ◌≢◌}
use owne_x.Base.Text.{Text, codes, ◌===◌, is_empty, lower}
use owne_x.Chain.Roles.{admin, PermissionKey, permission_text, permission_hash, role_name}
use owne_x.Chain.Reads.{read_identity, read_effective_role, read_has_permission}
use owne_x.Access.Tests.{chain}
use owne_x.Sessions.Store.{SessionData, create_session, session_wallet}
use owne_x.Sessions.Store.Age.{session_wallet-create_session_iff}
use owne_x.Sessions.Guards.{Member, require_caller, require_active_identity, require_permission}
use owne_x.Sessions.Guards.Sound.{IsActive, Holds, require_permission-IsPermitted}

wallet_there : codes "0xa1" ≢ []
wallet_there e = cc e

session_wallet-create_session_iff_example :
    (session_wallet (ok (create_session (codes "0xa1") 31337 5000)) 9000 ≡ some (codes "0xa1"))
    ↔ (9000 / 1000 ≤ 5000 / 1000 + 86400)
session_wallet-create_session_iff_example =
    session_wallet-create_session_iff (codes "0xa1") 31337 5000 9000 wallet_there (omega arith)

abbrev opened_cookie : Outcome Text SessionData
opened_cookie =
    ok (record { wallet = some (codes "0xa1"); chain_id = some 31337; issued_at = some 5 })

abbrev manager : Member
manager = record { wallet = codes "0xa1"; role = admin }

require_permission_run :
    require_permission chain (session_wallet opened_cookie 9000) 7 (codes "MANAGE_MEMBERS")
    ≡ ok manager
unfolding require_permission require_active_identity require_caller session_wallet read_identity
    read_effective_role read_has_permission role_name is_empty lower ◌===◌
require_permission_run = refl

require_permission-IsPermitted_example :
    IsActive chain opened_cookie 9000 (codes "0xa1")
    × Holds chain 7 manager
    × ((key : PermissionKey) × (permission_text key ≡ codes "MANAGE_MEMBERS")
        × (chain.has_permission 7 (codes "0xa1") (permission_hash chain.keccak_id key) ≡ ok true))
require_permission-IsPermitted_example =
    require_permission-IsPermitted chain opened_cookie 9000 7 (codes "MANAGE_MEMBERS") manager
      require_permission_run
