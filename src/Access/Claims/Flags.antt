-- ===== src/Access/Claims/Flags.antt =====
-- Permissions that are all Booleans are told as they are.
use owne_x.Base.{◌≡◌, refl, ap, Bool, some, List, [], ◌∷◌, map}
use owne_x.Base.Text.{Text}
use owne_x.Access.Evaluate.{flag}
use owne_x.Access.Claims.{keep_flags, normalize_permissions}

keep_flags-flags :
    (flags : List (Text × Bool)) → keep_flags (map (λ p. (p.0, flag p.1)) flags) ≡ flags
unfolding keep_flags
keep_flags-flags [] = refl
keep_flags-flags (p ∷ flags) = ap (λ t. p ∷ t) (keep_flags-flags flags)

pub normalize_permissions-flags :
    (flags : List (Text × Bool))
    → normalize_permissions (some (map (λ p. (p.0, flag p.1)) flags)) ≡ flags
unfolding normalize_permissions
normalize_permissions-flags flags = keep_flags-flags flags
