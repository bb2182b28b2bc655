-- ===== src/Callback/Url.antt =====
-- The parts of a parsed URL that the program reads and sets, and loopback hosts.
use owne_x.Base.{
  Bool, true, false, ◌&&◌, ◌||◌, List, [], ◌∷◌, ◌++◌, leb, if◌then◌else◌, length, any,
}
use owne_x.Base.Text.{Text, codes, ◌===◌, lower, split, is_empty}

pub record Url : Type 0 where
  pub protocol : Text
  pub hostname : Text
  pub port : Text
  pub pathname : Text
  pub search : Text
  pub hash : Text

-- `url.host`
abbrev pub host : Url → Text
host url = if is_empty url.port then url.hostname else url.hostname ++ (b':' ∷ url.port)

pub data CallbackMode : Type 0 where
  development production : CallbackMode

abbrev all_digits : Text → Bool
all_digits [] = true
all_digits (c ∷ s) = (leb b'0' c && leb c b'9') && all_digits s

-- `\d{1,3}`
abbrev is_octet : Text → Bool
is_octet s = leb 1 (length s) && leb (length s) 3 && all_digits s

-- `/^127\.\d{1,3}\.\d{1,3}\.\d{1,3}$/`, over the parts between the dots.
abbrev is_127 : List Text → Bool
is_127 (a ∷ b ∷ c ∷ d ∷ []) = a === codes "127" && is_octet b && is_octet c && is_octet d
is_127 _ = false

abbrev loopback_hosts : List Text
loopback_hosts =
    codes "localhost" ∷ codes "127.0.0.1" ∷ codes "::1" ∷ codes "[::1]" ∷ codes "0.0.0.0" ∷ []

unfoldable pub is_loopback_host : Text → Bool
is_loopback_host hostname =
    any (λ h. h === lower hostname) loopback_hosts || is_127 (split b'.' (lower hostname))
