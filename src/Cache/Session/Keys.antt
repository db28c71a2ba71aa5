-- ===== src/Cache/Session/Keys.antt =====
-- The key of a conversation as it grows.
use nadir.Prelude.{◌≡◌, ap, Bool, true, false, ◌||◌, List, [], ◌∷◌, ◌++◌, arith}
use nadir.Prelude.Text.{Text, codes, text_eq}
use nadir.Types.{Message}
use nadir.Cache.Session.{session_text, session_key}

unfoldable pub has_user : List Message → Bool
has_user [] = false
has_user (m ∷ msgs) = text_eq m.role (codes "user") || has_user msgs

session_text-append :
    (msgs more : List Message)
    → has_user msgs ≡ true
    → session_text (msgs ++ more) ≡ session_text msgs
unfolding session_text has_user
session_text-append [] more h = ground arith
session_text-append (m ∷ msgs) more h = ground (arith, session_text-append msgs more)

-- Once a conversation has a user message, the messages that follow do not change its key.
pub session_key-append :
    (sha256 : Text → Text) (msgs more : List Message)
    → has_user msgs ≡ true
    → session_key sha256 (msgs ++ more) ≡ session_key sha256 msgs
unfolding session_key
session_key-append sha256 msgs more h = ap sha256 (session_text-append msgs more h)
