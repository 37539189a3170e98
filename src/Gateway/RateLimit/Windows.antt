-- ===== src/Gateway/RateLimit/Windows.antt =====
-- The map of windows.
use xend.Common.{◌≡◌, refl, [], ◌∷◌, some, arith, if◌then◌else◌}
use xend.Common.Text.{Text, text_eq, text_eq_iff}
use xend.Gateway.RateLimit.{Window, Windows, lookup, insert}

pub lookup-insert :
    (k j : Text) (w : Window) (m : Windows)
    → lookup j (insert k w m) ≡ (if text_eq k j then some w else lookup j m)
unfolding lookup insert
lookup-insert k j w [] = refl
lookup-insert k j w ((i, v) ∷ m) =
    ground (arith, text_eq_iff k j, text_eq_iff i k, text_eq_iff i j, lookup-insert k j w m)
