-- ===== src/Capture/Wildcard/Tests.antt =====
-- The theorems about `wildcard_match` at concrete inputs.
use koc_core.Common.{◌≡◌, refl, true, false, some, []}
use koc_core.Common.Codes.{codes}
use koc_core.Capture.Wildcard.{wildcard_match, glob}
use koc_core.Capture.Wildcard.Correct.{wildcard_match-glob, wildcard_match-star_value}

backtracks : wildcard_match (codes "*_get*") (codes "role_gexget_info") ≡ some false
unfolding wildcard_match
backtracks = refl

wildcard_match-glob_example :
    wildcard_match (codes "g*t") (codes "get") ≡ some (glob (codes "g*t") (codes "get"))
wildcard_match-glob_example =
    wildcard_match-glob (codes "g*t") (codes "get") (refl, (refl, (refl, tt)))

wildcard_match-star_value_example :
    (wildcard_match (codes "*") (codes "*a") ≡ some false) × (glob (codes "*") (codes "*a") ≡ true)
wildcard_match-star_value_example = wildcard_match-star_value b'a' []
