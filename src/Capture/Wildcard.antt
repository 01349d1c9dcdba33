-- ===== src/Capture/Wildcard.antt =====
-- `wildcard_match` of src/proxy_capture.rs. An index stands for the bytes from it on, so that
-- `star_index` and `star_value_index` are the pattern after the star and the value to retry from.
pub mod Glob
pub mod Correct
pub mod Tests
use koc_core.Common.{
  ℕ, zero, suc, ◌+◌, ◌*◌, Bool, true, false, ◌||◌, ◌&&◌, Option, none, some, List, [], ◌∷◌, length,
  ◌==◌, if◌then◌else◌,
}
use koc_core.Json.{Text}

abbrev pub Back : Type 0
Back = Option (Text × Text)

-- The last loop, and the comparison of the index with the length.
unfoldable pub only_stars : Text → Bool
only_stars [] = true
only_stars (p ∷ ps) = (p == b'*') && only_stars ps

-- The last two branches of the loop.
abbrev pub retry : Back → (Text → Text → Back → Option Bool) → Option Bool
retry none again = some false
retry (some (after_star, [])) again = again after_star [] (some (after_star, []))
retry (some (after_star, c ∷ value)) again = again after_star value (some (after_star, value))

-- The `while` loop; `none` means that the fuel ran out.
unfoldable pub wildcard_loop : ℕ → Text → Text → Back → Option Bool
wildcard_loop zero pattern' value back = none
wildcard_loop (suc fuel) pattern' [] back = some (only_stars pattern')
wildcard_loop (suc fuel) [] (c ∷ value) back = retry back (wildcard_loop fuel)
wildcard_loop (suc fuel) (p ∷ ps) (c ∷ value) back =
    let onward = wildcard_loop fuel ps value back in
    let starred = wildcard_loop fuel ps (c ∷ value) (some (ps, c ∷ value)) in
    let again = retry back (wildcard_loop fuel) in
    if p == c then onward else if p == b'*' then starred else again

unfoldable pub wildcard_match : Text → Text → Option Bool
unfolding wildcard_loop only_stars
wildcard_match pattern' value =
    wildcard_loop ((length value + 1) * (length pattern' + 1) + 1) pattern' value none

-- What a pattern means, on its own: a star stands for any bytes.
abbrev pub at_some_suffix : (Text → Bool) → Text → Bool
at_some_suffix test [] = test []
at_some_suffix test (c ∷ value) = test (c ∷ value) || at_some_suffix test value

abbrev pub after_byte : ℕ → (Text → Bool) → Text → Bool
after_byte p test [] = false
after_byte p test (c ∷ value) = (p == c) && test value

abbrev pub is_end : Text → Bool
is_end [] = true
is_end (c ∷ value) = false

unfoldable pub glob : Text → Text → Bool
glob [] value = is_end value
glob (p ∷ ps) value =
    if p == b'*' then at_some_suffix (glob ps) value else after_byte p (glob ps) value
