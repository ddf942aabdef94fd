-- ===== src/Tests/Texts.antt =====
-- The text functions at concrete inputs.
use cactus_runner.Prelude.{[], ◌∷◌, true, ◌≡◌, refl}
use cactus_runner.Prelude.Strings.{split, strip, ends_with}

split_path : split b'/' "/edev/12//" ≡ "" ∷ "edev" ∷ "12" ∷ "" ∷ "" ∷ []
unfolding split
split_path = refl

strip_path : strip b'/' "//a/b/" ≡ "a/b"
unfolding strip
strip_path = refl

ends_with_event : ends_with "GET-request-received" "-request-received" ≡ true
unfolding ends_with
ends_with_event = refl
