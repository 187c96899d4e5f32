-- ===== src/Layout/ExFat/Entries/Tests.antt =====
-- Names of crates/burnout-layout/src/exfat/entries.rs.
use burnout.Prelude.{ℕ, ◌≡◌, refl, List, [], ◌∷◌}
use burnout.Core.Error.{bad_character}
use burnout.Layout.ExFat.Entries.{named, refused, name_units}

abbrev setup : List ℕ
setup = b's' ∷ b'e' ∷ b't' ∷ b'u' ∷ b'p' ∷ []

setup_fits : name_units setup ≡ named setup
unfolding name_units
setup_fits = refl

colon_refused : name_units (b'a' ∷ b':' ∷ []) ≡ refused (bad_character b':')
unfolding name_units
colon_refused = refl
