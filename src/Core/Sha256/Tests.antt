-- ===== src/Core/Sha256/Tests.antt =====
-- Vectors of crates/burnout-core/src/sha256.rs, and a message in pieces.
use burnout.Prelude.{ℕ, ◌≡◌, refl, List, [], ◌∷◌}
use burnout.Core.Sha256.{new, sha256, finish}
use burnout.Core.Sha256.Compress.{compress}
use burnout.Core.Sha256.Reference.{digest}
use burnout.Core.Sha256.Digest.{update_all, pieces-digest}

abbrev abc_digest : List ℕ
abc_digest =
    0xba ∷ 0x78 ∷ 0x16 ∷ 0xbf ∷ 0x8f ∷ 0x01 ∷ 0xcf ∷ 0xea ∷ 0x41 ∷ 0x41 ∷ 0x40 ∷ 0xde ∷ 0x5d ∷ 0xae
    ∷ 0x22 ∷ 0x23 ∷ 0xb0 ∷ 0x03 ∷ 0x61 ∷ 0xa3 ∷ 0x96 ∷ 0x17 ∷ 0x7a ∷ 0x9c ∷ 0xb4 ∷ 0x10 ∷ 0xff
    ∷ 0x61 ∷ 0xf2 ∷ 0x00 ∷ 0x15 ∷ 0xad ∷ []

three_letters : sha256 (97 ∷ 98 ∷ 99 ∷ []) ≡ abc_digest
unfolding sha256 compress
three_letters = refl

abbrev pieces : List (List ℕ)
pieces = (97 ∷ []) ∷ [] ∷ (98 ∷ 99 ∷ []) ∷ []

pieces-digest_example :
    (finish (update_all pieces new) ≡ digest (97 ∷ 98 ∷ 99 ∷ []))
    × (sha256 (97 ∷ 98 ∷ 99 ∷ []) ≡ digest (97 ∷ 98 ∷ 99 ∷ []))
pieces-digest_example = pieces-digest pieces
