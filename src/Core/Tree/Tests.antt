-- ===== src/Core/Tree/Tests.antt =====
-- A path of crates/burnout-core/src/tree.rs with one directory above it.
use burnout.Prelude.{◌≡◌, refl, true, some, List, [], ◌∷◌, ◌++◌, ℕ, arith}
use burnout.Core.Error.{ok}
use burnout.Core.Tree.{slash, parent, name, names, good, new_path, join}
use burnout.Core.Tree.Paths.{join_lem}

abbrev efi : List ℕ
efi = b'E' ∷ b'F' ∷ b'I' ∷ []

abbrev boot : List ℕ
boot = b'b' ∷ b'o' ∷ b'o' ∷ b't' ∷ []

efi_is_path : new_path efi ≡ ok efi
unfolding new_path
efi_is_path = refl

boot_is_good : good boot ≡ true
unfolding good
boot_is_good = refl

join_lem_example :
    (join efi boot ≡ ok (efi ++ (slash ∷ boot)))
    × (parent (efi ++ (slash ∷ boot)) ≡ some efi)
    × (name (efi ++ (slash ∷ boot)) ≡ boot)
    × (names (efi ++ (slash ∷ boot)) ≡ names efi ++ boot ∷ [])
join_lem_example = join_lem efi boot (omega arith) efi_is_path boot_is_good
