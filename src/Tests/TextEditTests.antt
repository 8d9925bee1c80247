-- ===== src/Tests/TextEditTests.antt =====
-- Offsets in texts at concrete values.
use rem_cmd.Prelude.{ℕ, List, [], ◌∷◌, ◌++◌, ◌≡◌, refl}
use rem_cmd.Prelude.Text.{Text}
use rem_cmd.TextEdit.{offset_from_utf16, offset_to_utf16, units}
use rem_cmd.TextEdit.Offsets.{offset_from-to_utf16}

-- A letter and a smiley, then a Chinese character.
abbrev smile : Text
smile = b'a' ∷ 0x1f600 ∷ []

abbrev chinese : Text
chinese = 0x4e2d ∷ []

smile_offset : offset_to_utf16 (smile ++ chinese) 5 ≡ 3
unfolding offset_to_utf16
smile_offset = refl

-- Half a surrogate pair snaps forward.
half_pair : offset_from_utf16 (smile ++ chinese) 2 ≡ 5
unfolding offset_from_utf16
half_pair = refl

offset_from-to_utf16_example :
    (offset_from_utf16 (smile ++ chinese) (offset_to_utf16 (smile ++ chinese) 5) ≡ 5)
    × (offset_to_utf16 (smile ++ chinese) (offset_from_utf16 (smile ++ chinese) 3) ≡ 3)
unfolding units
offset_from-to_utf16_example = offset_from-to_utf16 smile chinese

abbrev clusters : Text → List ℕ
clusters text = 0 ∷ 1 ∷ 5 ∷ []
