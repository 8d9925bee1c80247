-- ===== src/TextEdit.antt =====
-- crates/remcmd-app/src/text_edit.rs: offsets in the text of an input control. The control counts in
-- bytes, the platform in UTF-16 units.
pub mod Offsets
use rem_cmd.Prelude.{
  ℕ, ◌+◌, Bool, true, false, Option, none, some, List, [], ◌∷◌, if◌then◌else◌, ltb, leb,
}
use rem_cmd.Prelude.Text.{Text}

-- `char::len_utf8` and `char::len_utf16`.
abbrev pub len_utf8 : ℕ → ℕ
len_utf8 c = if ltb c 0x80 then 1 else if ltb c 0x800 then 2 else if ltb c 0x10000 then 3 else 4

abbrev pub len_utf16 : ℕ → ℕ
len_utf16 c = if ltb c 0x10000 then 1 else 2

-- The loop over the characters: `from` counts towards the offset, `to` is what is returned.
unfoldable pub walk : (ℕ → ℕ) → (ℕ → ℕ) → Text → ℕ → ℕ → ℕ → ℕ
walk size other [] offset from to = to
walk size other (c ∷ s) offset from to =
    let later = walk size other s offset (from + size c) (to + other c) in
    if leb offset from then to else later

unfoldable pub offset_from_utf16 : Text → ℕ → ℕ
unfolding walk
offset_from_utf16 text offset = walk len_utf16 len_utf8 text offset 0 0

unfoldable pub offset_to_utf16 : Text → ℕ → ℕ
unfolding walk
offset_to_utf16 text offset = walk len_utf8 len_utf16 text offset 0 0

-- The number of units of a text.
unfoldable pub units : (ℕ → ℕ) → Text → ℕ
units size [] = 0
units size (c ∷ s) = size c + units size s

-- The last index below the offset.
unfoldable pub last_below : List ℕ → ℕ → Option ℕ
last_below [] offset = none
last_below (index ∷ indices) offset =
    let later = last_below indices offset in
    elim later [ some i ↦ some i | none ↦ if ltb index offset then some index else none ]

-- The first index above the offset.
unfoldable pub first_above : List ℕ → ℕ → Option ℕ
first_above [] offset = none
first_above (index ∷ indices) offset =
    if ltb offset index then some index else first_above indices offset

-- `grapheme_indices` is of the crate unicode-segmentation.
module _ (grapheme_indices : Text → List ℕ) where
  unfoldable pub previous_boundary : Text → ℕ → ℕ
  unfolding last_below
  previous_boundary text offset = elim (last_below (grapheme_indices text) offset) [
    | none ↦ 0
    | some index ↦ index
  ]

  unfoldable pub next_boundary : Text → ℕ → ℕ
  unfolding first_above units
  next_boundary text offset = elim (first_above (grapheme_indices text) offset) [
    | none ↦ units len_utf8 text
    | some index ↦ index
  ]
