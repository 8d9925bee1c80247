-- ===== src/Terminal/Screen/Snapshot.antt =====
-- screen.rs: `TerminalSnapshot`, its cells, its rows as text, and the text of a selection.
pub mod Cells
use rem_cmd.Prelude.{
  ℕ, zero, suc, ◌+◌, ◌-◌, ◌*◌, min, Bool, true, false, not, ◌&&◌, ◌||◌, Option, none, some, List,
  [], ◌∷◌, ◌++◌, if◌then◌else◌, ◌==◌, ltb, leb, get_elem?, is_empty, drop, length, take,
}
use rem_cmd.Prelude.Text.{Text, trim_end_matches}
use rem_cmd.Terminal.Screen.{
  TerminalSize, TerminalCell, contains_flags, wrapped, wide_spacer, leading_wide_spacer,
  PaletteOverrides, TerminalPoint, point_le, TerminalSelection, is_empty_selection, ordered,
}

pub data CursorShape : Type 0 where
  block underline_shape beam hollow_block : CursorShape

pub record TerminalCursor : Type 0 where
  pub row : ℕ
  pub column : ℕ
  pub shape : CursorShape
  pub blinking : Bool

pub record TerminalSnapshot : Type 0 where
  pub size : TerminalSize
  pub cells : List TerminalCell
  pub cursor : Option TerminalCursor
  pub display_offset : ℕ
  pub history_size : ℕ
  pub modes : ℕ
  pub palette_overrides : PaletteOverrides

unfoldable pub cell : TerminalSnapshot → ℕ → ℕ → Option TerminalCell
cell s row column =
    if leb s.size.rows row || leb s.size.columns column
    then none
    else get_elem? s.cells (row * s.size.columns + column)

-- The character with its combining characters.
abbrev pub cell_text : TerminalCell → Text
cell_text c = c.character ∷ c.combining_characters

abbrev pub is_spacer : TerminalCell → Bool
is_spacer c =
    contains_flags c.attributes wide_spacer || contains_flags c.attributes leading_wide_spacer

unfoldable pub text_of_cells : List TerminalCell → Text
unfolding contains_flags
text_of_cells [] = []
text_of_cells (c ∷ cs) = if is_spacer c then text_of_cells cs else cell_text c ++ text_of_cells cs

-- The slice `cells[start..end]`: `none` is its panic.
abbrev pub slice : List TerminalCell → ℕ → ℕ → Option (List TerminalCell)
slice cells start end =
    if leb end (length cells) then some (take (end - start) (drop start cells)) else none

-- The outer `none` is a panic, the inner one the result `None`.
unfoldable pub row_text : TerminalSnapshot → ℕ → Option (Option Text)
unfolding text_of_cells
row_text s row =
    if leb s.size.rows row
    then some none
    else let start = row * s.size.columns in
      elim (slice s.cells start (start + s.size.columns)) [
        | none ↦ none
        | some cells ↦ some (some (text_of_cells cells))
      ]

abbrev pub text_at : Option TerminalCell → Text
text_at none = []
text_at (some c) = cell_text c

-- What one column adds to the text of a row that is selected from `start` up to `end`.
unfoldable pub column_text : TerminalSnapshot → ℕ → ℕ → ℕ → ℕ → Text
unfolding cell contains_flags
column_text s row start end column = elim (cell s row column) [
  | none ↦ []
  | some c ↦
      if contains_flags c.attributes wide_spacer
      then (if column == start && ltb 0 column then text_at (cell s row (column - 1)) else [])
      else if contains_flags c.attributes leading_wide_spacer
      then (if column + 1 == end then text_at (cell s row (column + 1)) else [])
      else cell_text c
]

-- The loop over so many columns.
unfoldable pub columns_from : TerminalSnapshot → ℕ → ℕ → ℕ → ℕ → ℕ → Text
unfolding column_text
columns_from s row start end zero column = []
columns_from s row start end (suc n) column =
    column_text s row start end column ++ columns_from s row start end n (column + 1)

unfoldable pub selected_row_text : TerminalSnapshot → ℕ → ℕ → ℕ → Text
unfolding columns_from
selected_row_text s row start_column end_column =
    let start = min start_column s.size.columns in
    let end = min end_column s.size.columns in columns_from s row start end (end - start) start

-- `any` over the columns, of which so many are left.
unfoldable pub wrapped_from : TerminalSnapshot → ℕ → ℕ → ℕ → Bool
unfolding cell contains_flags
wrapped_from s row zero column = false
wrapped_from s row (suc n) column =
    elim (cell s row column) [ none ↦ false | some c ↦ contains_flags c.attributes wrapped ]
    || wrapped_from s row n (column + 1)

unfoldable pub row_is_wrapped : TerminalSnapshot → ℕ → Bool
unfolding wrapped_from
row_is_wrapped s row = wrapped_from s row s.size.columns 0

abbrev is_space : ℕ → Bool
is_space c = c == b' '

-- One round of the loop over the rows: the row's text, and its line break.
unfoldable pub line_text : TerminalSnapshot → TerminalPoint → TerminalPoint → ℕ → Text
unfolding selected_row_text row_is_wrapped trim_end_matches
line_text s start end row =
    let start_column = if row == start.row then start.column else 0 in
    let end_column = if row == end.row then end.column else s.size.columns in
    let text = selected_row_text s row start_column end_column in
    let kept = if end_column == s.size.columns then trim_end_matches is_space text else text in
    if ltb row end.row && not (row_is_wrapped s row) then kept ++ b'\n' ∷ [] else kept

unfoldable pub lines_from : TerminalSnapshot → TerminalPoint → TerminalPoint → ℕ → ℕ → Text
unfolding line_text
lines_from s start end zero row = []
lines_from s start end (suc n) row = line_text s start end row ++ lines_from s start end n (row + 1)

abbrev pub clamp_point : TerminalSize → TerminalPoint → TerminalPoint
clamp_point size p = record { row = min p.row (size.rows - 1); column = min p.column size.columns }

-- The text from the first point of a selection up to the last, both moved into the grid.
unfoldable pub text_between : TerminalSnapshot → TerminalPoint × TerminalPoint → Text
unfolding lines_from
text_between s (first, last) =
    let start = clamp_point s.size first in
    let end = clamp_point s.size last in
    if point_le end start then [] else lines_from s start end (end.row - start.row + 1) start.row

unfoldable pub selected_text : TerminalSnapshot → TerminalSelection → Text
unfolding is_empty_selection ordered text_between
selected_text s selection =
    if is_empty_selection selection || s.size.rows == 0
    then []
    else text_between s (ordered selection)
