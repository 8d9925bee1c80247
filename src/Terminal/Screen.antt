-- ===== src/Terminal/Screen.antt =====
-- crates/remcmd-terminal/src/screen.rs: sizes, attributes, the palette, points and selections.
pub mod Snapshot
pub mod Selecting
pub mod Palette
use Prim.Native.Nat.{bit_and, bit_or}
use rem_cmd.Prelude.{
  ℕ, Bool, true, false, ◌&&◌, ◌||◌, Option, none, some, List, [], ◌∷◌, Result, ok, err,
  if◌then◌else◌, ◌==◌, ltb, leb, ◌+◌, ◌-◌, ◌*◌, get_elem?, set, replicate,
}
use rem_cmd.Prelude.Text.{Text}

abbrev pub min_columns : ℕ
min_columns = 2

abbrev pub min_rows : ℕ
min_rows = 1

abbrev pub palette_size : ℕ
palette_size = 269

pub record TerminalSize : Type 0 where
  pub columns : ℕ
  pub rows : ℕ

pub record InvalidTerminalSize : Type 0 where
  pub columns : ℕ
  pub rows : ℕ

-- `TerminalSize::new`.
unfoldable pub new_size : ℕ → ℕ → Result TerminalSize InvalidTerminalSize
new_size columns rows =
    if ltb columns min_columns || ltb rows min_rows
    then err (record { columns = columns; rows = rows })
    else ok (record { columns = columns; rows = rows })

pub record Rgb : Type 0 where
  pub red : ℕ
  pub green : ℕ
  pub blue : ℕ

pub data NamedColor : Type 0 where
  black red green yellow blue magenta cyan white : NamedColor
  bright_black bright_red bright_green bright_yellow : NamedColor
  bright_blue bright_magenta bright_cyan bright_white : NamedColor
  foreground background cursor : NamedColor
  dim_black dim_red dim_green dim_yellow dim_blue dim_magenta dim_cyan dim_white : NamedColor
  bright_foreground dim_foreground : NamedColor

-- `self as usize`, by the discriminants.
unfoldable pub palette_index : NamedColor → ℕ
palette_index black = 0
palette_index red = 1
palette_index green = 2
palette_index yellow = 3
palette_index blue = 4
palette_index magenta = 5
palette_index cyan = 6
palette_index white = 7
palette_index bright_black = 8
palette_index bright_red = 9
palette_index bright_green = 10
palette_index bright_yellow = 11
palette_index bright_blue = 12
palette_index bright_magenta = 13
palette_index bright_cyan = 14
palette_index bright_white = 15
palette_index foreground = 256
palette_index background = 257
palette_index cursor = 258
palette_index dim_black = 259
palette_index dim_red = 260
palette_index dim_green = 261
palette_index dim_yellow = 262
palette_index dim_blue = 263
palette_index dim_magenta = 264
palette_index dim_cyan = 265
palette_index dim_white = 266
palette_index bright_foreground = 267
palette_index dim_foreground = 268

pub data TerminalColor : Type 0 where
  named : NamedColor → TerminalColor
  indexed : ℕ → TerminalColor
  rgb : Rgb → TerminalColor

pub data UnderlineStyle : Type 0 where
  no_underline single double curly dotted dashed : UnderlineStyle

-- `CellAttributes` and `TerminalModes` are bit sets; `contains` is the same for both.
abbrev pub wrapped : ℕ
wrapped = 64

abbrev pub wide_spacer : ℕ
wide_spacer = 256

abbrev pub leading_wide_spacer : ℕ
leading_wide_spacer = 512

unfoldable pub contains_flags : ℕ → ℕ → Bool
contains_flags flags other = bit_and flags other == other

unfoldable pub insert_flags : ℕ → ℕ → ℕ
insert_flags flags other = bit_or flags other

pub record Hyperlink : Type 0 where
  pub id : Text
  pub uri : Text

pub record TerminalCell : Type 0 where
  pub row : ℕ
  pub column : ℕ
  pub character : ℕ
  pub combining_characters : Text
  pub foreground_color : TerminalColor
  pub background_color : TerminalColor
  pub underline_color : Option TerminalColor
  pub underline : UnderlineStyle
  pub attributes : ℕ
  pub hyperlink : Option Hyperlink

-- `PaletteOverrides`: an array of `palette_size` slots.
pub record PaletteOverrides : Type 0 where
  pub colors : List (Option Rgb)

abbrev pub default_palette : PaletteOverrides
default_palette = record { colors = replicate palette_size none }

-- `.copied().flatten()`.
abbrev pub flatten_slot : Option (Option Rgb) → Option Rgb
flatten_slot none = none
flatten_slot (some slot) = slot

unfoldable pub get_color : PaletteOverrides → ℕ → Option Rgb
get_color p index = flatten_slot (get_elem? p.colors index)

-- Out of range nothing is written.
unfoldable pub set_color : PaletteOverrides → ℕ → Option Rgb → PaletteOverrides
set_color p index color = record { colors = set p.colors index color }

pub record TerminalPoint : Type 0 where
  pub row : ℕ
  pub column : ℕ

-- The derived order: by row, then by column.
abbrev pub point_lt : TerminalPoint → TerminalPoint → Bool
point_lt a b = ltb a.row b.row || a.row == b.row && ltb a.column b.column

abbrev pub point_le : TerminalPoint → TerminalPoint → Bool
point_le a b = ltb a.row b.row || a.row == b.row && leb a.column b.column

pub record TerminalSelection : Type 0 where
  pub anchor : TerminalPoint
  pub head : TerminalPoint

unfoldable pub is_empty_selection : TerminalSelection → Bool
is_empty_selection s = s.anchor.row == s.head.row && s.anchor.column == s.head.column

unfoldable pub ordered : TerminalSelection → TerminalPoint × TerminalPoint
ordered s = if point_le s.anchor s.head then (s.anchor, s.head) else (s.head, s.anchor)

unfoldable pub contains : TerminalSelection → ℕ → ℕ → Bool
unfolding is_empty_selection ordered
contains s row column =
    let (start, end) = ordered s in
    let point : TerminalPoint = record { row = row; column = column } in
    if is_empty_selection s
    then false
    else if start.row == end.row
    then row == start.row && leb start.column column && ltb column end.column
    else if row == start.row
    then leb start.column column
    else if row == end.row
    then ltb column end.column
    else point_lt start point && point_lt point end
