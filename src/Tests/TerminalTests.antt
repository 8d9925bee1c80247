-- ===== src/Tests/TerminalTests.antt =====
-- OSC 7 reports, palettes, selections and snapshots at concrete values.
use rem_cmd.Prelude.{ℕ, none, [], ◌∷◌, ◌++◌, ◌≡◌, refl, arith}
use rem_cmd.Prelude.Text.{codes}
use rem_cmd.Prelude.Utf8.{Bytes, decode}
use rem_cmd.Terminal.Cwd.{default_parser, advance}
use rem_cmd.Terminal.Cwd.Path.{percent_encode, IsReportable, report_payload}
use rem_cmd.Terminal.Cwd.Chunks.{advance-append}
use rem_cmd.Terminal.Cwd.Report.{report, advance_encoded_report}
use rem_cmd.Terminal.Cwd.Swallowed.{quote_hides_report}
use rem_cmd.Terminal.Screen.{
  Rgb, red, named, no_underline, TerminalCell, default_palette, TerminalSelection,
}
use rem_cmd.Terminal.Screen.Palette.{palette_index-injective}
use rem_cmd.Terminal.Screen.Snapshot.{TerminalSnapshot, selected_text}

abbrev spaced : Bytes
spaced = codes "/a b"

spaced-IsReportable : IsReportable spaced
unfolding decode
spaced-IsReportable = record {
  bytes = ground arith;
  chars = codes "/a b";
  is_text = refl;
  absolute = refl;
  no_control = refl;
}

advance-append_example : advance default_parser (codes "ab" ++ codes "cd") ≡ (default_parser, [])
unfolding advance
advance-append_example = advance-append default_parser (codes "ab") (codes "cd")

advance_encoded_report_example :
    advance default_parser (report (codes "7;file://box/a%20b"))
    ≡ (default_parser, record { end_offset = 21; path = spaced } ∷ [])
unfolding percent_encode
advance_encoded_report_example =
    advance_encoded_report default_parser (codes "box") spaced refl (ground arith) refl
      spaced-IsReportable (omega arith)

quote_hides_report_example :
    (advance default_parser
      (0xe2 ∷ 0x80 ∷ 0x9d ∷ (codes "ok" ++ report (report_payload (codes "box") (codes "/tmp"))))).1
    ≡ []
quote_hides_report_example =
    quote_hides_report (codes "ok") (codes "box") (codes "/tmp") (ground arith) refl (ground arith)

abbrev grey : Rgb
grey = record { red = 9; green = 9; blue = 9 }

palette_index-injective_example : red ≡ red
palette_index-injective_example = palette_index-injective red red refl

abbrev dragged : TerminalSelection
dragged = record { anchor = record { row = 1; column = 1 }; head = record { row = 0; column = 1 } }

abbrev cell_of : ℕ → ℕ → ℕ → TerminalCell
cell_of row column character = record {
  row = row;
  column = column;
  character = character;
  combining_characters = [];
  foreground_color = named red;
  background_color = named red;
  underline_color = none;
  underline = no_underline;
  attributes = 0;
  hyperlink = none;
}

-- Two rows of two columns.
abbrev small : TerminalSnapshot
small = record {
  size = record { columns = 2; rows = 2 };
  cells = cell_of 0 0 b'a' ∷ cell_of 0 1 b'b' ∷ cell_of 1 0 b'c' ∷ cell_of 1 1 b'd' ∷ [];
  cursor = none;
  display_offset = 0;
  history_size = 0;
  modes = 0;
  palette_overrides = default_palette;
}

copied : selected_text small dragged ≡ codes "b\nc"
unfolding selected_text
copied = refl
