-- ===== src/Sftp/TextFormat.antt =====
-- state.rs: `RemoteTextFormat`, the byte order mark and the line ending of a file that is edited. A
-- `String` is its text, and a file its bytes.
pub mod Saving
pub mod Editing
use rem_cmd.Prelude.{
  ℕ, Bool, true, false, not, ◌&&◌, ◌||◌, Option, none, some, List, [], ◌∷◌, ◌++◌, if◌then◌else◌,
  ◌==◌, any,
}
use rem_cmd.Prelude.Text.{Text, strip_prefix}
use rem_cmd.Prelude.Utf8.{Bytes, encode, decode}

pub data RemoteLineEnding : Type 0 where
  lf cr_lf : RemoteLineEnding

pub record RemoteTextFormat : Type 0 where
  pub utf8_bom : Bool
  pub line_ending : RemoteLineEnding

-- `text.contains("\r\n")`.
unfoldable pub contains_crlf : Text → Bool
contains_crlf [] = false
contains_crlf (c ∷ []) = false
contains_crlf (c ∷ (d ∷ s)) = c == b'\r' && d == b'\n' || contains_crlf (d ∷ s)

-- `text.replace("\r\n", "\n")`.
unfoldable pub to_lf : Text → Text
to_lf [] = []
to_lf (c ∷ []) = c ∷ []
to_lf (c ∷ (d ∷ s)) =
    let replaced = to_lf s in
    let kept = to_lf (d ∷ s) in if c == b'\r' && d == b'\n' then b'\n' ∷ replaced else c ∷ kept

-- `text.replace('\n', "\r\n")`.
unfoldable pub to_crlf : Text → Text
to_crlf [] = []
to_crlf (c ∷ s) = if c == b'\n' then b'\r' ∷ b'\n' ∷ to_crlf s else c ∷ to_crlf s

abbrev pub byte_order_mark : Bytes
byte_order_mark = 0xef ∷ 0xbb ∷ 0xbf ∷ []

abbrev pub line_ending_of : Text → RemoteLineEnding
line_ending_of text = if contains_crlf text then cr_lf else lf

abbrev pub read_text : RemoteLineEnding → Text → Text
read_text lf text = text
read_text cr_lf text = to_lf text

abbrev pub written_text : RemoteLineEnding → Text → Text
written_text lf text = text
written_text cr_lf text = to_crlf text

-- The code behind the test for the byte order mark.
unfoldable pub decode_body : Bool → Bytes → Option (RemoteTextFormat × Text)
unfolding decode contains_crlf to_lf
decode_body bom text_bytes = elim (decode text_bytes) [
  | none ↦ none
  | some text ↦
      let ending = line_ending_of text in
      some (record { utf8_bom = bom; line_ending = ending }, read_text ending text)
]

unfoldable pub decode_file : Bytes → Option (RemoteTextFormat × Text)
unfolding decode_body strip_prefix
decode_file contents =
    if any (◌== 0) contents then none else elim (strip_prefix byte_order_mark contents) [
      | none ↦ decode_body false contents
      | some text_bytes ↦ decode_body true text_bytes
    ]

abbrev pub marked : Bool → Bytes → Bytes
marked bom bytes = if bom then byte_order_mark ++ bytes else bytes

unfoldable pub encode_file : RemoteTextFormat → Text → Bytes
unfolding encode to_crlf
encode_file format text = marked format.utf8_bom (encode (written_text format.line_ending text))
