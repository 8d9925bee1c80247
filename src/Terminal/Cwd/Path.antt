-- ===== src/Terminal/Cwd/Path.antt =====
-- Percent encoding, and the path in a payload.
use rem_cmd.Prelude.{
  ℕ, ◌+◌, ◌-◌, ◌/◌, ◌%◌, ◌≤◌, ◌<◌, Bool, true, false, not, ◌&&◌, some, [], ◌∷◌, ◌++◌, ◌≡◌, ◌≢◌,
  refl, ap, ◌∙◌, arith, ltb, ◌==◌, within, if◌then◌else◌, and_then, is_none, any, All, Bool-cases,
  inl, inr,
}
use rem_cmd.Prelude.Text.{Text, codes, starts_with, free_of}
use rem_cmd.Prelude.Utf8.{Bytes, decode}
use rem_cmd.Terminal.Cwd.{
  hex_value, push_front, percent_decode, from_slash, is_control, check_path, location_path,
  parse_osc7_path,
}

-- A byte that stands for itself in a report: visible ASCII, and no percent sign.
abbrev pub is_literal : ℕ → Bool
is_literal b = within 0x21 0x7e b && not (b == b'%')

abbrev upper_hex : ℕ → ℕ
upper_hex n = if ltb n 10 then b'0' + n else b'A' + (n - 10)

-- What a shell that encodes its reports writes for a path.
unfoldable pub percent_encode : Bytes → Bytes
percent_encode [] = []
percent_encode (b ∷ bs) =
    let rest = percent_encode bs in
    if is_literal b then b ∷ rest else b'%' ∷ upper_hex (b / 16) ∷ upper_hex (b % 16) ∷ rest

percent_decode-literal :
    (b : ℕ) (rest : Bytes)
    → b ≢ b'%'
    → percent_decode (b ∷ rest) ≡ push_front b (percent_decode rest)
unfolding percent_decode
percent_decode-literal b [] h = ground arith
percent_decode-literal b (c ∷ []) h = ground arith
percent_decode-literal b (c ∷ d ∷ rest) h = ground arith

hex_value-upper_hex : (n : ℕ) → n < 16 → hex_value (upper_hex n) ≡ some n
unfolding hex_value
hex_value-upper_hex n h = ground arith

percent_decode_escape :
    (b : ℕ) (rest : Bytes)
    → b < 256
    → percent_decode (b'%' ∷ upper_hex (b / 16) ∷ upper_hex (b % 16) ∷ rest)
      ≡ push_front b (percent_decode rest)
unfolding percent_decode
percent_decode_escape b rest h = rw (hex_value-upper_hex (b / 16) (omega arith)) (
    rw (hex_value-upper_hex (b % 16) (omega arith))
      (ap (λ x. push_front x (percent_decode rest)) (omega arith)))

-- Decoding undoes the percent encoding of any list of bytes, that is numbers below 256.
pub decode-percent_encode :
    (bs : Bytes) → All (λ b. b < 256) bs → percent_decode (percent_encode bs) ≡ some bs
unfolding percent_encode
decode-percent_encode [] h = unfold percent_decode in refl
decode-percent_encode (b ∷ bs) h = elim (Bool-cases (is_literal b)) [
  | inl plain ↦ rw plain (
      percent_decode-literal b (percent_encode bs) (ground arith)
      ∙ rw (decode-percent_encode bs h.1))
  | inr odd ↦
      rw odd (percent_decode_escape b (percent_encode bs) h.0 ∙ rw (decode-percent_encode bs h.1))
]

-- Bytes without a percent sign decode to themselves.
pub percent_decode_plain : (bs : Bytes) → free_of b'%' bs ≡ true → percent_decode bs ≡ some bs
percent_decode_plain [] h = unfold percent_decode in refl
percent_decode_plain (b ∷ bs) h =
    percent_decode-literal b bs (ground arith) ∙ rw (percent_decode_plain bs (ground arith))

-- Visible ASCII.
abbrev pub IsVisible : ℕ → Type 0
IsVisible b = (0x21 ≤ b) × (b ≤ 0x7e)

pub percent_encode-IsVisible :
    (bs : Bytes) → All (λ b. b < 256) bs → All IsVisible (percent_encode bs)
unfolding percent_encode
percent_encode-IsVisible [] h = tt
percent_encode-IsVisible (b ∷ bs) h = elim (Bool-cases (is_literal b)) [
  | inl plain ↦ rw plain (ground arith, percent_encode-IsVisible bs h.1)
  | inr odd ↦
      rw odd (omega arith, (ground (arith, h.0), (ground arith, percent_encode-IsVisible bs h.1)))
]

pub decode-IsVisible : (bs : Bytes) → All IsVisible bs → decode bs ≡ some bs
unfolding decode
decode-IsVisible [] h = refl
decode-IsVisible (b ∷ bs) h = ground (arith, decode-IsVisible bs h.1)

-- An absolute path that the program accepts: its bytes are UTF-8 text with no control character.
pub record IsReportable (path : Bytes) : Type 0 where
  pub bytes : All (λ b. b < 256) path
  pub chars : Text
  pub is_text : decode path ≡ some chars
  pub absolute : starts_with b'/' path ≡ true
  pub no_control : any is_control chars ≡ false

pub check_path-IsReportable : (path : Bytes) → IsReportable path → check_path path ≡ some path
unfolding check_path
check_path-IsReportable [] r = cc (r.absolute)
check_path-IsReportable (b ∷ path) r =
    rw (r.is_text, check_path) (ground (arith, r.absolute, r.no_control))

from_slash-append :
    (host path : Bytes)
    → free_of b'/' host ≡ true
    → starts_with b'/' path ≡ true
    → from_slash (host ++ path) ≡ some path
unfolding from_slash
from_slash-append [] [] f h = cc
from_slash-append [] (b ∷ path) f h = ground arith
from_slash-append (c ∷ host) path f h = ground (arith, from_slash-append host path)

abbrev pub report_payload : Bytes → Bytes → Bytes
report_payload host encoded = codes "7;file://" ++ (host ++ encoded)

location_path-append :
    (host encoded path : Bytes)
    → free_of b'/' host ≡ true
    → starts_with b'/' encoded ≡ true
    → percent_decode encoded ≡ some path
    → IsReportable path
    → location_path (host ++ encoded) ≡ some path
unfolding location_path
location_path-append host encoded path f h e r =
    ap (λ o. and_then o λ encoded. and_then (percent_decode encoded) check_path)
      (from_slash-append host encoded f h)
    ∙ ap (λ o. and_then o check_path) e
    ∙ check_path-IsReportable path r

parse_scheme :
    (location : Bytes) (chars : Text)
    → decode (codes "7;file://" ++ location) ≡ some chars
    → parse_osc7_path (codes "7;file://" ++ location) ≡ location_path location
unfolding parse_osc7_path
parse_scheme location chars valid = rw (valid, is_none)

-- The payload `7;file://`, host, encoded path gives the path, if it is text in UTF-8, the host has
-- no slash, the encoded path starts with one and decodes to the path, and the path is absolute
-- text without control characters.
pub parse-report_payload :
    (host encoded path : Bytes) (chars : Text)
    → decode (report_payload host encoded) ≡ some chars
    → free_of b'/' host ≡ true
    → starts_with b'/' encoded ≡ true
    → percent_decode encoded ≡ some path
    → IsReportable path
    → parse_osc7_path (report_payload host encoded) ≡ some path
parse-report_payload host encoded path chars valid f h e r =
    parse_scheme (host ++ encoded) chars valid ∙ location_path-append host encoded path f h e r
