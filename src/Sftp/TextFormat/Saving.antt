-- ===== src/Sftp/TextFormat/Saving.antt =====
-- A file that is opened and saved without an edit.
use rem_cmd.Prelude.{
  ℕ, Bool, true, false, not, ◌&&◌, Option, none, some, [], ◌∷◌, ◌++◌, if◌then◌else◌, ◌==◌, any, ◌≡◌,
  ◌≢◌, ◌↔◌, ◌⊎◌, inl, inr, refl, ap, ◌∙◌, arith, Bool-cases, All, any-append,
}
use rem_cmd.Prelude.Text.{Text, strip_prefix, strip_prefix-append, starts_with}
use rem_cmd.Prelude.Utf8.{Bytes, encode, encode_char, IsChar, decode-encode, encode-injective}
use rem_cmd.Sftp.TextFormat.{
  contains_crlf, to_lf, to_crlf, byte_order_mark, line_ending_of, read_text, written_text,
  decode_body, decode_file, marked, encode_file,
}

-- Whether every line feed has its carriage return before it.
unfoldable pub is_uniform : Text → Bool
is_uniform [] = true
is_uniform (c ∷ []) = not (c == b'\n')
is_uniform (c ∷ (d ∷ s)) =
    let replaced = is_uniform s in
    let kept = is_uniform (d ∷ s) in
    if c == b'\r' && d == b'\n' then replaced else not (c == b'\n') && kept

to_crlf-to_lf : (s : Text) → is_uniform s ≡ true → to_crlf (to_lf s) ≡ s
unfolding to_crlf to_lf is_uniform
to_crlf-to_lf [] h = refl
to_crlf-to_lf (c ∷ []) h = ground arith
to_crlf-to_lf (c ∷ (d ∷ s)) h = elim (Bool-cases (c == b'\r' && d == b'\n')) [
  | inl pair ↦ ground (arith, pair, h, to_crlf-to_lf s)
  | inr other ↦ ground (arith, other, h, to_crlf-to_lf (d ∷ s))
]

uniform_of : (s : Text) → to_crlf (to_lf s) ≡ s → is_uniform s ≡ true
unfolding to_crlf to_lf is_uniform
uniform_of [] h = refl
uniform_of (c ∷ []) h = ground arith
uniform_of (c ∷ (d ∷ s)) h = elim (Bool-cases (c == b'\r' && d == b'\n')) [
  | inl pair ↦ ground (arith, pair, h, uniform_of s)
  | inr other ↦ ground (arith, other, h, uniform_of (d ∷ s))
]

no_zero_byte : (c : ℕ) → c ≢ 0 → any (◌== 0) (encode_char c) ≡ false
unfolding encode_char
no_zero_byte c h = ground arith

no_mark :
    (c : ℕ) (rest : Bytes)
    → c ≢ 0xfeff
    → IsChar c
    → strip_prefix byte_order_mark (encode_char c ++ rest) ≡ none
unfolding strip_prefix encode_char
no_mark c rest h i = ground arith

no_zero_bytes : (s : Text) → All (λ c. c ≢ 0) s → any (◌== 0) (encode s) ≡ false
unfolding encode
no_zero_bytes [] h = refl
no_zero_bytes (c ∷ s) h =
    any-append (◌== 0) (encode_char c) (encode s) ∙ (rw (no_zero_byte c h.0) (no_zero_bytes s h.1))

no_zero_marked :
    (bom : Bool) (s : Text) → All (λ c. c ≢ 0) s → any (◌== 0) (marked bom (encode s)) ≡ false
no_zero_marked true s h = no_zero_bytes s h
no_zero_marked false s h = no_zero_bytes s h

decode_body-encode :
    (bom : Bool) (s : Text)
    → All IsChar s
    → decode_body bom (encode s)
      ≡ some (
        record { utf8_bom = bom; line_ending = line_ending_of s },
        read_text (line_ending_of s) s,
      )
unfolding decode_body
decode_body-encode bom s h = rw (decode-encode s h, decode_body) refl

-- A text whose first character is no byte order mark, or a file that has one before it.
abbrev pub IsFile : Bool → Text → Type 0
IsFile true text = Unit
IsFile false text = starts_with 0xfeff text ≡ false

unmarked :
    (s : Text) → All IsChar s → IsFile false s → strip_prefix byte_order_mark (encode s) ≡ none
unfolding encode
unmarked [] h f = unfold strip_prefix in refl
unmarked (c ∷ s) h f = no_mark c (encode s) (λ e. cc (e, f)) h.0

-- The file is opened with this format and text.
pub decode_file-marked :
    (bom : Bool) (s : Text)
    → All IsChar s
    → All (λ c. c ≢ 0) s
    → IsFile bom s
    → decode_file (marked bom (encode s))
      ≡ some (
        record { utf8_bom = bom; line_ending = line_ending_of s },
        read_text (line_ending_of s) s,
      )
unfolding decode_file
decode_file-marked true s h z f = ground (
  arith,
  no_zero_bytes s z,
  strip_prefix-append byte_order_mark (encode s),
  decode_body-encode true s h,
)
decode_file-marked false s h z f =
    ground (arith, no_zero_bytes s z, unmarked s h f, decode_body-encode false s h)

module _ {κ} (P : ℕ → Type κ) (return_ok : P b'\r') (feed_ok : P b'\n') where
  All-to_lf : (s : Text) → All P s → All P (to_lf s)
  unfolding to_lf
  All-to_lf [] h = tt
  All-to_lf (c ∷ []) h = h
  All-to_lf (c ∷ (d ∷ s)) h = elim (Bool-cases (c == b'\r' && d == b'\n')) [
    | inl pair ↦ rw pair (feed_ok, All-to_lf s h.1.1)
    | inr other ↦ rw other (h.0, All-to_lf (d ∷ s) h.1)
  ]

  pub All-to_crlf : (s : Text) → All P s → All P (to_crlf s)
  unfolding to_crlf
  All-to_crlf [] h = tt
  All-to_crlf (c ∷ s) h = elim (Bool-cases (c == b'\n')) [
    | inl feed ↦ rw feed (return_ok, (feed_ok, All-to_crlf s h.1))
    | inr other ↦ rw other (h.0, All-to_crlf s h.1)
  ]

marked-injective : (bom : Bool) (xs ys : Bytes) → marked bom xs ≡ marked bom ys → xs ≡ ys
marked-injective true xs ys e = cc e
marked-injective false xs ys e = e

-- What is written when a file is opened and saved without an edit.
abbrev pub resaved : Bytes → Option Bytes
resaved contents = elim (decode_file contents) [
  | none ↦ none
  | some (format, text) ↦ some (encode_file format text)
]

resaved-marked :
    (bom : Bool) (s : Text)
    → All IsChar s
    → All (λ c. c ≢ 0) s
    → IsFile bom s
    → resaved (marked bom (encode s))
      ≡ some
          (marked bom (encode (written_text (line_ending_of s) (read_text (line_ending_of s) s))))
unfolding encode_file
resaved-marked bom s h z f = rw (decode_file-marked bom s h z f, resaved) refl

same_text_iff :
    (s : Text)
    → (written_text (line_ending_of s) (read_text (line_ending_of s) s) ≡ s)
      ↔ ((contains_crlf s ≡ false) ⊎ (is_uniform s ≡ true))
same_text_iff s = elim (Bool-cases (contains_crlf s)) [
  | inl pairs ↦ rw pairs (λ e. inr (uniform_of s e), λ o. ground (arith, pairs, o, to_crlf-to_lf s))
  | inr plain ↦ rw plain (λ e. inl refl, λ o. refl)
]

text-IsChar :
    (s : Text)
    → All IsChar s
    → All IsChar (written_text (line_ending_of s) (read_text (line_ending_of s) s))
text-IsChar s h = elim (Bool-cases (contains_crlf s)) [
  | inl pairs ↦ rw pairs (
      All-to_crlf IsChar (omega arith, inl (omega arith)) (omega arith, inl (omega arith)) (to_lf s)
        (All-to_lf IsChar (omega arith, inl (omega arith)) (omega arith, inl (omega arith)) s h))
  | inr plain ↦ rw plain h
]

-- A file of UTF-8 text without zeros, with a byte order mark or without one in front of its text,
-- is written back as it was, if it is opened and saved without an edit, exactly if it has no CR LF
-- at all or a CR before every LF.
pub resaved_iff :
    (bom : Bool) (s : Text)
    → All IsChar s
    → All (λ c. c ≢ 0) s
    → IsFile bom s
    → (resaved (marked bom (encode s)) ≡ some (marked bom (encode s)))
      ↔ ((contains_crlf s ≡ false) ⊎ (is_uniform s ≡ true))
resaved_iff bom s h z f =
    let text = written_text (line_ending_of s) (read_text (line_ending_of s) s) in
    (
      λ e.
          let bytes : marked bom (encode text) ≡ marked bom (encode s) =
            cc (e, resaved-marked bom s h z f) in
          (same_text_iff s).0
            (encode-injective text s (text-IsChar s h) h (marked-injective bom _ _ bytes)),
      λ o.
          resaved-marked bom s h z f
          ∙ ap (λ t. some (marked bom (encode t))) ((same_text_iff s).1 o),
    )
