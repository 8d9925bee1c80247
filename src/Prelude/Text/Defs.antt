-- ===== src/Prelude/Text/Defs.antt =====
-- The operations of `str` that the program uses, on the list of code points.
use Prim.Native.Char.{code}
use Prim.Native.String.{String}
use Prim.Native.Nat.{ℕ, zero, suc, ◌+◌, ◌-◌, ◌*◌, ◌/◌, ◌%◌}
use mathlib.Core.Path.{◌≡◌, refl}
use mathlib.Core.Logic.{◌↔◌}
use mathlib.Core.Bool.{Bool, true, false, not, ◌&&◌, ◌||◌}
use mathlib.Core.Option.{Option, none, some}
use mathlib.Core.List.{List, [], ◌∷◌, ◌++◌}
use native.Mathlib.Omega.{arith}
use rem_cmd.Prelude.Tests.{ltb, leb, ◌==◌, within, if◌then◌else◌}

abbrev pub Text : Type 0
Text = List ℕ

-- The text of a literal.
abbrev pub codes : String → Text
codes String.[] = []
codes (String.◌∷◌ c s) = code c ∷ codes s

-- `==` on `str`.
unfoldable pub text_eq : Text → Text → Bool
text_eq [] [] = true
text_eq (x ∷ xs) (y ∷ ys) = x == y && text_eq xs ys
text_eq _ _ = false

pub text_eq_iff : (a b : Text) → (text_eq a b ≡ true) ↔ (a ≡ b)
unfolding text_eq
text_eq_iff [] [] = ground arith
text_eq_iff (x ∷ a) (y ∷ b) = ground (arith, text_eq_iff a b)
text_eq_iff _ _ = ground arith

pub text_eq_refl : (a : Text) → text_eq a a ≡ true
text_eq_refl a = (text_eq_iff a a).1 refl

-- `to_string` of an unsigned number, the digits in front of `rest`; `n` has at most `fuel` digits
-- more than one.
unfoldable pub digits_onto : ℕ → ℕ → Text → Text
digits_onto zero n rest = (b'0' + n % 10) ∷ rest
digits_onto (suc fuel) n rest =
    let more = digits_onto fuel (n / 10) ((b'0' + n % 10) ∷ rest) in
    if ltb n 10 then (b'0' + n) ∷ rest else more

-- Numbers have at most 64 bits, so 20 digits are enough.
unfoldable pub decimal : ℕ → Text
unfolding digits_onto
decimal n = digits_onto 19 n []

-- `str::strip_prefix`.
unfoldable pub strip_prefix : Text → Text → Option Text
strip_prefix [] s = some s
strip_prefix (p ∷ ps) [] = none
strip_prefix (p ∷ ps) (c ∷ s) = if p == c then strip_prefix ps s else none

pub strip_prefix-append : (p s : Text) → strip_prefix p (p ++ s) ≡ some s
unfolding strip_prefix
strip_prefix-append [] s = refl
strip_prefix-append (x ∷ p) s = ground (arith, strip_prefix-append p s)

pub strip_prefix-eq-some : (p s : Text) {r : Text} → strip_prefix p s ≡ some r → s ≡ p ++ r
unfolding strip_prefix
strip_prefix-eq-some [] s h = ground arith
strip_prefix-eq-some (x ∷ p) [] h = cc
strip_prefix-eq-some (x ∷ p) (c ∷ s) {r} h = ground (arith, strip_prefix-eq-some p s {r = r})

-- The code points of Unicode's White_Space, as `char::is_whitespace`.
unfoldable pub is_whitespace : ℕ → Bool
is_whitespace c =
    within 0x09 0x0d c
    || c == 0x20
    || c == 0x85
    || c == 0xa0
    || c == 0x1680
    || within 0x2000 0x200a c
    || c == 0x2028
    || c == 0x2029
    || c == 0x202f
    || c == 0x205f
    || c == 0x3000

-- `str::trim_start_matches` with a predicate.
unfoldable pub trim_start_matches : (ℕ → Bool) → Text → Text
trim_start_matches p [] = []
trim_start_matches p (c ∷ s) = if p c then trim_start_matches p s else c ∷ s

-- A character goes if all behind it went.
unfoldable pub keep_unless : (ℕ → Bool) → ℕ → Text → Text
keep_unless p c [] = if p c then [] else c ∷ []
keep_unless p c (d ∷ r) = c ∷ d ∷ r

-- `str::trim_end_matches`.
unfoldable pub trim_end_matches : (ℕ → Bool) → Text → Text
unfolding keep_unless
trim_end_matches p [] = []
trim_end_matches p (c ∷ s) = keep_unless p c (trim_end_matches p s)

-- `str::trim`.
unfoldable pub trim : Text → Text
unfolding trim_start_matches trim_end_matches is_whitespace
trim s = trim_end_matches is_whitespace (trim_start_matches is_whitespace s)

-- What `rfind` of one character finds in the rest shifts by the characters before it.
abbrev rfind_cons : Bool → Option ℕ → Option ℕ
rfind_cons true none = some 0
rfind_cons false none = none
rfind_cons b (some i) = some (suc i)

-- `str::rfind` of one character, as a position among the characters.
unfoldable pub rfind : ℕ → Text → Option ℕ
rfind c [] = none
rfind c (x ∷ s) = rfind_cons (x == c) (rfind c s)

abbrev pub cons_head : ℕ → List Text → List Text
cons_head x [] = (x ∷ []) ∷ []
cons_head x (part ∷ parts) = (x ∷ part) ∷ parts

-- `str::split` by one character.
unfoldable pub split : ℕ → Text → List Text
split c [] = [] ∷ []
split c (x ∷ s) = if x == c then [] ∷ split c s else cons_head x (split c s)

-- `str::starts_with` one character.
abbrev pub starts_with : ℕ → Text → Bool
starts_with c [] = false
starts_with c (x ∷ s) = x == c

-- The character does not occur.
abbrev pub free_of : ℕ → Text → Bool
free_of c [] = true
free_of c (x ∷ s) = not (x == c) && free_of c s

-- The digits of `parse` for an unsigned type with the maximum `most`.
unfoldable pub parse_digits : ℕ → ℕ → Text → Option ℕ
parse_digits most acc [] = some acc
parse_digits most acc (c ∷ s) =
    let value = acc * 10 + (c - b'0') in
    let rest = parse_digits most value s in
    if within b'0' b'9' c && leb value most then rest else none

abbrev pub parse_nonempty : ℕ → Text → Option ℕ
parse_nonempty most [] = none
parse_nonempty most (c ∷ s) = parse_digits most 0 (c ∷ s)

-- `str::parse` of an unsigned integer: a plus sign may stand in front.
unfoldable pub parse_unsigned : ℕ → Text → Option ℕ
unfolding parse_digits
parse_unsigned most [] = none
parse_unsigned most (c ∷ s) = parse_nonempty most (if c == b'+' then s else c ∷ s)

-- The first of `str::lines`.
unfoldable pub first_line : Text → Text
first_line [] = []
first_line (c ∷ s) =
    if c == b'\n' || c == b'\r' && starts_with b'\n' s then [] else c ∷ first_line s

-- `char::is_ascii_whitespace`.
abbrev pub is_ascii_whitespace : ℕ → Bool
is_ascii_whitespace c = c == 0x09 || c == 0x0a || c == 0x0c || c == 0x0d || c == 0x20

-- `str::split_ascii_whitespace`, `word` being the part of a word that has been read.
unfoldable pub words_from : Text → Text → List Text
words_from [] [] = []
words_from (w ∷ ws) [] = (w ∷ ws) ∷ []
words_from word (c ∷ s) =
    let space = is_ascii_whitespace c in
    let rest = words_from (if space then [] else word ++ c ∷ []) s in
    elim word [ [] ↦ rest | w ∷ ws ↦ if space then (w ∷ ws) ∷ rest else rest ]

unfoldable pub split_ascii_whitespace : Text → List Text
unfolding words_from
split_ascii_whitespace s = words_from [] s
