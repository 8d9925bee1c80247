-- ===== src/Prelude/Utf8.antt =====
-- UTF-8: `as_bytes` of a text, and `from_utf8` with the table of well-formed sequences.
use Prim.Native.Nat.{ℕ, ◌+◌, ◌-◌, ◌*◌, ◌/◌, ◌%◌, ◌≤◌, ◌<◌}
use mathlib.Core.Path.{◌≡◌, refl, ◌∙◌}
use mathlib.Core.Logic.{◌⊎◌}
use mathlib.Core.Bool.{not}
use mathlib.Core.Option.{Option, none, some}
use mathlib.Core.List.{List, [], ◌∷◌, ◌++◌}
use native.Mathlib.Decide.{dec_lt}
use native.Mathlib.Omega.{arith}
use rem_cmd.Prelude.Tests.{ltb, ◌==◌, within, if◌then◌else◌}
use rem_cmd.Prelude.Lists.{All}
use rem_cmd.Prelude.Text.{Text}

abbrev pub Bytes : Type 0
Bytes = List ℕ

-- The bytes of one `char`.
unfoldable pub encode_char : ℕ → Bytes
encode_char c =
    if ltb c 0x80
    then c ∷ []
    else if ltb c 0x800
    then (0xc0 + c / 64) ∷ (0x80 + c % 64) ∷ []
    else if ltb c 0x10000
    then (0xe0 + c / 4096) ∷ (0x80 + c / 64 % 64) ∷ (0x80 + c % 64) ∷ []
    else (0xf0 + c / 262144) ∷ (0x80 + c / 4096 % 64) ∷ (0x80 + c / 64 % 64) ∷ (0x80 + c % 64) ∷ []

unfoldable pub encode : Text → Bytes
unfolding encode_char
encode [] = []
encode (c ∷ cs) = encode_char c ++ encode cs

-- The bytes still wanted, the value so far, and the range of the next byte.
pub record Pending : Type 0 where
  pub need : ℕ
  pub acc : ℕ
  pub low : ℕ
  pub high : ℕ

abbrev pub ready : Pending
ready = record { need = 0; acc = 0; low = 0x80; high = 0xbf }

abbrev want : ℕ → ℕ → ℕ → ℕ → Option (Pending × Option ℕ)
want n a l h = some (record { need = n; acc = a; low = l; high = h }, none)

-- The first byte of a sequence.
unfoldable pub lead : ℕ → Option (Pending × Option ℕ)
lead b =
    if ltb b 0x80
    then some (ready, some b)
    else if within 0xc2 0xdf b
    then want 1 (b - 0xc0) 0x80 0xbf
    else if b == 0xe0
    then want 2 (b - 0xe0) 0xa0 0xbf
    else if b == 0xed
    then want 2 (b - 0xe0) 0x80 0x9f
    else if within 0xe1 0xef b
    then want 2 (b - 0xe0) 0x80 0xbf
    else if b == 0xf0
    then want 3 (b - 0xf0) 0x90 0xbf
    else if b == 0xf4
    then want 3 (b - 0xf0) 0x80 0x8f
    else if within 0xf1 0xf3 b
    then want 3 (b - 0xf0) 0x80 0xbf
    else none

unfoldable pub decode_step : Pending → ℕ → Option (Pending × Option ℕ)
unfolding lead
decode_step s b =
    if s.need == 0
    then lead b
    else if not (within s.low s.high b)
    then none
    else if s.need == 1
    then some (ready, some (s.acc * 64 + (b - 0x80)))
    else want (s.need - 1) (s.acc * 64 + (b - 0x80)) 0x80 0xbf

abbrev pub prepend : Option ℕ → Option Text → Option Text
prepend o none = none
prepend none (some t) = some t
prepend (some c) (some t) = some (c ∷ t)

unfoldable pub decode_from : Pending → Bytes → Option Text
unfolding decode_step
decode_from s [] = if s.need == 0 then some [] else none
decode_from s (b ∷ bs) = elim (decode_step s b) [
  | none ↦ none
  | some (s', out) ↦ prepend out (decode_from s' bs)
]

-- The `chars` of bytes, if they are well formed.
unfoldable pub decode : Bytes → Option Text
unfolding decode_from
decode = decode_from ready

-- A `char`: a code point that is no surrogate.
abbrev pub IsChar : ℕ → Type 0
IsChar c = (c < 0x110000) × ((c < 0xd800) ⊎ (0xdfff < c))

decode_one :
    (c : ℕ) (rest : Bytes)
    → c < 0x80
    → decode (encode_char c ++ rest) ≡ prepend (some c) (decode rest)
unfolding decode encode_char
decode_one c rest h = ground arith

decode_two :
    (c : ℕ) (rest : Bytes)
    → 0x80 ≤ c
    → c < 0x800
    → decode (encode_char c ++ rest) ≡ prepend (some c) (decode rest)
unfolding decode encode_char
decode_two c rest h k = ground arith

decode_three :
    (c : ℕ) (rest : Bytes)
    → 0x800 ≤ c
    → c < 0x10000
    → (c < 0xd800) ⊎ (0xdfff < c)
    → decode (encode_char c ++ rest) ≡ prepend (some c) (decode rest)
unfolding decode encode_char
decode_three c rest h k s = ground arith

decode_four :
    (c : ℕ) (rest : Bytes)
    → 0x10000 ≤ c
    → c < 0x110000
    → decode (encode_char c ++ rest) ≡ prepend (some c) (decode rest)
unfolding decode encode_char
decode_four c rest h k = ground arith

decode-encode_char :
    (c : ℕ) (rest : Bytes)
    → IsChar c
    → decode (encode_char c ++ rest) ≡ prepend (some c) (decode rest)
decode-encode_char c rest (h, s) = elim (dec_lt c 0x80) [
  | yes a ↦ decode_one c rest a
  | no a ↦ elim (dec_lt c 0x800) [
    | yes b ↦ decode_two c rest (omega arith) b
    | no b ↦ elim (dec_lt c 0x10000) [
      | yes d ↦ decode_three c rest (omega arith) d s
      | no d ↦ decode_four c rest (omega arith) h
    ]
  ]
]

-- Decoding gives the text back.
pub decode-encode : (s : Text) → All IsChar s → decode (encode s) ≡ some s
unfolding encode
decode-encode [] h = unfold decode in refl
decode-encode (c ∷ s) h = decode-encode_char c (encode s) h.0 ∙ rw (decode-encode s h.1)

pub encode-injective : (s t : Text) → All IsChar s → All IsChar t → encode s ≡ encode t → s ≡ t
encode-injective s t hs ht e = cc (decode-encode s hs, decode-encode t ht)
