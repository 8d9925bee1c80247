-- ===== src/Ssh/Proxy/Http/Status.antt =====
-- The status line of a response to CONNECT, and what it decides.
use rem_cmd.Prelude.{
  ℕ, ◌+◌, ◌-◌, ◌*◌, ◌≤◌, ◌<◌, true, false, some, [], ◌∷◌, ◌++◌, ok, err, Result, if◌then◌else◌,
  within, ◌==◌, get_elem?, ◌≡◌, refl, sym, ◌∙◌, ap, arith, append_assoc, append-nil, ltb,
  Bool-cases, inl, inr, ◌⊎◌, all, not, and_then, ◌&&◌, ◌||◌,
}
use rem_cmd.Prelude.Text.{
  Text, first_line, starts_with, is_ascii_whitespace, words_from, split_ascii_whitespace,
  parse_digits, parse_unsigned,
}
use rem_cmd.Ssh.Error.{SshError, proxy, proxy_authentication}
use rem_cmd.Ssh.Proxy.Http.{status_of, check_status}

-- A word, a space, three digits, and a blank or a line break.
pub record IsStatusLine (text : Text) (status : ℕ) : Type 0 where
  pub first : ℕ
  pub version : Text
  pub a : ℕ
  pub b : ℕ
  pub c : ℕ
  pub blank : ℕ
  pub rest : Text
  pub word : all (λ x. not (is_ascii_whitespace x)) (first ∷ version) ≡ true
  pub digits : all (within b'0' b'9') (a ∷ b ∷ c ∷ []) ≡ true
  pub ended : is_ascii_whitespace blank ≡ true
  pub line : text ≡ (first ∷ version) ++ (b' ' ∷ a ∷ b ∷ c ∷ blank ∷ rest)
  pub value : status ≡ (a - b'0') * 100 + (b - b'0') * 10 + (c - b'0')

-- A success lets the tunnel through, and no other status does: 407 is an error of the credentials.
unfoldable pub Decides : ℕ → Result (Unit {0}) SshError → Type 0
Decides status (ok _) = (200 ≤ status) × (status ≤ 299)
Decides status (err e) =
    ((status < 200) ⊎ (299 < status))
    × (e.kind ≡ (if status == 407 then proxy_authentication else proxy))

check_status-Decides : (status : ℕ) → Decides status (check_status (some status))
unfolding check_status Decides
check_status-Decides status = elim (Bool-cases (within 200 299 status)) [
  | inl good ↦ rw good (ground arith, ground arith)
  | inr bad ↦ rw bad (elim (Bool-cases (status == 407)) [
    | inl rejected ↦ rw rejected (inr (ground arith), rw rejected refl)
    | inr other ↦ rw other (outside status bad, rw other refl)
  ])
]
  where
    outside : (n : ℕ) → within 200 299 n ≡ false → (n < 200) ⊎ (299 < n)
    outside n h = elim (Bool-cases (ltb n 200)) [
      | inl low ↦ inl (ground arith)
      | inr high ↦ inr (ground arith)
    ]

first_line-word :
    (word rest : Text)
    → all (λ x. not (is_ascii_whitespace x)) word ≡ true
    → first_line (word ++ rest) ≡ word ++ first_line rest
unfolding first_line
first_line-word [] rest h = refl
first_line-word (x ∷ word) rest h = ground (arith, first_line-word word rest)

words_from-word :
    (w : ℕ) (read word rest : Text)
    → all (λ x. not (is_ascii_whitespace x)) word ≡ true
    → words_from (w ∷ read) (word ++ b' ' ∷ rest) ≡ ((w ∷ read) ++ word) ∷ words_from [] rest
unfolding words_from
words_from-word w read [] rest h = rw (append-nil read) refl
words_from-word w read (x ∷ word) rest h =
    let clear : is_ascii_whitespace x ≡ false = ground arith in
    rw clear (
      words_from-word w (read ++ x ∷ []) word rest (ground arith)
      ∙ ap (λ r. (w ∷ r) ∷ words_from [] rest) (append_assoc read (x ∷ []) word))

parse_three :
    (a b c : ℕ)
    → all (within b'0' b'9') (a ∷ b ∷ c ∷ []) ≡ true
    → parse_unsigned 65535 (a ∷ b ∷ c ∷ []) ≡ some ((a - b'0') * 100 + (b - b'0') * 10 + (c - b'0'))
unfolding parse_unsigned parse_digits
parse_three a b c h = ground arith

words_from-step :
    (word : Text) (x : ℕ) (line : Text)
    → is_ascii_whitespace x ≡ false
    → words_from word (x ∷ line) ≡ words_from (word ++ x ∷ []) line
unfolding words_from
words_from-step [] x line h = rw (h, words_from) refl
words_from-step (w ∷ read) x line h = rw (h, words_from) refl

words_from-end :
    (w : ℕ) (read : Text) (blank : ℕ) (line : Text)
    → is_ascii_whitespace blank ≡ true
    → get_elem? (words_from (w ∷ read) (blank ∷ line)) 0 ≡ some (w ∷ read)
unfolding words_from
words_from-end w read blank line h = rw (h, words_from) refl

-- What follows the digits is no part of their word.
digits_word :
    (a b c blank : ℕ) (rest : Text)
    → all (λ x. not (is_ascii_whitespace x)) (a ∷ b ∷ c ∷ []) ≡ true
    → is_ascii_whitespace blank ≡ true
    → get_elem? (words_from [] (first_line (a ∷ b ∷ c ∷ blank ∷ rest))) 0 ≡ some (a ∷ b ∷ c ∷ [])
unfolding words_from first_line
digits_word a b c blank rest d h =
    ap (λ line. get_elem? (words_from [] line) 0)
      (first_line-word (a ∷ b ∷ c ∷ []) (blank ∷ rest) d)
    ∙ ap (λ ws. get_elem? ws 0)
        (words_from-step [] a (b ∷ c ∷ line) (ground arith)
          ∙ words_from-step (a ∷ []) b (c ∷ line) (ground arith)
          ∙ words_from-step (a ∷ b ∷ []) c line (ground arith))
    ∙ last_word
  where
    line : Text
    line = first_line (blank ∷ rest)

    last_word : get_elem? (words_from (a ∷ b ∷ c ∷ []) line) 0 ≡ some (a ∷ b ∷ c ∷ [])
    last_word = elim (Bool-cases (blank == b'\n' || blank == b'\r' && starts_with b'\n' rest)) [
      | inl over ↦ rw (over, first_line) refl
      | inr more ↦ rw (more, first_line) (words_from-end a (b ∷ c ∷ []) blank (first_line rest) h)
    ]

two_words :
    (first : ℕ) (version line : Text)
    → all (λ x. not (is_ascii_whitespace x)) (first ∷ version) ≡ true
    → words_from [] ((first ∷ version) ++ b' ' ∷ line) ≡ (first ∷ version) ∷ words_from [] line
two_words first version line h =
    words_from-step [] first (version ++ b' ' ∷ line) (ground arith)
    ∙ words_from-word first [] version line (ground arith)

status_of-IsStatusLine :
    (text : Text) (status : ℕ) → IsStatusLine text status → status_of text ≡ some status
unfolding status_of split_ascii_whitespace first_line
status_of-IsStatusLine text status l =
    let tail = b' ' ∷ l.a ∷ l.b ∷ l.c ∷ l.blank ∷ l.rest in
    let line = first_line (l.a ∷ l.b ∷ l.c ∷ l.blank ∷ l.rest) in
    let words : words_from [] (first_line text) ≡ (l.first ∷ l.version) ∷ words_from [] line =
      ap (λ t. words_from [] (first_line t)) l.line
      ∙ ap (words_from []) (first_line-word (l.first ∷ l.version) tail l.word)
      ∙ two_words l.first l.version line l.word in
    let third = digits_word l.a l.b l.c l.blank l.rest (ground (arith, l.digits)) l.ended in
    ap (λ ws. and_then (get_elem? ws 1) (parse_unsigned 65535)) words
    ∙ ap (λ o. and_then o (parse_unsigned 65535)) third
    ∙ parse_three l.a l.b l.c l.digits
    ∙ ap some (sym l.value)

-- A response with a status line is decided by its status.
pub check_status-IsStatusLine :
    (text : Text) (status : ℕ)
    → IsStatusLine text status
    → Decides status (check_status (status_of text))
check_status-IsStatusLine text status l =
    rw (status_of-IsStatusLine text status l) (check_status-Decides status)
