-- ===== src/Ssh/Plan/ProxyCommand/Expansion.antt =====
-- The expansion against templates: a command is read as plain characters and tokens.
use mathlib.Core.List.{append_assoc, append-nil}
use rem_cmd.Prelude.{
  ℕ, List, [], ◌∷◌, ◌++◌, ok, ◌≡◌, ◌≢◌, refl, ap, sym, ◌∙◌, arith, ◌==◌, All, ◌>>=◌, >>=-eq-ok,
  Bool-cases, inl, inr,
}
use rem_cmd.Prelude.Text.{Text, decimal}
use rem_cmd.Core.Profile.{ConnectionProfile}
use rem_cmd.Ssh.Plan.ProxyCommand.{token, expand_onto, expand_proxy_command}

-- A piece of a command.
pub data Piece : Type 0 where
  plain : ℕ → Piece
  percent host name port user : Piece

-- How a piece is written, and what it stands for.
abbrev pub written : Piece → Text
written (plain c) = c ∷ []
written percent = b'%' ∷ b'%' ∷ []
written host = b'%' ∷ b'h' ∷ []
written name = b'%' ∷ b'n' ∷ []
written port = b'%' ∷ b'p' ∷ []
written user = b'%' ∷ b'r' ∷ []

abbrev pub meaning : ConnectionProfile → Piece → Text
meaning e (plain c) = c ∷ []
meaning e percent = b'%' ∷ []
meaning e host = e.host
meaning e name = e.name
meaning e port = decimal e.port
meaning e user = e.username

abbrev pub template : List Piece → Text
template [] = []
template (p ∷ ps) = written p ++ template ps

abbrev pub rendered : ConnectionProfile → List Piece → Text
rendered e [] = []
rendered e (p ∷ ps) = meaning e p ++ rendered e ps

-- A plain piece is not a percent sign.
abbrev pub IsPiece : Piece → Type 0
IsPiece (plain c) = c ≢ b'%'
IsPiece _ = Unit

expand_plain :
    (e : ConnectionProfile) (out rest : Text) (c : ℕ)
    → c ≢ b'%'
    → expand_onto e out (c ∷ rest) ≡ expand_onto e (out ++ c ∷ []) rest
unfolding expand_onto
expand_plain e out [] c h = ground arith
expand_plain e out (d ∷ rest) c h = ground arith

expand_token :
    (e : ConnectionProfile) (out rest : Text) (d : ℕ)
    → expand_onto e out (b'%' ∷ d ∷ rest) ≡ (token e d >>= λ t. expand_onto e (out ++ t) rest)
unfolding expand_onto
expand_token e out rest d = refl

expand_piece :
    (e : ConnectionProfile) (out rest : Text) (p : Piece)
    → IsPiece p
    → expand_onto e out (written p ++ rest) ≡ expand_onto e (out ++ meaning e p) rest
unfolding token
expand_piece e out rest (plain c) h = expand_plain e out rest c h
expand_piece e out rest percent h = expand_token e out rest b'%'
expand_piece e out rest host h = expand_token e out rest b'h'
expand_piece e out rest name h = expand_token e out rest b'n'
expand_piece e out rest port h = expand_token e out rest b'p'
expand_piece e out rest user h = expand_token e out rest b'r'

expand_pieces :
    (e : ConnectionProfile) (out : Text) (ps : List Piece)
    → All IsPiece ps
    → expand_onto e out (template ps) ≡ ok (out ++ rendered e ps)
expand_pieces e out [] h = unfold expand_onto in rw append-nil
expand_pieces e out (p ∷ ps) h =
    expand_piece e out (template ps) p h.0
    ∙ expand_pieces e (out ++ meaning e p) ps h.1
    ∙ ap ok (append_assoc out (meaning e p) (rendered e ps))

-- A command made of plain characters, none of them a percent sign, and of the five tokens expands
-- to what its pieces stand for.
pub expand-template :
    (e : ConnectionProfile) (ps : List Piece)
    → All IsPiece ps
    → expand_proxy_command (template ps) e ≡ ok (rendered e ps)
unfolding expand_proxy_command
expand-template e ps h = expand_pieces e [] ps h

-- The pieces of a command that expands.
pub record ReadAs (e : ConnectionProfile) (command output : Text) : Type 0 where
  pub pieces : List Piece
  pub are_pieces : All IsPiece pieces
  pub is_template : command ≡ template pieces
  pub is_rendered : output ≡ rendered e pieces

-- The piece of a token.
record TokenPiece (e : ConnectionProfile) (d : ℕ) (t : Text) : Type 0 where
  piece : Piece
  is_piece : IsPiece piece
  is_written : (rest : Text) → written piece ++ rest ≡ b'%' ∷ d ∷ rest
  means : meaning e piece ≡ t

token-TokenPiece : (e : ConnectionProfile) (d : ℕ) {t : Text} → token e d ≡ ok t → TokenPiece e d t
unfolding token
token-TokenPiece e d h = elim (Bool-cases (d == b'%')) [
  | inl a ↦ record {
    piece = percent;
    is_piece = tt;
    is_written = λ rest. ground arith;
    means = ground arith;
  }
  | inr a ↦ elim (Bool-cases (d == b'h')) [
    | inl b ↦ record {
      piece = host;
      is_piece = tt;
      is_written = λ rest. ground arith;
      means = ground arith;
    }
    | inr b ↦ elim (Bool-cases (d == b'n')) [
      | inl c ↦ record {
        piece = name;
        is_piece = tt;
        is_written = λ rest. ground arith;
        means = ground arith;
      }
      | inr c ↦ elim (Bool-cases (d == b'p')) [
        | inl f ↦ record {
          piece = port;
          is_piece = tt;
          is_written = λ rest. ground arith;
          means = ground arith;
        }
        | inr f ↦ record {
          piece = user;
          is_piece = tt;
          is_written = λ rest. ground arith;
          means = ground arith;
        }
      ]
    ]
  ]
]

ReadFrom : ConnectionProfile → Text → Text → Text → Type 0
ReadFrom e out s r =
    (ps : List Piece) × All IsPiece ps × (s ≡ template ps) × (r ≡ out ++ rendered e ps)

read_from :
    (e : ConnectionProfile) (out s : Text) {r : Text}
    → expand_onto e out s ≡ ok r
    → ReadFrom e out s r
unfolding expand_onto ReadFrom
read_from e out [] h = ([], tt, refl, ground (arith, append-nil out))
read_from e out (c ∷ []) h = (plain c ∷ [], (ground arith, tt), refl, ground arith)
read_from e out (c ∷ d ∷ rest) {r} h = elim (Bool-cases (c == b'%')) [
  | inr ordinary ↦
      let (ps, good, spelled, result) =
        read_from e (out ++ c ∷ []) (d ∷ rest) {r = r} (ground arith) in
      (
        plain c ∷ ps,
        (ground arith, good),
        ap (c ∷◌) spelled,
        result ∙ append_assoc out (c ∷ []) (rendered e ps),
      )
  | inl escape ↦
      let (t, later, tok) =
        >>=-eq-ok (token e d) (λ t. expand_onto e (out ++ t) rest) {b = r} (ground arith) in
      let p = token-TokenPiece e d tok in
      let (ps, good, spelled, result) = read_from e (out ++ t) rest {r = r} later in
      (
        p.piece ∷ ps,
        (p.is_piece, good),
        ground (arith, p.is_written (template ps), spelled),
        result
            ∙ append_assoc out t (rendered e ps)
            ∙ ap (λ x. out ++ (x ++ rendered e ps)) (sym p.means),
      )
]

-- Whatever command expands is made of plain characters and of the five tokens, and the output is
-- what these pieces stand for.
pub expand-ReadAs :
    (e : ConnectionProfile) (command : Text) {output : Text}
    → expand_proxy_command command e ≡ ok output
    → ReadAs e command output
unfolding expand_proxy_command ReadFrom
expand-ReadAs e command h =
    let (ps, good, spelled, result) = read_from e [] command h in
    record { pieces = ps; are_pieces = good; is_template = spelled; is_rendered = result }
