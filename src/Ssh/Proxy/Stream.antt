-- ===== src/Ssh/Proxy/Stream.antt =====
-- A TCP stream as proxy.rs uses it: `write_all`, `read_exact`, and the error of either.
use rem_cmd.Prelude.{
  ℕ, zero, suc, ◌+◌, ◌≤◌, arith, Option, none, some, [], ◌∷◌, ◌++◌, Result, ok, err, if◌then◌else◌,
  leb, length,
}
use mathlib.Core.Path.{◌≡◌, refl, ap}
use rem_cmd.Prelude.Text.{Text}
use rem_cmd.Prelude.Utf8.{Bytes}
use rem_cmd.Ssh.Error.{SshError, ssh_error, proxy}

-- `accepts` bounds what the peer takes before it closes; `fault` is the text of an I/O error.
pub record Stream : Type 0 where
  pub incoming : Bytes
  pub sent : Bytes
  pub accepts : ℕ
  pub fault : Text

-- Code that uses the stream: its result, and the stream behind it.
abbrev pub M : Type 0 → Type 0
M A = Stream → Result A SshError × Stream

abbrev pub return : {A : Type 0} → A → M A
return a s = (ok a, s)

abbrev pub throw : {A : Type 0} → SshError → M A
throw e s = (err e, s)

-- The chain of `.await?`: an error ends it, with the stream as it is then.
infixl 5 ◌>>=◌ ◌>>◌
abbrev pub ◌>>=◌ : {A B : Type 0} → (m : M A) (f : A → M B) → M B
◌>>=◌ m f s = let (result, s') = m s in elim result [ err e ↦ (err e, s') | ok a ↦ f a s' ]

abbrev pub ◌>>◌ : {B : Type 0} → (m : M (Unit {0})) (next : M B) → M B
m >> next = m >>= λ _. next

-- `io_error`.
abbrev pub io_error : Stream → SshError
io_error s = ssh_error proxy s.fault

unfoldable pub write_all : Bytes → M (Unit {0})
write_all bytes s =
    if leb (length s.sent + length bytes) s.accepts
    then (ok tt, record s { sent = s.sent ++ bytes })
    else (err (io_error s), s)

-- The first `n` bytes and those behind them.
abbrev pub split_first : ℕ → Bytes → Option (Bytes × Bytes)
split_first zero bytes = some ([], bytes)
split_first (suc n) [] = none
split_first (suc n) (b ∷ bytes) = elim (split_first n bytes) [
  | none ↦ none
  | some (first, rest) ↦ some (b ∷ first, rest)
]

unfoldable pub read_exact : ℕ → M Bytes
read_exact n s = elim (split_first n s.incoming) [
  | none ↦ (err (io_error s), record s { incoming = [] })
  | some (first, rest) ↦ (ok first, record s { incoming = rest })
]

-- A step that succeeds hands its value and its stream on; one that fails ends the chain.
module _ {A B : Type 0} (m : M A) (f : A → M B) {s s' : Stream} where
  pub bind_ok : {a : A} → m s ≡ (ok a, s') → (m >>= f) s ≡ f a s'
  bind_ok e = rw (e, ◌>>=◌) (rw e)

  pub bind_err : {e : SshError} → m s ≡ (err e, s') → (m >>= f) s ≡ (err e, s')
  bind_err h = rw (h, ◌>>=◌) (rw h)

module _ {A B : Type 0} (f g : A → M B) where
  same_outcome :
      (r : Result A SshError) (s : Stream)
      → ((a : A) → f a s ≡ g a s)
      → (let step : M A = λ _. (r, s) in (step >>= f) s ≡ (step >>= g) s)
  same_outcome (ok a) s h = h a
  same_outcome (err e) s h = refl

  -- Two continuations that agree on the stream that the first step leaves.
  pub bind_same :
      (m : M A) (s : Stream) → ((a : A) → f a (m s).1 ≡ g a (m s).1) → (m >>= f) s ≡ (m >>= g) s
  bind_same m s h = same_outcome (m s).0 (m s).1 h

-- Two first steps that agree on a stream.
pub bind_step :
    {A B : Type 0} (m m' : M A) (f : A → M B) (s : Stream) → m s ≡ m' s → (m >>= f) s ≡ (m' >>= f) s
bind_step {B} m m' f s e =
    ap {B = Result B SshError × Stream} (λ r. elim r.0 [ ok a ↦ f a r.1 | err x ↦ (err x, r.1) ]) e

-- The stream takes so many more bytes.
abbrev pub HasRoom : Stream → ℕ → Type 0
HasRoom s n = length s.sent + n ≤ s.accepts

pub write_all-room :
    (s : Stream) (bytes : Bytes)
    → HasRoom s (length bytes)
    → write_all bytes s ≡ (ok tt, record s { sent = s.sent ++ bytes })
unfolding write_all
write_all-room s bytes h = ground arith

pub write_all-incoming : (bytes : Bytes) (s : Stream) → (write_all bytes s).1.incoming ≡ s.incoming
unfolding write_all
write_all-incoming bytes s = ground arith

split_first-append : (xs rest : Bytes) → split_first (length xs) (xs ++ rest) ≡ some (xs, rest)
split_first-append [] rest = refl
split_first-append (x ∷ xs) rest = rw (split_first-append xs rest)

pub read_exact-append :
    (s : Stream) (xs rest : Bytes)
    → s.incoming ≡ xs ++ rest
    → read_exact (length xs) s ≡ (ok xs, record s { incoming = rest })
unfolding read_exact
read_exact-append s xs rest e = ground (arith, e, split_first-append xs rest)
