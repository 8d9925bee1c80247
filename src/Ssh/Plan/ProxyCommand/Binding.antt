-- ===== src/Ssh/Plan/ProxyCommand/Binding.antt =====
-- The bytes that an approval digest hashes, against the command and the endpoint's fields.
use native.Mathlib.Nat.{pow-suc}
use rem_cmd.Prelude.{
  ℕ, zero, suc, ◌+◌, ◌-◌, ◌*◌, ◌/◌, ◌%◌, ◌^◌, ◌<◌, List, [], ◌∷◌, ◌++◌, ◌≡◌, ◌≢◌, refl, sym, ap,
  ◌∙◌, arith, ltb, All, All-append, inl, inr, Bool-cases,
}
use rem_cmd.Prelude.Text.{Text, decimal, digits_onto}
use rem_cmd.Prelude.Utf8.{Bytes, encode, encode_char, IsChar, encode-injective}
use rem_cmd.Core.Profile.{ConnectionProfile}
use rem_cmd.Ssh.Plan.ProxyCommand.{hash_fields, approval_fields}

-- The number that decimal digits stand for, `acc` being the digits before.
value_onto : ℕ → Text → ℕ
value_onto acc [] = acc
value_onto acc (c ∷ cs) = value_onto (acc * 10 + (c - b'0')) cs

value-digits_onto :
    (fuel n : ℕ) (rest : Text)
    → n < 10 ^ suc fuel
    → value_onto 0 (digits_onto fuel n rest) ≡ value_onto n rest
unfolding value_onto digits_onto
value-digits_onto zero n rest h = ap (λ m. value_onto m rest) (omega arith)
value-digits_onto (suc fuel) n rest h = elim (Bool-cases (ltb n 10)) [
  | inl small ↦ rw small (ap (λ m. value_onto m rest) (omega arith))
  | inr large ↦ rw large (
      value-digits_onto fuel (n / 10) ((b'0' + n % 10) ∷ rest)
        (omega (arith, pow-suc 10 (suc fuel)))
      ∙ ap (λ m. value_onto m rest) (omega arith))
]

-- Different numbers of at most 64 bits are written differently.
decimal-injective : (m n : ℕ) → m < 2 ^ 64 → n < 2 ^ 64 → decimal m ≡ decimal n → m ≡ n
unfolding decimal value_onto
decimal-injective m n hm hn e =
    sym (value-digits_onto 19 m [] (omega arith))
    ∙ ap (value_onto 0) e
    ∙ value-digits_onto 19 n [] (omega arith)

-- A field of characters other than the zero that ends a field.
abbrev pub IsField : Text → Type 0
IsField f = All IsChar f × All (λ c. c ≢ 0) f

abbrev NoZero : Bytes → Type 0
NoZero bs = All (λ b. b ≢ 0) bs

encode_char-NoZero : (c : ℕ) → c ≢ 0 → NoZero (encode_char c)
unfolding encode_char
encode_char-NoZero c h = ground arith

encode-NoZero : (f : Text) → All (λ c. c ≢ 0) f → NoZero (encode f)
unfolding encode
encode-NoZero [] h = tt
encode-NoZero (c ∷ cs) h =
    All-append (λ b. b ≢ 0) (encode_char c) (encode_char-NoZero c h.0) (encode cs)
      (encode-NoZero cs h.1)

split_at_zero :
    (xs ys r s : Bytes)
    → NoZero xs
    → NoZero ys
    → xs ++ (0 ∷ r) ≡ ys ++ (0 ∷ s)
    → (xs ≡ ys) × (r ≡ s)
split_at_zero [] [] r s hx hy e = (refl, cc)
split_at_zero [] (y ∷ ys) r s hx hy e = absurd (ground arith)
split_at_zero (x ∷ xs) [] r s hx hy e = absurd (ground arith)
split_at_zero (x ∷ xs) (y ∷ ys) r s hx hy e = ground (arith, split_at_zero xs ys r s)

hash_fields-cons :
    (f g : Text) (fs gs : List Text)
    → IsField f
    → IsField g
    → hash_fields (f ∷ fs) ≡ hash_fields (g ∷ gs)
    → (f ≡ g) × (hash_fields fs ≡ hash_fields gs)
unfolding hash_fields
hash_fields-cons f g fs gs hf hg e =
    let (same, later) =
      split_at_zero (encode f) (encode g) (hash_fields fs) (hash_fields gs) (encode-NoZero f hf.1)
        (encode-NoZero g hg.1) e in
    (encode-injective f g hf.0 hg.0 same, later)

-- The fields in which `ConnectionProfile`s of approvals are written.
pub record HasFields (e : ConnectionProfile) : Type 0 where
  pub name : IsField e.name
  pub host : IsField e.host
  pub username : IsField e.username
  pub port : e.port < 65536

-- What an approval is bound to.
pub record SameUse (c c' : Text) (e e' : ConnectionProfile) : Type 0 where
  pub command : c ≡ c'
  pub name : e.name ≡ e'.name
  pub host : e.host ≡ e'.host
  pub port : e.port ≡ e'.port
  pub username : e.username ≡ e'.username

digits_onto-IsField : (fuel n : ℕ) (rest : Text) → IsField rest → IsField (digits_onto fuel n rest)
unfolding digits_onto
digits_onto-IsField zero n rest h = ((omega arith, h.0), (omega arith, h.1))
digits_onto-IsField (suc fuel) n rest h = elim (Bool-cases (ltb n 10)) [
  | inl small ↦ rw small ((ground arith, h.0), (omega arith, h.1))
  | inr large ↦ rw large (
      digits_onto-IsField fuel (n / 10) ((b'0' + n % 10) ∷ rest)
        ((omega arith, h.0), (omega arith, h.1)))
]

decimal-IsField : (n : ℕ) → IsField (decimal n)
unfolding decimal
decimal-IsField n = digits_onto-IsField 19 n [] (tt, tt)

-- The hashed bytes are equal only for the same command, name, host, port and user name, if none of
-- these texts holds a zero character.
pub hash_fields-SameUse :
    (c c' : Text) (e e' : ConnectionProfile)
    → IsField c
    → IsField c'
    → HasFields e
    → HasFields e'
    → hash_fields (approval_fields c e) ≡ hash_fields (approval_fields c' e')
    → SameUse c c' e e'
hash_fields-SameUse c c' e e' hc hc' he he' eq =
    let (command, eq₁) = hash_fields-cons c c' _ _ hc hc' eq in
    let (name, eq₂) = hash_fields-cons e.name e'.name _ _ he.name he'.name eq₁ in
    let (host, eq₃) = hash_fields-cons e.host e'.host _ _ he.host he'.host eq₂ in
    let (port, eq₄) =
      hash_fields-cons (decimal e.port) (decimal e'.port) _ _ (decimal-IsField e.port)
        (decimal-IsField e'.port) eq₃ in
    let (user, _) = hash_fields-cons e.username e'.username _ _ he.username he'.username eq₄ in
    record {
      command = command;
      name = name;
      host = host;
      port = decimal-injective e.port e'.port (omega arith) (omega arith) port;
      username = user;
    }
