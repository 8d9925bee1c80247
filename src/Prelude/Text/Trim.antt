-- ===== src/Prelude/Text/Trim.antt =====
-- `trim_end_matches` and `trim`: what they keep and what they remove.
use Prim.Native.Nat.{ℕ}
use mathlib.Core.Path.{◌≡◌, refl, ap, ◌∙◌}
use mathlib.Core.Logic.{◌≢◌, inl, inr}
use mathlib.Core.Bool.{Bool, true, false}
use mathlib.Core.List.{[], ◌∷◌, ◌++◌}
use native.Mathlib.Omega.{arith}
use rem_cmd.Prelude.Tests.{◌==◌, Bool-cases}
use rem_cmd.Prelude.Lists.{all, List-cases}
use rem_cmd.Prelude.Text.Defs.{
  Text, keep_unless, trim_start_matches, trim_end_matches, is_whitespace, trim, free_of,
}

pub trim_end_matches-append :
    (p : ℕ → Bool) (xs ys : Text)
    → trim_end_matches p ys ≢ []
    → trim_end_matches p (xs ++ ys) ≡ xs ++ trim_end_matches p ys
unfolding trim_end_matches
trim_end_matches-append p [] ys h = refl
trim_end_matches-append p (x ∷ []) ys h = ground arith
trim_end_matches-append p (x ∷ (y ∷ xs)) ys h = rw (trim_end_matches-append p (y ∷ xs) ys h)

pub trim_end_matches-free_of :
    (c : ℕ) (s : Text) → free_of c s ≡ true → trim_end_matches (λ x. x == c) s ≡ s
unfolding trim_end_matches
trim_end_matches-free_of c [] h = refl
trim_end_matches-free_of c (x ∷ s) h = ground (arith, trim_end_matches-free_of c s)

-- What is trimmed away is made of such characters only.
pub trim_end_matches-rest :
    (p : ℕ → Bool) (s : Text)
    → (gone : Text) × (s ≡ trim_end_matches p s ++ gone) × (all p gone ≡ true)
unfolding trim_end_matches
trim_end_matches-rest p [] = ([], refl, refl)
trim_end_matches-rest p (c ∷ s) = keep (trim_end_matches-rest p s)
  where
    keep :
        ((gone : Text) × (s ≡ trim_end_matches p s ++ gone) × (all p gone ≡ true))
        → (gone : Text) × (c ∷ s ≡ keep_unless p c (trim_end_matches p s) ++ gone)
          × (all p gone ≡ true)
    keep (gone, e, h) = elim (List-cases (trim_end_matches p s)) [
      | inl none_left ↦ elim (Bool-cases (p c)) [
        | inl yes_c ↦ (c ∷ s, ground arith, ground arith)
        | inr no_c ↦ (s, ground arith, ground arith)
      ]
      | inr (d, r, more) ↦ (gone, ground arith, h)
    ]

-- The first character, if there is one, does not satisfy the predicate.
abbrev StartsClear : (ℕ → Bool) → Text → Type 0
StartsClear p [] = Unit
StartsClear p (c ∷ s) = p c ≡ false

trim_start_matches-clear : (p : ℕ → Bool) (s : Text) → StartsClear p (trim_start_matches p s)
unfolding trim_start_matches
trim_start_matches-clear p [] = tt
trim_start_matches-clear p (c ∷ s) = elim (Bool-cases (p c)) [
  | inl h ↦ rw h (trim_start_matches-clear p s)
  | inr h ↦ rw h h
]

trim_start_matches-stay : (p : ℕ → Bool) (s : Text) → StartsClear p s → trim_start_matches p s ≡ s
unfolding trim_start_matches
trim_start_matches-stay p [] h = refl
trim_start_matches-stay p (c ∷ s) h = rw h

trim_end_matches-clear :
    (p : ℕ → Bool) (s : Text) → StartsClear p s → StartsClear p (trim_end_matches p s)
unfolding trim_end_matches
trim_end_matches-clear p [] h = tt
trim_end_matches-clear p (c ∷ s) h = elim (List-cases (trim_end_matches p s)) [
  | inl e ↦ rw (e, keep_unless) (rw h h)
  | inr (d, r, e) ↦ rw (e, keep_unless) h
]

pub trim_end_matches_idem :
    (p : ℕ → Bool) (s : Text) → trim_end_matches p (trim_end_matches p s) ≡ trim_end_matches p s
unfolding trim_end_matches
trim_end_matches_idem p [] = refl
trim_end_matches_idem p (c ∷ s) = elim (List-cases (trim_end_matches p s)) [
  | inl e ↦ elim (Bool-cases (p c)) [ inl h ↦ ground (arith, e, h) | inr h ↦ ground (arith, e, h) ]
  | inr (d, r, e) ↦ ground (arith, e, trim_end_matches_idem p s)
]

-- A second `trim` changes nothing.
pub trim_idem : (s : Text) → trim (trim s) ≡ trim s
unfolding trim
trim_idem s =
    let kept = trim_start_matches is_whitespace s in
    ap (trim_end_matches is_whitespace) (
      trim_start_matches-stay is_whitespace (trim_end_matches is_whitespace kept)
        (trim_end_matches-clear is_whitespace kept (trim_start_matches-clear is_whitespace s)))
    ∙ trim_end_matches_idem is_whitespace kept
