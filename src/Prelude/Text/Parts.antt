-- ===== src/Prelude/Text/Parts.antt =====
-- `rfind` and `split` on a text that is put together at a separator.
use Prim.Native.Nat.{ℕ}
use mathlib.Core.Path.{◌≡◌, refl}
use mathlib.Core.Logic.{◌≢◌, inl, inr}
use mathlib.Core.Bool.{true}
use mathlib.Core.Option.{none, some}
use mathlib.Core.List.{List, [], ◌∷◌, ◌++◌}
use native.Mathlib.Omega.{arith}
use rem_cmd.Prelude.Tests.{◌==◌, if◌then◌else◌, Bool-cases}
use rem_cmd.Prelude.Lists.{length, All}
use rem_cmd.Prelude.Text.Defs.{Text, rfind, split, cons_head, free_of}

pub rfind-free_of : (c : ℕ) (s : Text) → free_of c s ≡ true → rfind c s ≡ none
unfolding rfind
rfind-free_of c [] h = refl
rfind-free_of c (x ∷ s) h = ground (arith, rfind-free_of c s)

pub rfind-append :
    (c : ℕ) (xs ys : Text) → free_of c ys ≡ true → rfind c (xs ++ c ∷ ys) ≡ some (length xs)
unfolding rfind
rfind-append c [] ys h = ground (arith, rfind-free_of c ys)
rfind-append c (x ∷ xs) ys h = rw (rfind-append c xs ys h)

module _ (c : ℕ) where
  pub split-ne-nil : (s : Text) → split c s ≢ []
  unfolding split
  split-ne-nil [] h = cc
  split-ne-nil (x ∷ s) h = ground arith

  pub split-append : (xs ys : Text) → split c (xs ++ c ∷ ys) ≡ split c xs ++ split c ys
  unfolding split
  split-append [] ys = ground arith
  split-append (x ∷ xs) ys = ground (arith, split-append xs ys, split-ne-nil xs)

  pub split-free_of : (s : Text) → free_of c s ≡ true → split c s ≡ s ∷ []
  unfolding split
  split-free_of [] h = refl
  split-free_of (x ∷ s) h = ground (arith, split-free_of s)

  -- No part holds the separator.
  pub split-All : (s : Text) → All (λ part. free_of c part ≡ true) (split c s)
  unfolding split
  split-All [] = (refl, tt)
  split-All (x ∷ s) = grow (split c s) (split-All s)
    where
      grow :
          (parts : List Text)
          → All (λ part. free_of c part ≡ true) parts
          → All (λ part. free_of c part ≡ true) (if x == c then [] ∷ parts else cons_head x parts)
      grow [] h = ground arith
      grow (p ∷ ps) h = elim (Bool-cases (x == c)) [
        | inl same ↦ rw same (refl, h)
        | inr other ↦ rw other (ground arith, h.1)
      ]
