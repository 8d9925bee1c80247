-- ===== src/Prelude/Text/Lines.antt =====
-- `str::lines` and `str::split_once`.
use Prim.Native.Nat.{ℕ}
use mathlib.Core.Bool.{◌&&◌}
use mathlib.Core.Option.{Option, none, some}
use mathlib.Core.List.{List, [], ◌∷◌}
use rem_cmd.Prelude.Tests.{◌==◌, if◌then◌else◌}
use rem_cmd.Prelude.Text.Defs.{Text, cons_head, starts_with}

-- A carriage return goes only in front of a line break, and a last line needs no break.
unfoldable pub lines : Text → List Text
lines [] = []
lines (c ∷ s) =
    let rest = lines s in
    if c == b'\n'
    then [] ∷ rest
    else if c == b'\r' && starts_with b'\n' s
    then rest
    else cons_head c rest

-- Before and behind the first such character.
unfoldable pub split_once : ℕ → Text → Option (Text × Text)
split_once c [] = none
split_once c (x ∷ s) =
    let later = split_once c s in
    if x == c
    then some ([], s)
    else elim later [ none ↦ none | some (before, behind) ↦ some (x ∷ before, behind) ]
