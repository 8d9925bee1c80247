-- ===== src/Terminal/Screen/Selecting.antt =====
-- What a selection contains.
use rem_cmd.Prelude.{ℕ, Bool, ◌&&◌, ◌||◌, ◌≡◌, arith}
use rem_cmd.Terminal.Screen.{TerminalPoint, point_lt, point_le, TerminalSelection, contains}

-- The selection without its direction: from the smaller end up to the larger one, which is left out,
-- in reading order.
abbrev pub between : TerminalPoint → TerminalPoint → TerminalPoint → Bool
between a b p = (point_le a p && point_lt p b) || (point_le b p && point_lt p a)

-- A selection contains exactly the cells from the earlier of its two points up to, and without,
-- the later one.
pub contains-between :
    (s : TerminalSelection) (row column : ℕ)
    → contains s row column ≡ between s.anchor s.head (record { row = row; column = column })
unfolding contains
contains-between s row column = ground arith

-- A selection dragged the other way contains the same cells.
pub contains_swap :
    (s : TerminalSelection) (row column : ℕ)
    → contains (record { anchor = s.head; head = s.anchor }) row column ≡ contains s row column
unfolding contains
contains_swap s row column = ground arith
