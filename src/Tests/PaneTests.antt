-- ===== src/Tests/PaneTests.antt =====
-- pane_layout.rs at three panes.
use rem_cmd.Prelude.{true, some, ◌≡◌, refl}
use rem_cmd.Pane.{horizontal, vertical, PaneLayout, pane, split_pane, split, without, contains}
use rem_cmd.Pane.Removal.{Removes, without-Removes, without-split}

abbrev three : PaneLayout
three = split_pane horizontal (pane 1) (split_pane vertical (pane 2) (pane 3))

-- The window of the test in the source after its first pane is closed.
without_one : without three 1 ≡ some (some (split_pane vertical (pane 2) (pane 3)), true)
unfolding without
without_one = refl

without-Removes_example : Removes three 2
without-Removes_example = without-Removes three 2

without-split_example : without (split three 2 9 horizontal).0 9 ≡ some (some three, true)
unfolding contains
without-split_example = without-split three 2 9 horizontal refl refl
