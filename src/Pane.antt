-- ===== src/Pane.antt =====
-- crates/remcmd-app/src/pane_layout.rs: the tree of terminal panes of a tab. A `PaneId` is its number.
pub mod Leaves
pub mod Removal
use rem_cmd.Prelude.{ℕ, Bool, true, false, ◌||◌, Option, none, some, if◌then◌else◌, ◌==◌}

pub data SplitAxis : Type 0 where
  horizontal vertical : SplitAxis

pub data PaneLayout : Type 0 where
  pane : ℕ → PaneLayout
  split_pane : SplitAxis → PaneLayout → PaneLayout → PaneLayout

-- `split` on `&mut self`: the new layout, and whether the target was found. The second branch is
-- visited only if the first did not hold the target, as `||` does.
unfoldable pub split : PaneLayout → ℕ → ℕ → SplitAxis → PaneLayout × Bool
split (pane id) target new_pane axis =
    if id == target then (split_pane axis (pane target) (pane new_pane), true) else (pane id, false)
split (split_pane a first second) target new_pane axis =
    let (first', found) = split first target new_pane axis in
    let (second', found') = split second target new_pane axis in
    if found then (split_pane a first' second, true) else (split_pane a first' second', found')

-- `expect` panics on `None`: the outer `none` is that panic.
abbrev pub Removal : Type 0
Removal = Option (Option PaneLayout × Bool)

-- The split that is left when the first branch held the target.
abbrev join_first : SplitAxis → Option PaneLayout → PaneLayout → PaneLayout
join_first a none second = second
join_first a (some first) second = split_pane a first second

abbrev join_second : SplitAxis → PaneLayout → Option PaneLayout → PaneLayout
join_second a first none = first
join_second a first (some second) = split_pane a first second

-- The code behind the second call, where the first branch is `first` again.
without_second : SplitAxis → PaneLayout → Removal → Removal
without_second a first none = none
without_second a first (some (second, true)) = some (some (join_second a first second), true)
without_second a first (some (none, false)) = none
without_second a first (some (some second, false)) = some (some (split_pane a first second), false)

without_split : SplitAxis → PaneLayout → Removal → Removal → Removal
unfolding without_second
without_split a second none later = none
without_split a second (some (first, true)) later = some (some (join_first a first second), true)
without_split a second (some (none, false)) later = none
without_split a second (some (some first, false)) later = without_second a first later

unfoldable pub without : PaneLayout → ℕ → Removal
unfolding without_split
without (pane id) target = some (if id == target then (none, true) else (some (pane id), false))
without (split_pane a first second) target =
    let later = without second target in without_split a second (without first target) later

unfoldable pub first_pane : PaneLayout → ℕ
first_pane (pane id) = id
first_pane (split_pane a first second) = first_pane first

unfoldable pub contains : PaneLayout → ℕ → Bool
contains (pane id) target = id == target
contains (split_pane a first second) target = contains first target || contains second target
