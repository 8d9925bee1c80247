-- ===== src/Pane/Leaves.antt =====
-- A layout read as the list of its panes, left to right: what each operation does to that list.
use rem_cmd.Prelude.{
  ℕ, ◌≡◌, refl, ap, Bool, true, false, not, ◌||◌, ◌&&◌, List, [], ◌∷◌, ◌++◌, if◌then◌else◌, ◌==◌,
  arith,
}
use rem_cmd.Pane.{SplitAxis, PaneLayout, pane, split_pane, split, first_pane, contains}

unfoldable pub panes : PaneLayout → List ℕ
panes (pane id) = id ∷ []
panes (split_pane a first second) = panes first ++ panes second

abbrev pub mem : ℕ → List ℕ → Bool
mem x [] = false
mem x (y ∷ ys) = y == x || mem x ys

-- `new` behind the first `target`.
abbrev pub insert_after : ℕ → ℕ → List ℕ → List ℕ
insert_after target new [] = []
insert_after target new (y ∷ ys) =
    if y == target then y ∷ new ∷ ys else y ∷ insert_after target new ys

-- The list with the first `target` taken out.
abbrev pub erase : ℕ → List ℕ → List ℕ
erase target [] = []
erase target (y ∷ ys) = if y == target then ys else y ∷ erase target ys

pub mem-append : (x : ℕ) (xs ys : List ℕ) → mem x (xs ++ ys) ≡ (mem x xs || mem x ys)
mem-append x [] ys = refl
mem-append x (z ∷ xs) ys = ground (arith, mem-append x xs ys)

insert_after-append :
    (t n : ℕ) (xs ys : List ℕ)
    → insert_after t n (xs ++ ys)
      ≡ (if mem t xs then insert_after t n xs ++ ys else xs ++ insert_after t n ys)
insert_after-append t n [] ys = refl
insert_after-append t n (z ∷ xs) ys = ground (arith, insert_after-append t n xs ys)

pub erase-append :
    (t : ℕ) (xs ys : List ℕ)
    → erase t (xs ++ ys) ≡ (if mem t xs then erase t xs ++ ys else xs ++ erase t ys)
erase-append t [] ys = refl
erase-append t (z ∷ xs) ys = ground (arith, erase-append t xs ys)

pub contains-mem : (l : PaneLayout) (t : ℕ) → contains l t ≡ mem t (panes l)
unfolding contains panes
contains-mem (pane id) t = ground arith
contains-mem (split_pane a f s) t =
    ground (arith, contains-mem f t, contains-mem s t, mem-append t (panes f) (panes s))

pub split_found :
    (l : PaneLayout) (t n : ℕ) (axis : SplitAxis) → (split l t n axis).1 ≡ mem t (panes l)
unfolding split panes
split_found (pane id) t n axis = ground arith
split_found (split_pane a f s) t n axis =
    ground (arith, split_found f t n axis, split_found s t n axis, mem-append t (panes f) (panes s))

pub split_absent :
    (l : PaneLayout) (t n : ℕ) (axis : SplitAxis)
    → mem t (panes l) ≡ false
    → split l t n axis ≡ (l, false)
unfolding split panes
split_absent (pane id) t n axis h = ground arith
split_absent (split_pane a f s) t n axis h =
    ground
      (arith, split_absent f t n axis, split_absent s t n axis, mem-append t (panes f) (panes s))

-- The panes of a layout after a split are those before it, with the new pane behind the one that
-- was split, and the same panes if that one is not there.
pub panes-split :
    (l : PaneLayout) (t n : ℕ) (axis : SplitAxis)
    → panes (split l t n axis).0 ≡ insert_after t n (panes l)
unfolding split panes
panes-split (pane id) t n axis = ground arith
panes-split (split_pane a f s) t n axis = ground (
  arith,
  split_found f t n axis,
  split_absent f t n axis,
  panes-split f t n axis,
  panes-split s t n axis,
  insert_after-append t n (panes f) (panes s),
)

-- No pane appears twice.
abbrev pub distinct : List ℕ → Bool
distinct [] = true
distinct (x ∷ xs) = not (mem x xs) && distinct xs

mem-erase : (x t : ℕ) (xs : List ℕ) → mem x (erase t xs) ≡ true → mem x xs ≡ true
mem-erase x t [] h = h
mem-erase x t (y ∷ ys) h = ground (arith, mem-erase x t ys)

pub distinct-erase :
    (t : ℕ) (xs : List ℕ)
    → distinct xs ≡ true
    → (distinct (erase t xs) ≡ true) × (mem t (erase t xs) ≡ false)
distinct-erase t [] h = (refl, refl)
distinct-erase t (y ∷ ys) h = ground (arith, distinct-erase t ys, mem-erase y t ys)

mem-insert_after :
    (x t n : ℕ) (xs : List ℕ) → mem x (insert_after t n xs) ≡ (mem x xs || (mem t xs && n == x))
mem-insert_after x t n [] = refl
mem-insert_after x t n (y ∷ ys) = ground (arith, mem-insert_after x t n ys)

distinct-insert_after :
    (t n : ℕ) (xs : List ℕ)
    → distinct xs ≡ true
    → mem n xs ≡ false
    → distinct (insert_after t n xs) ≡ true
distinct-insert_after t n [] d h = refl
distinct-insert_after t n (y ∷ ys) d h =
    ground (arith, distinct-insert_after t n ys, mem-insert_after y t n ys)

-- Splitting off a pane that the layout does not hold keeps distinct panes distinct.
pub split-distinct :
    (l : PaneLayout) (t n : ℕ) (axis : SplitAxis)
    → distinct (panes l) ≡ true
    → contains l n ≡ false
    → distinct (panes (split l t n axis).0) ≡ true
split-distinct l t n axis d h =
    rw panes-split (distinct-insert_after t n (panes l) d (rw contains-mem at h))

-- The first pane of a layout is the first in its list.
pub first_pane-head : (l : PaneLayout) → (rest : List ℕ) × (panes l ≡ first_pane l ∷ rest)
unfolding panes first_pane
first_pane-head (pane id) = ([], refl)
first_pane-head (split_pane a f s) =
    let (rest, e) = first_pane-head f in (rest ++ panes s, ap (◌++ panes s) e)
