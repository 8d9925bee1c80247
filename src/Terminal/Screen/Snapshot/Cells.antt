-- ===== src/Terminal/Screen/Snapshot/Cells.antt =====
-- A snapshot whose cells fill its grid.
use rem_cmd.Prelude.{
  ℕ, zero, suc, ◌+◌, ◌-◌, ◌*◌, ◌≤◌, ◌<◌, true, false, ◌||◌, Option, none, some, is_some, List, [],
  ◌∷◌, if◌then◌else◌, ◌==◌, leb, get_elem?, length, take, drop, sym, ap, ◌∙◌, ◌≡◌, refl, ◌↔◌, arith,
  Bool-cases, inl, inr,
}
use rem_cmd.Prelude.Text.{Text}
use rem_cmd.Terminal.Screen.{TerminalCell, TerminalSelection, is_empty_selection, ordered}
use rem_cmd.Terminal.Screen.Snapshot.{
  TerminalSnapshot, cell, row_text, selected_text, text_between, text_of_cells,
}

abbrev pub IsGrid : TerminalSnapshot → Type 0
IsGrid s = length s.cells ≡ s.size.rows * s.size.columns

get_elem?-lt : (xs : List TerminalCell) (i : ℕ) → i < length xs → is_some (get_elem? xs i) ≡ true
get_elem?-lt [] i h = absurd (omega arith)
get_elem?-lt (x ∷ xs) zero h = refl
get_elem?-lt (x ∷ xs) (suc i) h = get_elem?-lt xs i (omega arith)

in_grid : (r c w h : ℕ) → r < h → c < w → r * w + c < h * w
in_grid r c w h p q = grind arith

-- In a snapshot with a cell for each position of its size, a cell is found exactly at those
-- positions.
pub cell_iff :
    (s : TerminalSnapshot) (row column : ℕ)
    → IsGrid s
    → (is_some (cell s row column) ≡ true) ↔ ((row < s.size.rows) × (column < s.size.columns))
unfolding cell
cell_iff s row column g = (
  λ h. (ground arith, ground arith),
  λ (r, c). ground (
    arith,
    get_elem?-lt s.cells (row * s.size.columns + column),
    in_grid row column s.size.columns s.size.rows r c,
  ),
)

row_end : (r w h : ℕ) → r < h → r * w + w ≤ h * w
row_end r w h p = grind arith

-- In a snapshot with a cell for each position of its size, the slice of a row never goes out of
-- bounds, and a text is returned exactly for the rows of the size.
pub row_text-total :
    (s : TerminalSnapshot) (row : ℕ)
    → IsGrid s
    → (r : Option Text) × (row_text s row ≡ some r) × ((is_some r ≡ true) ↔ (row < s.size.rows))
unfolding row_text
row_text-total s row g = elim (Bool-cases (leb s.size.rows row)) [
  | inl outside ↦ (none, ground arith, ground arith)
  | inr inside ↦
      let start = row * s.size.columns in
      (
        some (text_of_cells (take (start + s.size.columns - start) (drop start s.cells))),
        ground (arith, row_end row s.size.columns s.size.rows (ground arith)),
        ground arith,
      )
]

-- The same selection, dragged the other way.
abbrev pub swap : TerminalSelection → TerminalSelection
swap s = record { anchor = s.head; head = s.anchor }

is_empty_swap : (s : TerminalSelection) → is_empty_selection (swap s) ≡ is_empty_selection s
unfolding is_empty_selection
is_empty_swap s = ground arith

ordered-swap : (s : TerminalSelection) → is_empty_selection s ≡ false → ordered (swap s) ≡ ordered s
unfolding is_empty_selection ordered
ordered-swap s h = ground arith

-- The text of a selection is the same with its two points exchanged.
pub selected_text-swap :
    (s : TerminalSnapshot) (selection : TerminalSelection)
    → selected_text s (swap selection) ≡ selected_text s selection
unfolding selected_text
selected_text-swap s selection = elim (Bool-cases (is_empty_selection selection)) [
  | inl empty ↦
      let swapped = is_empty_swap selection ∙ empty in
      ap (λ e. if e || s.size.rows == 0 then [] else text_between s (ordered (swap selection)))
        swapped
      ∙ ap (λ e. if e || s.size.rows == 0 then [] else text_between s (ordered selection))
          (sym empty)
  | inr full ↦
      ap (λ e. if e || s.size.rows == 0 then [] else text_between s (ordered (swap selection)))
        (is_empty_swap selection)
      ∙ ap (λ o. if is_empty_selection selection || s.size.rows == 0 then [] else text_between s o)
          (ordered-swap selection full)
]
