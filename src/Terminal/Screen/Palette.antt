-- ===== src/Terminal/Screen/Palette.antt =====
-- The palette's laws, and the range of the named colours.
use rem_cmd.Prelude.{
  ℕ, ◌≤◌, ◌<◌, Option, none, ◌≡◌, ◌≢◌, sym, subst, ◌∙◌, arith, ◌==◌, if◌then◌else◌, length,
  length-set, get_elem?-set_self, get_elem?-set_ne, get_elem?-ge, set, inl, inr, Bool-cases, ==_iff,
  ltb, ◌&&◌,
}
use rem_cmd.Terminal.Screen.{
  NamedColor, palette_index, palette_size, Rgb, PaletteOverrides, get_color, set_color, black,
}

-- An array of the palette's size.
abbrev pub IsPalette : PaletteOverrides → Type 0
IsPalette p = length p.colors ≡ palette_size

set_color_self :
    (p : PaletteOverrides) (i : ℕ) (c : Option Rgb)
    → IsPalette p
    → i < palette_size
    → get_color (set_color p i c) i ≡ c
unfolding get_color set_color
set_color_self p i c h k = rw (get_elem?-set_self p.colors i c (omega arith))

set_color-outside :
    (p : PaletteOverrides) (i : ℕ) (c : Option Rgb)
    → IsPalette p
    → palette_size ≤ i
    → get_color (set_color p i c) i ≡ none
unfolding get_color set_color
set_color-outside p i c h k =
    rw (get_elem?-ge (set p.colors i c) i (omega (arith, length-set p.colors i c)))

set_color-other :
    (p : PaletteOverrides) (i j : ℕ) (c : Option Rgb)
    → i ≢ j
    → get_color (set_color p i c) j ≡ get_color p j
unfolding get_color set_color
set_color-other p i j c h = rw (get_elem?-set_ne p.colors c h)

get_color-outside :
    (p : PaletteOverrides) (i : ℕ) → IsPalette p → palette_size ≤ i → get_color p i ≡ none
unfolding get_color
get_color-outside p i h k = rw (get_elem?-ge p.colors i (omega arith))

set_color-IsPalette :
    (p : PaletteOverrides) (i : ℕ) (c : Option Rgb) → IsPalette p → IsPalette (set_color p i c)
unfolding set_color
set_color-IsPalette p i c h = omega (arith, length-set p.colors i c)

-- In a palette of 269 slots a write is seen at its index if that is in range, no other index sees
-- it, and the palette keeps its size.
pub get-set_color :
    (p : PaletteOverrides) (i j : ℕ) (c : Option Rgb)
    → IsPalette p
    → (get_color (set_color p i c) j ≡ (if i == j && ltb i palette_size then c else get_color p j))
      × IsPalette (set_color p i c)
get-set_color p i j c h = (
  elim (Bool-cases (i == j)) [
    | inr apart ↦ let ne : i ≢ j = ground arith in rw apart (set_color-other p i j c ne)
    | inl same ↦ elim (Bool-cases (ltb i palette_size)) [
      | inl inside ↦
          rw (same, inside)
            (subst (λ k. get_color (set_color p i c) k ≡ c) ((==_iff i j).0 same)
              (set_color_self p i c h (ground arith)))
      | inr outside ↦
          rw (same, outside)
            (subst (λ k. get_color (set_color p i c) k ≡ get_color p k) ((==_iff i j).0 same)
              (set_color-outside p i c h (ground arith)
                ∙ sym (get_color-outside p i h (ground arith))))
    ]
  ],
  set_color-IsPalette p i c h,
)

-- Every named colour has a slot, and no two share one.
pub palette_index-lt : (c : NamedColor) → palette_index c < palette_size
unfolding palette_index
palette_index-lt black = omega arith
palette_index-lt _ = omega arith

pub palette_index-injective : (c d : NamedColor) → palette_index c ≡ palette_index d → c ≡ d
unfolding palette_index
palette_index-injective c d h = ground arith
