-- ===== src/TextEdit/Offsets.antt =====
-- The two conversions of offsets, and the boundaries around one.
use rem_cmd.Prelude.{
  ℕ, ◌+◌, ◌≤◌, ◌<◌, Bool, true, false, ◌&&◌, none, some, List, [], ◌∷◌, ◌++◌, ◌≡◌, refl, arith, ltb,
  leb, Bool-cases, inl, inr, ◌∙◌, ap,
}
use rem_cmd.Prelude.Text.{Text}
use rem_cmd.TextEdit.{
  len_utf8, len_utf16, walk, offset_from_utf16, offset_to_utf16, units, last_below, first_above,
  previous_boundary, next_boundary,
}

module _ (size other : ℕ → ℕ) where
  -- A walk ends between two characters, with the units of those before it.
  record Stops (text : Text) (to stop : ℕ) : Type 0 where
    before : Text
    after : Text
    whole : text ≡ before ++ after
    here : stop ≡ to + units other before

  walk-Stops :
      (text : Text) (offset from to : ℕ) → Stops text to (walk size other text offset from to)
  unfolding walk units
  walk-Stops [] offset from to = record {
    before = [];
    after = [];
    whole = refl;
    here = omega arith;
  }
  walk-Stops (c ∷ s) offset from to = elim (Bool-cases (leb offset from)) [
    | inl reached ↦
        rw (reached, walk) (record { before = []; after = c ∷ s; whole = refl; here = omega arith })
    | inr short ↦
        let rest = walk-Stops s offset (from + size c) (to + other c) in
        rw (short, walk)
          (record {
            before = c ∷ rest.before;
            after = rest.after;
            whole = ap (c ∷◌) rest.whole;
            here = omega (arith, rest.here);
          })
  ]

  -- If every character has a unit, an offset between two characters is met there.
  walk-append :
      ((c : ℕ) → 1 ≤ size c)
      → (before after : Text) (from to : ℕ)
      → walk size other (before ++ after) (from + units size before) from to
        ≡ to + units other before
  unfolding walk units
  walk-append positive [] [] from to = omega arith
  walk-append positive [] (c ∷ s) from to = ground arith
  walk-append positive (c ∷ before) after from to =
      let some_unit = positive c in
      let ih = walk-append positive before after (from + size c) (to + other c) in
      let u = units size before in
      let same : from + (size c + u) ≡ from + size c + u = omega arith in
      let far : leb (from + (size c + u)) from ≡ false = ground arith in
      rw (far, walk) (rw same (ih ∙ omega arith))

  walk_at :
      ((c : ℕ) → 1 ≤ size c)
      → (before after : Text)
      → walk size other (before ++ after) (units size before) 0 0 ≡ units other before
  walk_at positive before after =
      let met = walk-append positive before after 0 0 in
      let plain : (n : ℕ) → 0 + n ≡ n = λ n. omega arith in simp plain at met

utf8_positive : (c : ℕ) → 1 ≤ len_utf8 c
utf8_positive c = ground arith

utf16_positive : (c : ℕ) → 1 ≤ len_utf16 c
utf16_positive c = ground arith

-- Between any two characters of a text, and at its ends, the two conversions undo each other: the
-- bytes before become the UTF-16 units before and back, and the units the bytes and back.
pub offset_from-to_utf16 :
    (before after : Text)
    → (offset_from_utf16
          (before ++ after)
          (offset_to_utf16 (before ++ after) (units len_utf8 before))
        ≡ units len_utf8 before)
      × (offset_to_utf16
            (before ++ after)
            (offset_from_utf16 (before ++ after) (units len_utf16 before))
          ≡ units len_utf16 before)
unfolding offset_from_utf16 offset_to_utf16
offset_from-to_utf16 before after =
    let to = walk_at len_utf8 len_utf16 utf8_positive before after in
    let from = walk_at len_utf16 len_utf8 utf16_positive before after in
    (rw (to, offset_to_utf16) from, rw (from, offset_from_utf16) to)

-- For every offset, one inside of a character or past the end included, the conversion from UTF-16
-- returns a place between two characters, where the text can be cut.
pub offset_from_utf16-IsCut :
    (text : Text) (offset : ℕ)
    → (before : Text) × (after : Text) × (text ≡ before ++ after)
      × (offset_from_utf16 text offset ≡ units len_utf8 before)
unfolding offset_from_utf16
offset_from_utf16-IsCut text offset =
    let stops = walk-Stops len_utf16 len_utf8 text offset 0 0 in
    (stops.before, stops.after, stops.whole, omega (arith, stops.here))

abbrev pub is_ascending : List ℕ → Bool
is_ascending [] = true
is_ascending (x ∷ []) = true
is_ascending (x ∷ (y ∷ ys)) = ltb x y && is_ascending (y ∷ ys)

ascending-lt :
    (x : ℕ) (before : List ℕ) (a : ℕ) (after : List ℕ)
    → is_ascending (x ∷ (before ++ a ∷ after)) ≡ true
    → x < a
ascending-lt x [] a after h = ground arith
ascending-lt x (y ∷ before) a after h = ground (arith, ascending-lt y before a after)

ascending-tail : (x : ℕ) (xs : List ℕ) → is_ascending (x ∷ xs) ≡ true → is_ascending xs ≡ true
ascending-tail x [] h = refl
ascending-tail x (y ∷ ys) h = ground arith

first_above-next :
    (before : List ℕ) (a b : ℕ) (after : List ℕ)
    → is_ascending (before ++ a ∷ b ∷ after) ≡ true
    → first_above (before ++ a ∷ b ∷ after) a ≡ some b
unfolding first_above
first_above-next [] a b after h = ground arith
first_above-next (x ∷ before) a b after h =
    let lower = ascending-lt x before a (b ∷ after) h in
    let ih = first_above-next before a b after (ascending-tail x (before ++ a ∷ b ∷ after) h) in
    ground arith

-- Nothing from there on is below the first index.
last_below-none :
    (bound first : ℕ) (rest : List ℕ)
    → bound ≤ first
    → is_ascending (first ∷ rest) ≡ true
    → last_below (first ∷ rest) bound ≡ none
unfolding last_below
last_below-none bound first [] l h = ground arith
last_below-none bound first (x ∷ rest) l h =
    let ih = last_below-none bound x rest (ground arith) (ground arith) in
    rw (ih, last_below) (ground arith)

last_below-previous :
    (before : List ℕ) (a b : ℕ) (after : List ℕ)
    → is_ascending (before ++ a ∷ b ∷ after) ≡ true
    → last_below (before ++ a ∷ b ∷ after) b ≡ some a
unfolding last_below
last_below-previous [] a b after h =
    let none_left = last_below-none b b after (omega arith) (ground arith) in
    rw (none_left, last_below) (ground arith)
last_below-previous (x ∷ before) a b after h =
    let ih = last_below-previous before a b after (ascending-tail x (before ++ a ∷ b ∷ after) h) in
    rw (ih, last_below)

-- If the crate lists the starts of the clusters of a text in their order, the cursor moves from the
-- start of one to the start of the next one, and back.
pub boundary_steps :
    (grapheme_indices : Text → List ℕ) (text : Text) (before : List ℕ) (a b : ℕ) (after : List ℕ)
    → is_ascending (grapheme_indices text) ≡ true
    → grapheme_indices text ≡ before ++ a ∷ b ∷ after
    → (next_boundary grapheme_indices text a ≡ b) × (previous_boundary grapheme_indices text b ≡ a)
unfolding next_boundary previous_boundary
boundary_steps grapheme_indices text before a b after h e =
    let h' = rw e at h in
    (
      rw (e, next_boundary) (rw (first_above-next before a b after h')),
      rw (e, previous_boundary) (rw (last_below-previous before a b after h')),
    )
