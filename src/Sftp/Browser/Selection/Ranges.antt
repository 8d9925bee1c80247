-- ===== src/Sftp/Browser/Selection/Ranges.antt =====
-- Which paths a click leaves selected.
use rem_cmd.Prelude.{
  ℕ, zero, suc, ◌+◌, ◌-◌, min, max, Bool, true, false, not, ◌&&◌, ◌||◌, Option, none, some, List,
  [], ◌∷◌, ◌++◌, ◌≡◌, refl, arith, map, if◌then◌else◌, any, ltb, leb, any-append, take, drop,
  Bool-cases, Option-cases, is_some, inl, inr, ◌∙◌, ap,
}
use rem_cmd.Prelude.Text.{Text, text_eq, text_eq_iff}
use rem_cmd.Sftp.Browser.{SftpBrowserState}
use rem_cmd.Sftp.Browser.Rows.{SftpTreeRow}
use rem_cmd.Sftp.Browser.Selection.{
  Modifiers, position, remove_at, push_new, between, anchor_index, select_at, select_path,
}

abbrev pub selects : List Text → Text → Bool
selects paths path = any (text_eq path) paths

abbrev pub is_distinct : List Text → Bool
is_distinct [] = true
is_distinct (path ∷ paths) = not (selects paths path) && is_distinct paths

pub text_eq_sym : (a b : Text) → text_eq a b ≡ text_eq b a
unfolding text_eq
text_eq_sym [] [] = refl
text_eq_sym [] (y ∷ b) = refl
text_eq_sym (x ∷ a) [] = refl
text_eq_sym (x ∷ a) (y ∷ b) = ground (arith, text_eq_sym a b)

is_distinct-snoc :
    (paths : List Text) (path : Text)
    → selects paths path ≡ false
    → is_distinct paths ≡ true
    → is_distinct (paths ++ path ∷ []) ≡ true
is_distinct-snoc [] path h d = refl
is_distinct-snoc (p ∷ ps) path h d =
    ground
      (arith, is_distinct-snoc ps path, any-append (text_eq p) ps (path ∷ []), text_eq_sym p path)

push_new-is_distinct :
    (selected paths : List Text)
    → is_distinct selected ≡ true
    → is_distinct (push_new selected paths) ≡ true
unfolding push_new
push_new-is_distinct selected [] d = d
push_new-is_distinct selected (p ∷ ps) d = elim (Bool-cases (selects selected p)) [
  | inl there ↦ rw there (push_new-is_distinct selected ps d)
  | inr fresh ↦
      rw fresh (push_new-is_distinct (selected ++ p ∷ []) ps (is_distinct-snoc selected p fresh d))
]

selects-remove_at :
    (paths : List Text) (i : ℕ) (q : Text)
    → selects paths q ≡ false
    → selects (remove_at paths i) q ≡ false
unfolding remove_at
selects-remove_at [] i q h = refl
selects-remove_at (p ∷ ps) zero q h = ground arith
selects-remove_at (p ∷ ps) (suc i) q h = ground (arith, selects-remove_at ps i q)

remove_at-is_distinct :
    (paths : List Text) (i : ℕ) → is_distinct paths ≡ true → is_distinct (remove_at paths i) ≡ true
unfolding remove_at
remove_at-is_distinct [] i d = refl
remove_at-is_distinct (p ∷ ps) zero d = ground arith
remove_at-is_distinct (p ∷ ps) (suc i) d =
    ground (arith, remove_at-is_distinct ps i, selects-remove_at ps i p)

-- A path has a position exactly if it is there.
is_some-position :
    (path : Text) (paths : List Text) → is_some (position path paths) ≡ selects paths path
unfolding position
is_some-position path [] = refl
is_some-position path (p ∷ ps) = ground (arith, is_some-position path ps, text_eq_sym p path)

selects_at_head :
    (path : Text) (p : Text) (ps : List Text) (q : Text)
    → p ≡ path
    → selects ps p ≡ false
    → selects ps q ≡ (not (text_eq q path) && selects (p ∷ ps) q)
selects_at_head path p ps q e h = elim (Bool-cases (text_eq q p)) [
  | inl same ↦ let s : q ≡ p = (text_eq_iff q p).0 same in rw (← e) (rw same (rw s h))
  | inr apart ↦ rw (← e) (rw apart)
]

-- `path` is gone from a distinct selection, the others are still there.
selects-position :
    (path : Text) (paths : List Text) (i : ℕ) (q : Text)
    → position path paths ≡ some i
    → is_distinct paths ≡ true
    → selects (remove_at paths i) q ≡ (not (text_eq q path) && selects paths q)
unfolding position remove_at
selects-position path [] i q h d = cc
selects-position path (p ∷ ps) i q h d = elim (Bool-cases (text_eq p path)) [
  | inl same ↦
      let e : p ≡ path = (text_eq_iff p path).0 same in
      let first : i ≡ 0 = ground arith in rw first (selects_at_head path p ps q e (ground arith))
  | inr apart ↦ elim (Option-cases (position path ps)) [
    | inl missing ↦ absurd (ground arith)
    | inr (j, found) ↦
        let later : i ≡ suc j = ground arith in
        let ih = selects-position path ps j q found (ground arith) in
        rw later (rw ih (keep_head path p q ps apart))
  ]
]
  where
    keep_head :
        (path p q : Text) (ps : List Text)
        → text_eq p path ≡ false
        → (text_eq q p || not (text_eq q path) && selects ps q)
          ≡ (not (text_eq q path) && (text_eq q p || selects ps q))
    keep_head path p q ps apart = elim (Bool-cases (text_eq q p)) [
      | inl same ↦ let s : q ≡ p = (text_eq_iff q p).0 same in rw s (rw apart)
      | inr other ↦ rw other
    ]

selects-push_new :
    (selected paths : List Text) (q : Text)
    → selects (push_new selected paths) q ≡ (selects selected q || selects paths q)
unfolding push_new
selects-push_new selected [] q = ground arith
selects-push_new selected (p ∷ ps) q = elim (Bool-cases (selects selected p)) [
  | inl there ↦ rw there (selects-push_new selected ps q ∙ absorb selected p ps q there)
  | inr fresh ↦ rw fresh (
      selects-push_new (selected ++ p ∷ []) ps q
      ∙ ground (arith, any-append (text_eq q) selected (p ∷ [])))
]
  where
    absorb :
        (selected : List Text) (p : Text) (ps : List Text) (q : Text)
        → selects selected p ≡ true
        → (selects selected q || selects ps q)
          ≡ (selects selected q || (text_eq q p || selects ps q))
    absorb selected p ps q there = elim (Bool-cases (text_eq q p)) [
      | inl same ↦ let s : q ≡ p = (text_eq_iff q p).0 same in rw s (rw there)
      | inr other ↦ rw other
    ]

-- An index between two others, in either order.
abbrev pub is_between : ℕ → ℕ → Option ℕ → Bool
is_between a b none = false
is_between a b (some i) = leb (min a b) i && leb i (max a b)

-- An index from `first` on, before `first + count`.
abbrev spans : ℕ → ℕ → Option ℕ → Bool
spans first count none = false
spans first count (some i) = leb first i && ltb i (first + count)

selects-take :
    (count : ℕ) (paths : List Text) (q : Text)
    → selects (take count paths) q ≡ spans 0 count (position q paths)
unfolding position
selects-take zero [] q = refl
selects-take (suc n) [] q = refl
selects-take zero (p ∷ ps) q = ground arith
selects-take (suc n) (p ∷ ps) q = ground (arith, selects-take n ps q, text_eq_sym p q)

selects-take-drop :
    (first count : ℕ) (paths : List Text) (q : Text)
    → is_distinct paths ≡ true
    → selects (take count (drop first paths)) q ≡ spans first count (position q paths)
unfolding position
selects-take-drop zero count paths q d = selects-take count paths q
selects-take-drop (suc m) count [] q d = selects-take count [] q
selects-take-drop (suc m) count (p ∷ ps) q d = elim (Bool-cases (text_eq p q)) [
  | inl same ↦
      let e : p ≡ q = (text_eq_iff p q).0 same in
      let gone : selects ps q ≡ false = rw (← e) (ground arith) in
      ground (arith, selects-take-drop m count ps q, is_some-position q ps)
  | inr other ↦ ground (arith, selects-take-drop m count ps q)
]

abbrev pub paths_of : List SftpTreeRow → List Text
paths_of = map (λ row. row.entry.path)

toggled-is_distinct :
    (path : Text) (paths : List Text) (o : Option ℕ)
    → position path paths ≡ o
    → is_distinct paths ≡ true
    → is_distinct (elim o [ some index ↦ remove_at paths index | none ↦ paths ++ path ∷ [] ]) ≡ true
toggled-is_distinct path paths (some i) e d = remove_at-is_distinct paths i d
toggled-is_distinct path paths none e d =
    is_distinct-snoc paths path (ground (arith, is_some-position path paths)) d

select_at-is_distinct :
    (s : SftpBrowserState) (path : Text) (modifiers : Modifiers) (visible : List Text) (clicked : ℕ)
    → is_distinct s.selected_paths ≡ true
    → is_distinct (select_at s path modifiers visible clicked).selected_paths ≡ true
unfolding select_at
select_at-is_distinct s path modifiers visible clicked d =
    let range =
      let anchored = anchor_index s.selection_anchor visible clicked in
      between (min anchored clicked) (max anchored clicked) visible in
    elim (Bool-cases modifiers.shift) [
      | inl shift ↦ rw shift (elim (Bool-cases modifiers.secondary) [
        | inl more ↦ rw more (push_new-is_distinct s.selected_paths range d)
        | inr only ↦ rw only (push_new-is_distinct [] range refl)
      ])
      | inr plain ↦ rw plain (elim (Bool-cases modifiers.secondary) [
        | inl more ↦ rw more (toggled-is_distinct path s.selected_paths _ refl d)
        | inr only ↦ rw only refl
      ])
    ]

span_between :
    (a b : ℕ) (o : Option ℕ) → spans (min a b) (suc (max a b) - min a b) o ≡ is_between a b o
span_between a b none = refl
span_between a b (some i) = ground arith

-- Every click, on a visible path or not, leaves no path selected twice.
pub select_path-is_distinct :
    (s : SftpBrowserState) (path : Text) (modifiers : Modifiers) (rows : List SftpTreeRow)
    → is_distinct s.selected_paths ≡ true
    → is_distinct (select_path s path modifiers rows).selected_paths ≡ true
unfolding select_path select_at
select_path-is_distinct s path modifiers rows d =
    elim (Option-cases (position path (paths_of rows))) [
      | inl hidden ↦ rw (hidden, select_path) d
      | inr (clicked, shown) ↦
          rw (shown, select_path) (select_at-is_distinct s path modifiers (paths_of rows) clicked d)
    ]

-- The selection with the path in it or out of it.
selects-toggled :
    (path : Text) (paths : List Text) (q : Text) (o : Option ℕ)
    → position path paths ≡ o
    → is_distinct paths ≡ true
    → selects (elim o [ some index ↦ remove_at paths index | none ↦ paths ++ path ∷ [] ]) q
      ≡ (if text_eq q path then not (selects paths q) else selects paths q)
selects-toggled path paths q (some i) e d = elim (Bool-cases (text_eq q path)) [
  | inl same ↦
      let s : q ≡ path = (text_eq_iff q path).0 same in
      ground (
        arith,
        selects-position path paths i q e d,
        is_some-position path paths,
        ap (selects paths) s,
      )
  | inr other ↦ ground (arith, selects-position path paths i q e d)
]
selects-toggled path paths q none e d = elim (Bool-cases (text_eq q path)) [
  | inl same ↦
      let s : q ≡ path = (text_eq_iff q path).0 same in
      ground (
        arith,
        any-append (text_eq q) paths (path ∷ []),
        is_some-position path paths,
        ap (selects paths) s,
      )
  | inr other ↦ ground (arith, any-append (text_eq q) paths (path ∷ []))
]

-- A click with the key for a further selection selects a visible path that was not selected, or drops
-- it if it was, and every other path stays as it is, if no path is selected twice.
pub select_path-toggle :
    (s : SftpBrowserState) (path : Text) (modifiers : Modifiers) (rows : List SftpTreeRow)
    (q : Text)
    → selects (paths_of rows) path ≡ true
    → modifiers.shift ≡ false
    → modifiers.secondary ≡ true
    → is_distinct s.selected_paths ≡ true
    → selects (select_path s path modifiers rows).selected_paths q
      ≡ (if text_eq q path then not (selects s.selected_paths q) else selects s.selected_paths q)
unfolding select_path select_at
select_path-toggle s path modifiers rows q v h k d =
    elim (Option-cases (position path (paths_of rows))) [
      | inl hidden ↦ absurd (ground (arith, is_some-position path (paths_of rows)))
      | inr (clicked, shown) ↦
          rw (shown, select_path) (rw h (rw k (selects-toggled path s.selected_paths q _ refl d)))
    ]

-- The range from the index that the code takes.
range_from :
    (s : SftpBrowserState) (path : Text) (modifiers : Modifiers) (rows : List SftpTreeRow)
    (clicked : ℕ) (q : Text)
    → position path (paths_of rows) ≡ some clicked
    → modifiers.shift ≡ true
    → is_distinct (paths_of rows) ≡ true
    → selects (select_path s path modifiers rows).selected_paths q ≡ (
        (modifiers.secondary && selects s.selected_paths q)
        || is_between
            (anchor_index s.selection_anchor (paths_of rows) clicked)
            clicked
            (position q (paths_of rows)))
unfolding select_path select_at
range_from s path modifiers rows clicked q v h d =
    rw (v, select_path)
      (rw h (
        selects-push_new (if modifiers.secondary then s.selected_paths else []) _ q
        ∙ range_of modifiers.secondary (anchor_index s.selection_anchor (paths_of rows) clicked)))
  where
    range_of :
        (more : Bool) (anchor : ℕ)
        → (selects (if more then s.selected_paths else []) q
            || selects (between (min anchor clicked) (max anchor clicked) (paths_of rows)) q)
          ≡ ((more && selects s.selected_paths q)
              || is_between anchor clicked (position q (paths_of rows)))
    range_of more anchor = ground (
      arith,
      span_between anchor clicked (position q (paths_of rows)),
      selects-take-drop (min anchor clicked) (suc (max anchor clicked) - min anchor clicked)
          (paths_of rows) q d,
    )

-- Where a range starts, the path clicked being at `clicked`.
pub data StartsAt (anchor : Option Text) (visible : List Text) (clicked : ℕ) : ℕ → Type 0 where
  visible_anchor :
      (path : Text) (i : ℕ)
      → anchor ≡ some path
      → position path visible ≡ some i
      → StartsAt anchor visible clicked i
  hidden_anchor :
      (path : Text)
      → anchor ≡ some path
      → selects visible path ≡ false
      → StartsAt anchor visible clicked clicked
  no_anchor : anchor ≡ none → StartsAt anchor visible clicked clicked

anchor_index-StartsAt :
    {anchor : Option Text} {visible : List Text} {clicked start : ℕ}
    → StartsAt anchor visible clicked start
    → anchor_index anchor visible clicked ≡ start
anchor_index-StartsAt (visible_anchor path i a shown) = rw (a, shown) refl
anchor_index-StartsAt {visible = visible} (hidden_anchor path a hidden) =
    let missing : position path visible ≡ none = ground (arith, is_some-position path visible) in
    rw (a, missing) refl
anchor_index-StartsAt (no_anchor a) = rw a refl

-- If the visible paths are different, a click with shift selects exactly the paths from the start to
-- the one clicked, in either order, and keeps the others only if the key for a further selection is
-- held too. The start is the anchor if it is visible, and the path clicked if it is not or if there
-- is none.
pub select_path-range :
    (s : SftpBrowserState) (path : Text) (modifiers : Modifiers) (rows : List SftpTreeRow)
    (clicked start : ℕ) (q : Text)
    → position path (paths_of rows) ≡ some clicked
    → StartsAt s.selection_anchor (paths_of rows) clicked start
    → modifiers.shift ≡ true
    → is_distinct (paths_of rows) ≡ true
    → selects (select_path s path modifiers rows).selected_paths q ≡ (
        (modifiers.secondary && selects s.selected_paths q)
        || is_between start clicked (position q (paths_of rows)))
select_path-range s path modifiers rows clicked start q v a h d =
    range_from s path modifiers rows clicked q v h d
    ∙ ap
        (λ i.
          (modifiers.secondary && selects s.selected_paths q)
          || is_between i clicked (position q (paths_of rows)))
        (anchor_index-StartsAt a)
