-- ===== src/Sftp/Browser/Deletion/Removed.antt =====
-- What a deletion leaves in the browser.
use rem_cmd.Prelude.{
  ℕ, zero, suc, Bool, true, false, none, some, List, [], ◌∷◌, ◌++◌, ◌≡◌, refl, arith, map, any, ap,
  not, ◌&&◌, retain, All, All-append, find, map_get, Bool-cases, Option-cases, inl, inr,
}
use rem_cmd.Prelude.Text.{Text, text_eq, text_eq_iff}
use rem_cmd.Ssh.RemoteFiles.{RemoteFileEntry}
use rem_cmd.Sftp.Browser.{SftpBrowserState}
use rem_cmd.Sftp.Browser.Rows.{SftpTreeRow, row_at, or_empty, children, tree_rows, visible_rows}
use rem_cmd.Sftp.Browser.Selection.{flatten, entry, filter_entries, selected_entries}
use rem_cmd.Sftp.Browser.Deletion.{is_deleted, keep_entries, keep_keys, keep_listings, remove_paths}

module _ (paths : List Text) where
  abbrev pub IsKept : RemoteFileEntry → Type 0
  IsKept entry = is_deleted paths entry.path ≡ false

  abbrev pub IsKeptRow : SftpTreeRow → Type 0
  IsKeptRow row = IsKept row.entry

  keep_entries-IsKept : (entries : List RemoteFileEntry) → All IsKept (keep_entries paths entries)
  keep_entries-IsKept [] = tt
  keep_entries-IsKept (e ∷ es) = elim (Bool-cases (is_deleted paths e.path)) [
    | inl gone ↦ rw gone (keep_entries-IsKept es)
    | inr kept ↦ rw kept (kept, keep_entries-IsKept es)
  ]

  listed-IsKept :
      (tree : List (Text × List RemoteFileEntry)) (path : Text)
      → All IsKept (or_empty (map_get text_eq path (keep_listings paths tree)))
  listed-IsKept [] path = tt
  listed-IsKept ((key, entries) ∷ tree) path = elim (Bool-cases (text_eq path key)) [
    | inl same ↦ rw same (keep_entries-IsKept entries)
    | inr other ↦ rw other (listed-IsKept tree path)
  ]

  flatten-IsKept :
      (tree : List (Text × List RemoteFileEntry)) → All IsKept (flatten (keep_listings paths tree))
  flatten-IsKept [] = tt
  flatten-IsKept ((key, entries) ∷ tree) =
      All-append IsKept _ (keep_entries-IsKept entries) _ (flatten-IsKept tree)

  rows_at-IsKept :
      (depth : ℕ) (entries : List RemoteFileEntry)
      → All IsKept entries
      → All IsKeptRow (map (row_at depth) entries)
  rows_at-IsKept depth [] h = tt
  rows_at-IsKept depth (e ∷ es) h = (h.0, rows_at-IsKept depth es h.1)

  children-IsKept :
      (s : SftpBrowserState) (path : Text) → All IsKept (children (remove_paths s paths) path)
  unfolding children remove_paths
  children-IsKept s path = elim (Bool-cases (any (text_eq path) s.expanded_paths)) [
    | inl shown ↦ rw shown (listed-IsKept (keep_keys paths s.tree_entries) path)
    | inr hidden ↦ rw hidden tt
  ]

  tree_rows-IsKept :
      (s : SftpBrowserState) (fuel : ℕ) (pending rows : List SftpTreeRow)
      → All IsKeptRow pending
      → tree_rows (remove_paths s paths) fuel pending ≡ some rows
      → All IsKeptRow rows
  unfolding tree_rows
  tree_rows-IsKept s fuel [] rows h e = let ended : rows ≡ [] = ground arith in rw ended tt
  tree_rows-IsKept s zero (row ∷ pending) rows h e = cc
  tree_rows-IsKept s (suc fuel) (row ∷ pending) rows h e =
      let pushed = map (row_at (suc row.depth)) (children (remove_paths s paths) row.entry.path) in
      elim (Option-cases (tree_rows (remove_paths s paths) fuel (pushed ++ pending))) [
        | inl stuck ↦ absurd (ground arith)
        | inr (later, walked) ↦
            let split_off : rows ≡ row ∷ later = ground arith in
            let below = rows_at-IsKept (suc row.depth) _ (children-IsKept s row.entry.path) in
            rw split_off (
              h.0,
              tree_rows-IsKept s fuel (pushed ++ pending) later
                  (All-append IsKeptRow pushed below pending h.1) walked,
            )
      ]

  find-IsKept :
      (entries : List RemoteFileEntry) (path : Text)
      → All IsKept entries
      → is_deleted paths path ≡ true
      → find (λ entry. text_eq entry.path path) entries ≡ none
  find-IsKept [] path h d = refl
  find-IsKept (e ∷ es) path h d = elim (Bool-cases (text_eq e.path path)) [
    | inl same ↦
        let e' : e.path ≡ path = (text_eq_iff e.path path).0 same in
        absurd (ground (arith, h.0, ap (is_deleted paths) e'))
    | inr other ↦ rw other (find-IsKept es path h.1 d)
  ]

  found-IsKept :
      (entries : List RemoteFileEntry) (path : Text) (e : RemoteFileEntry)
      → All IsKept entries
      → find (λ entry. text_eq entry.path path) entries ≡ some e
      → IsKept e
  found-IsKept [] path e h f = cc
  found-IsKept (x ∷ xs) path e h f = elim (Bool-cases (text_eq x.path path)) [
    | inl same ↦ let first : x ≡ e = ground arith in rw (← first) h.0
    | inr other ↦ found-IsKept xs path e h.1 (ground arith)
  ]

  known-IsKept :
      (s : SftpBrowserState)
      → All IsKept (
          keep_entries paths s.entries
          ++ flatten (keep_listings paths (keep_keys paths s.tree_entries)))
  known-IsKept s =
      All-append IsKept _ (keep_entries-IsKept s.entries) _
        (flatten-IsKept (keep_keys paths s.tree_entries))

  entry-IsKept :
      (t : SftpBrowserState) (path : Text) (e : RemoteFileEntry)
      → All IsKept (t.entries ++ flatten t.tree_entries)
      → entry t path ≡ some e
      → IsKept e
  unfolding entry
  entry-IsKept t path e known found = found-IsKept _ path e known found

  filter_entries-IsKept :
      (t : SftpBrowserState) (selected : List Text)
      → All IsKept (t.entries ++ flatten t.tree_entries)
      → All IsKept (filter_entries t selected)
  filter_entries-IsKept t [] known = tt
  filter_entries-IsKept t (path ∷ selected) known = elim (Option-cases (entry t path)) [
    | inl missing ↦ rw (missing, filter_entries) (filter_entries-IsKept t selected known)
    | inr (e, found) ↦
        rw (found, filter_entries)
          (entry-IsKept t path e known found, filter_entries-IsKept t selected known)
  ]

  visible_rows-IsKept :
      (s : SftpBrowserState) (tree : Bool) (rows : List SftpTreeRow)
      → visible_rows (remove_paths s paths) tree ≡ some rows
      → All IsKeptRow rows
  unfolding visible_rows remove_paths
  visible_rows-IsKept s true rows e =
      tree_rows-IsKept s _ _ rows (rows_at-IsKept 0 _ (keep_entries-IsKept s.entries)) e
  visible_rows-IsKept s false rows e =
      let listed : map (row_at 0) (keep_entries paths s.entries) ≡ rows = ground arith in
      rw (← listed) (rows_at-IsKept 0 _ (keep_entries-IsKept s.entries))

  -- A path that is given is deleted, and no path appears.
  selects-retain :
      (selected : List Text) (q : Text)
      → any (text_eq q) (retain (λ path. not (any (text_eq path) paths)) selected)
        ≡ (any (text_eq q) selected && not (any (text_eq q) paths))
  selects-retain [] q = refl
  selects-retain (path ∷ selected) q = elim (Bool-cases (text_eq q path)) [
    | inl same ↦
        let e : q ≡ path = (text_eq_iff q path).0 same in
        elim (Bool-cases (any (text_eq path) paths)) [
          | inl gone ↦
              let gone' : any (text_eq q) paths ≡ true = rw e gone in
              rw (gone, same, gone') (ground (arith, selects-retain selected q))
          | inr kept ↦
              let kept' : any (text_eq q) paths ≡ false = rw e kept in rw (kept, same, kept') refl
        ]
    | inr other ↦ elim (Bool-cases (any (text_eq path) paths)) [
      | inl gone ↦ rw (gone, other) (selects-retain selected q)
      | inr kept ↦ rw (kept, other) (selects-retain selected q)
    ]
  ]

  -- After the paths are deleted, no row that the browser shows, in the tree or in the list, and no
  -- entry of the selection is one of them or lies below one, and no entry of such a path is found. Of
  -- the selected paths exactly the deleted ones themselves are dropped: one that lies below a deleted
  -- path stays in the list, without an entry.
  pub remove_paths-IsKept :
      (s : SftpBrowserState) (tree : Bool) (rows : List SftpTreeRow) (path q : Text)
      → visible_rows (remove_paths s paths) tree ≡ some rows
      → is_deleted paths path ≡ true
      → All IsKeptRow rows
        × All IsKept (selected_entries (remove_paths s paths))
        × (entry (remove_paths s paths) path ≡ none)
        × (any (text_eq q) (remove_paths s paths).selected_paths
            ≡ (any (text_eq q) s.selected_paths && not (any (text_eq q) paths)))
  unfolding remove_paths selected_entries entry
  remove_paths-IsKept s tree rows path q e d = (
    visible_rows-IsKept s tree rows e,
    filter_entries-IsKept (remove_paths s paths) (remove_paths s paths).selected_paths
        (known-IsKept s),
    find-IsKept _ path (known-IsKept s) d,
    selects-retain s.selected_paths q,
  )
