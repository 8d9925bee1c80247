-- ===== src/Sftp/Browser/Rows/Preorder.antt =====
-- The loop of `visible_rows` ends, and its rows are the tree in preorder.
use rem_cmd.Prelude.{
  ℕ, zero, suc, ◌+◌, ◌≤◌, ◌<◌, Bool, true, some, List, [], ◌∷◌, ◌++◌, ◌≡◌, refl, ap, map, arith,
  any, length, map_get, All, ltb, all, append_assoc, append-nil, Bool-cases, inl, inr,
}
use rem_cmd.Prelude.Text.{Text, text_eq, text_eq_iff}
use rem_cmd.Ssh.RemoteFiles.{RemoteFileEntry}
use rem_cmd.Sftp.Browser.{SftpBrowserState}
use rem_cmd.Sftp.Browser.Rows.{
  SftpTreeRow, row_at, or_empty, children, tree_rows, longest, count_within, levels, visible_rows,
}

-- The tree in preorder: an entry at its depth, all that is below it, one deeper, and its siblings.
pub data Preorder (s : SftpBrowserState)
    : ℕ → List RemoteFileEntry → List SftpTreeRow → Type 0 where
  ended : {depth : ℕ} → Preorder s depth [] []
  visits :
      {depth : ℕ} {entry : RemoteFileEntry} {entries : List RemoteFileEntry}
      {below siblings : List SftpTreeRow}
      → Preorder s (suc depth) (children s entry.path) below
      → Preorder s depth entries siblings
      → Preorder s depth (entry ∷ entries) (row_at depth entry ∷ below ++ siblings)

-- Its rows within so many levels.
unfoldable pub preorder : SftpBrowserState → ℕ → ℕ → List RemoteFileEntry → List SftpTreeRow
unfolding children
preorder s zero depth entries = []
preorder s (suc levels) depth [] = []
preorder s (suc levels) depth (entry ∷ entries) =
    row_at depth entry ∷ preorder s levels (suc depth) (children s entry.path)
    ++ preorder s (suc levels) depth entries

-- The entries of a directory have longer paths than it.
abbrev pub is_inside : Text × List RemoteFileEntry → Bool
is_inside (path, entries) = all (λ entry. ltb (length path) (length entry.path)) entries

-- What is known of the tree came from directories.
abbrev pub is_nested : SftpBrowserState → Bool
is_nested s = all is_inside s.tree_entries

-- Enough levels are left for an entry.
abbrev Fits : ℕ → ℕ → RemoteFileEntry → Type 0
Fits bound n entry = (suc bound < length entry.path + n) × (0 < n)

inside-Fits :
    (bound n size : ℕ) (entries : List RemoteFileEntry)
    → all (λ entry. ltb size (length entry.path)) entries ≡ true
    → suc bound < size + suc n
    → size ≤ bound
    → All (Fits bound n) entries
inside-Fits bound n size [] h l b = tt
inside-Fits bound n size (e ∷ es) h l b =
    let longer : size < length e.path = ground arith in
    ((omega arith, omega arith), inside-Fits bound n size es (ground arith) l b)

or_empty-Fits :
    (tree : List (Text × List RemoteFileEntry)) (bound n : ℕ) (path : Text)
    → all is_inside tree ≡ true
    → longest tree ≤ bound
    → suc bound < length path + suc n
    → All (Fits bound n) (or_empty (map_get text_eq path tree))
unfolding longest
or_empty-Fits [] bound n path h b l = tt
or_empty-Fits ((key, entries) ∷ tree) bound n path h b l = elim (Bool-cases (text_eq path key)) [
  | inl same ↦
      let e : length path ≡ length key = ap length ((text_eq_iff path key).0 same) in
      rw same (inside-Fits bound n (length key) entries (ground arith) (omega arith) (omega arith))
  | inr other ↦ rw other (or_empty-Fits tree bound n path (ground arith) (omega arith) l)
]

module _ (s : SftpBrowserState) (nested : is_nested s ≡ true) where
  abbrev bound : ℕ
  bound = longest s.tree_entries

  children-Fits :
      (n : ℕ) (e : RemoteFileEntry) → Fits bound (suc n) e → All (Fits bound n) (children s e.path)
  unfolding children
  children-Fits n e (l, p) = elim (Bool-cases (any (text_eq e.path) s.expanded_paths)) [
    | inl shown ↦ rw shown (or_empty-Fits s.tree_entries bound n e.path nested (omega arith) l)
    | inr hidden ↦ rw hidden tt
  ]

  tree_rows-preorder :
      (n depth : ℕ) (entries : List RemoteFileEntry) (pending : List SftpTreeRow) (k fuel : ℕ)
      (rest : List SftpTreeRow)
      → All (Fits bound n) entries
      → fuel ≡ count_within s n entries + k
      → tree_rows s k pending ≡ some rest
      → tree_rows s fuel (map (row_at depth) entries ++ pending)
        ≡ some (preorder s n depth entries ++ rest)
  unfolding preorder count_within tree_rows
  tree_rows-preorder zero depth [] pending k fuel rest f e h =
      let same : fuel ≡ k = omega arith in rw same h
  tree_rows-preorder zero depth (x ∷ xs) pending k fuel rest f e h = absurd (omega (arith, f.0.1))
  tree_rows-preorder (suc n) depth [] pending k fuel rest f e h =
      let same : fuel ≡ k = omega arith in rw same h
  tree_rows-preorder (suc n) depth (x ∷ xs) pending k zero rest f e h = absurd (omega arith)
  tree_rows-preorder (suc n) depth (x ∷ xs) pending k (suc fuel) rest f e h =
      let siblings =
        tree_rows-preorder (suc n) depth xs pending k (count_within s (suc n) xs + k) rest f.1 refl
          h in
      let below =
        tree_rows-preorder n (suc depth) (children s x.path) (map (row_at depth) xs ++ pending)
          (count_within s (suc n) xs + k) fuel (preorder s (suc n) depth xs ++ rest)
          (children-Fits n x f.0) (omega arith) siblings in
      rw (below, tree_rows) (rw append_assoc)

  preorder-Preorder :
      (n depth : ℕ) (entries : List RemoteFileEntry)
      → All (Fits bound n) entries
      → Preorder s depth entries (preorder s n depth entries)
  unfolding preorder
  preorder-Preorder zero depth [] f = ended
  preorder-Preorder zero depth (x ∷ xs) f = absurd (omega (arith, f.0.1))
  preorder-Preorder (suc n) depth [] f = ended
  preorder-Preorder (suc n) depth (x ∷ xs) f =
      visits (preorder-Preorder n (suc depth) (children s x.path) (children-Fits n x f.0))
        (preorder-Preorder (suc n) depth xs f.1)

  entries-Fits : (entries : List RemoteFileEntry) → All (Fits bound (levels s)) entries
  entries-Fits [] = tt
  entries-Fits (x ∷ xs) = ((omega arith, omega arith), entries-Fits xs)

-- If the entries known of a directory all have longer paths than it, the loop over the tree ends, and
-- the rows are those of the tree in preorder, with their depths.
pub visible_rows-Preorder :
    (s : SftpBrowserState)
    → is_nested s ≡ true
    → (rows : List SftpTreeRow) × (visible_rows s true ≡ some rows) × Preorder s 0 s.entries rows
unfolding visible_rows
visible_rows-Preorder s nested =
    let fits = entries-Fits s nested s.entries in
    let rows = preorder s (levels s) 0 s.entries in
    let walked =
      tree_rows-preorder s nested (levels s) 0 s.entries [] 0 (count_within s (levels s) s.entries)
        [] fits (omega arith) (unfold tree_rows in refl) in
    (rows, simp append-nil at walked, preorder-Preorder s nested (levels s) 0 s.entries fits)
