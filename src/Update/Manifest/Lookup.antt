-- ===== src/Update/Manifest/Lookup.antt =====
-- The manifest names a package once or not at all.
use rem_cmd.Prelude.{
  ℕ, true, false, ap, ◌∙◌, ◌++◌, all, ◌==◌, Bool-cases, not, All, Option, none, some, List, [], ◌∷◌,
  ◌≡◌, refl, arith, Result, ok, err, if◌then◌else◌, map, Option-cases, inl, inr,
}
use rem_cmd.Prelude.Text.{
  Text, text_eq, lines, free_of, starts_with, split_once, trim_start_matches,
}
use rem_cmd.Prelude.Utf8.{encode, decode-encode, IsChar}
use rem_cmd.Update.{UpdateError, invalid_release, is_hash}
use rem_cmd.Update.Manifest.{to_lower, file_of, hash_in, digest_from, manifest_digest}

-- The hashes that stand for a file.
unfoldable pub hashes_for : Text → List Text → List Text
unfolding hash_in
hashes_for name [] = []
hashes_for name (line ∷ rest) = elim (hash_in name line) [
  | none ↦ hashes_for name rest
  | some hash ↦ hash ∷ hashes_for name rest
]

-- None is no checksum, one is the checksum if it is well formed, and more are an error.
unfoldable pub single_hash : List Text → Result (Option Text) UpdateError
unfolding is_hash
single_hash [] = ok none
single_hash (hash ∷ []) =
    if is_hash hash then ok (some (map to_lower hash)) else err invalid_release
single_hash (hash ∷ (other ∷ more)) = err invalid_release

-- Once a digest is found, any further line for the file is an error.
digest_from-found :
    (name digest : Text) (rest : List Text)
    → digest_from name (some digest) rest
      ≡ elim (hashes_for name rest) [ [] ↦ ok (some digest) | _ ∷ _ ↦ err invalid_release ]
unfolding digest_from hashes_for
digest_from-found name digest [] = refl
digest_from-found name digest (line ∷ rest) = elim (Option-cases (hash_in name line)) [
  | inl other ↦ rw (other, digest_from, hashes_for) (digest_from-found name digest rest)
  | inr (hash, found) ↦ rw (found, digest_from, hashes_for)
]

digest_from-single :
    (name : Text) (rest : List Text)
    → digest_from name none rest ≡ single_hash (hashes_for name rest)
unfolding digest_from hashes_for single_hash
digest_from-single name [] = refl
digest_from-single name (line ∷ rest) = elim (Option-cases (hash_in name line)) [
  | inl other ↦ rw (other, digest_from, hashes_for) (digest_from-single name rest)
  | inr (hash, found) ↦
      rw (found, digest_from, hashes_for)
        (rw (digest_from-found name (map to_lower hash) rest)
          (first_of hash (hashes_for name rest)))
]
  where
    first_of :
        (hash : Text) (more : List Text)
        → (if not (is_hash hash)
            then err invalid_release
            else elim more [ [] ↦ ok (some (map to_lower hash)) | _ ∷ _ ↦ err invalid_release ])
          ≡ single_hash (hash ∷ more)
    first_of hash [] = ground arith
    first_of hash (x ∷ xs) = ground arith

-- What the format of a checksum list has in a line: nothing without a space, and else a hash, blanks,
-- stars, and the name of a file, which does not start with what stands before it.
pub data Line : Text → Option (Text × Text) → Type 0 where
  other : {line : Text} → free_of b' ' line ≡ true → Line line none
  names :
      (hash blanks stars file : Text)
      → free_of b' ' hash ≡ true
      → all (λ c. c == b' ') blanks ≡ true
      → all (λ c. c == b'*') stars ≡ true
      → starts_with b'*' file ≡ false
      → starts_with b' ' (stars ++ file) ≡ false
      → Line (hash ++ b' ' ∷ (blanks ++ (stars ++ file))) (some (hash, file))

pub data Lines : List Text → List (Option (Text × Text)) → Type 0 where
  no_lines : Lines [] []
  line_first :
      {line : Text} {o : Option (Text × Text)} {rest : List Text}
      {read : List (Option (Text × Text))}
      → Line line o
      → Lines rest read
      → Lines (line ∷ rest) (o ∷ read)

-- The hashes of the lines that name a file.
unfoldable pub hashes_of : Text → List (Option (Text × Text)) → List Text
unfolding text_eq
hashes_of name [] = []
hashes_of name (none ∷ read) = hashes_of name read
hashes_of name (some (hash, file) ∷ read) =
    let more = hashes_of name read in if text_eq file name then hash ∷ more else more

split_once-free : (c : ℕ) (s : Text) → free_of c s ≡ true → split_once c s ≡ none
unfolding split_once
split_once-free c [] h = refl
split_once-free c (x ∷ s) h =
    let apart : (x == c) ≡ false = ground arith in
    rw apart (rw (split_once-free c s (ground arith)) refl)

split_once-first :
    (c : ℕ) (s rest : Text) → free_of c s ≡ true → split_once c (s ++ c ∷ rest) ≡ some (s, rest)
unfolding split_once
split_once-first c [] rest h = let same : (c == c) ≡ true = ground arith in rw same refl
split_once-first c (x ∷ s) rest h =
    let apart : (x == c) ≡ false = ground arith in
    rw apart (rw (split_once-first c s rest (ground arith)) refl)

trim_start_matches-all :
    (c : ℕ) (s rest : Text)
    → all (λ x. x == c) s ≡ true
    → starts_with c rest ≡ false
    → trim_start_matches (λ x. x == c) (s ++ rest) ≡ rest
unfolding trim_start_matches
trim_start_matches-all c [] [] h k = refl
trim_start_matches-all c [] (x ∷ rest) h k =
    let apart : (x == c) ≡ false = ground arith in rw apart refl
trim_start_matches-all c (x ∷ s) rest h k =
    let same : (x == c) ≡ true = ground arith in
    rw same (trim_start_matches-all c s rest (ground arith) k)

-- What the code finds in a line.
unfoldable found_in : Text → Option (Text × Text) → Option Text
unfolding text_eq
found_in name none = none
found_in name (some (hash, file)) = if text_eq file name then some hash else none

hash_in-Line :
    (name : Text) {line : Text} {o : Option (Text × Text)}
    → Line line o
    → hash_in name line ≡ found_in name o
unfolding hash_in found_in
hash_in-Line name {line = line} (other free) = rw (split_once-free b' ' line free, hash_in) refl
hash_in-Line name (names hash blanks stars file free spaces marks plain clear) =
    let cut = split_once-first b' ' hash (blanks ++ (stars ++ file)) free in
    let trimmed : file_of (blanks ++ (stars ++ file)) ≡ file =
      ap (trim_start_matches (λ c. c == b'*'))
        (trim_start_matches-all b' ' blanks (stars ++ file) spaces clear)
      ∙ trim_start_matches-all b'*' stars file marks plain in
    rw (cut, hash_in)
      (rw trimmed (elim (Bool-cases (text_eq file name)) [
        | inl same ↦ rw same refl
        | inr apart ↦ rw apart refl
      ]))

hashes_for-Lines :
    (name : Text) {rest : List Text} {read : List (Option (Text × Text))}
    → Lines rest read
    → hashes_for name rest ≡ hashes_of name read
unfolding hashes_for hashes_of found_in
hashes_for-Lines name no_lines = refl
hashes_for-Lines name (line_first {o = none} line more) =
    rw (hash_in-Line name line, hashes_for) (hashes_for-Lines name more)
hashes_for-Lines name (line_first {line = text} {o = some (hash, file)} line more) =
    elim (Bool-cases (text_eq file name)) [
      | inl same ↦
          let found : hash_in name text ≡ some hash = hash_in-Line name line ∙ rw same refl in
          rw (found, hashes_for) (rw same (ap (λ hs. hash ∷ hs) (hashes_for-Lines name more)))
      | inr apart ↦
          let missing : hash_in name text ≡ none = hash_in-Line name line ∙ rw apart refl in
          rw (missing, hashes_for) (rw apart (hashes_for-Lines name more))
    ]

-- For a manifest that is text in UTF-8 and whose lines are read as checksum lists are, whatever stands
-- in those for other files: a package that no line names has no checksum, one that a single line names
-- has the hash of that line, in lower case, if it is well formed, and a second line for it or a
-- malformed hash is an error.
pub manifest_digest-single :
    (text name : Text) (read : List (Option (Text × Text)))
    → All IsChar text
    → Lines (lines text) read
    → manifest_digest (encode text) name ≡ single_hash (hashes_of name read)
unfolding manifest_digest
manifest_digest-single text name read h l =
    rw (decode-encode text h, manifest_digest)
      (digest_from-single name (lines text) ∙ ap single_hash (hashes_for-Lines name l))
