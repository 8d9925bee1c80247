-- ===== src/Update/Download/Verified.antt =====
-- What is left of a download, and the check before it is opened.
use rem_cmd.Prelude.{
  ℕ, suc, ◌+◌, ◌≤◌, Bool, true, false, not, ◌||◌, Option, none, some, List, [], ◌∷◌, ◌++◌, ◌≡◌,
  refl, sym, ap, ◌∙◌, arith, Result, ok, err, ◌>>◌, >>=-eq-ok, guard-eq-ok, ◌==◌, ltb, length,
  length-append, append_assoc, append-nil, all, is_empty,
}
use rem_cmd.Prelude.Text.{Text}
use rem_cmd.Prelude.Utf8.{Bytes}
use rem_cmd.Ssh.LocalPath.{Host, path_join}
use rem_cmd.Update.{UpdateError, http, integrity, too_large, Package}
use rem_cmd.Update.Download.{
  Response, Disk, io_result, eq_ignore_ascii_case, receive_chunks, receive_package, read_file,
  verify,
}

-- The bytes of the chunks before the first error.
unfoldable pub payload : List (Result Bytes UpdateError) → Bytes
payload [] = []
payload (err e ∷ chunks) = []
payload (ok chunk ∷ chunks) = chunk ++ payload chunks

unfoldable pub concat : List Bytes → Bytes
concat [] = []
concat (bytes ∷ more) = bytes ++ concat more

abbrev pub is_filled : Bytes → Bool
is_filled bytes = not (is_empty bytes)

-- No chunk is an error.
abbrev pub all_ok : List (Result Bytes UpdateError) → Bool
all_ok [] = true
all_ok (err e ∷ chunks) = false
all_ok (ok chunk ∷ chunks) = all_ok chunks

-- A file that may be opened.
pub record IsVerified (sha256 : Bytes → Text) (p : Package) (contents : Bytes) : Type 0 where
  pub whole : length contents ≡ p.size
  pub authentic : eq_ignore_ascii_case (sha256 contents) p.sha256 ≡ true

io_ok :
    {B : Type 0} (o : Option Text) {next : Result B UpdateError} {b : B}
    → (io_result o >> next) ≡ ok b
    → next ≡ ok b
io_ok none h = h
io_ok (some e) h = cc

receive_chunks-payload :
    (p : Package) (disk : Disk) (chunks : List (Result Bytes UpdateError)) (written : Bytes)
    (count : ℕ) {out : Bytes}
    → receive_chunks p disk written count chunks ≡ ok out
    → out ≡ written ++ payload chunks
unfolding receive_chunks payload
receive_chunks-payload p disk [] written count {out} h =
    let same : written ≡ out = ground arith in rw append-nil (sym same)
receive_chunks-payload p disk (err e ∷ chunks) written count h = cc
receive_chunks-payload p disk (ok chunk ∷ chunks) written count h =
    let (_, h1) = guard-eq-ok _ too_large h in
    let h2 = io_ok (disk.write_all count) h1 in
    receive_chunks-payload p disk chunks (written ++ chunk) (suc count) h2
    ∙ append_assoc written chunk (payload chunks)

ok_pair :
    (path path' : Text) (contents contents' : Bytes)
    → Path (Result (Text × Bytes) UpdateError) (ok (path, contents)) (ok (path', contents'))
    → (path ≡ path') × (contents ≡ contents')
ok_pair path path' contents contents' h = ground arith

read_file-payload :
    (p : Package) (contents : Bytes) (reads : List Bytes)
    → all is_filled reads ≡ true
    → length (contents ++ concat reads) ≤ p.size
    → read_file p contents reads ≡ ok (contents ++ concat reads)
unfolding read_file concat
read_file-payload p contents [] f l = rw append-nil refl
read_file-payload p contents ([] ∷ reads) f l = cc
read_file-payload p contents ((b ∷ bytes) ∷ reads) f l =
    let moved = append_assoc contents (b ∷ bytes) (concat reads) in
    let sizes = length-append (contents ++ b ∷ bytes) (concat reads) in
    let first = length-append contents (b ∷ bytes) in
    let whole = ap length moved in
    let fits : ltb p.size (length contents + length (b ∷ bytes)) ≡ false = ground arith in
    rw (fits, read_file)
      (read_file-payload p (contents ++ b ∷ bytes) reads f (rw moved l) ∙ ap ok moved)

module _ (sha256 : Bytes → Text) where
  checked-IsVerified :
      (p : Package) (contents : Bytes)
      → not
          (not (length contents == p.size) || not (eq_ignore_ascii_case (sha256 contents) p.sha256))
        ≡ true
      → IsVerified sha256 p contents
  checked-IsVerified p contents h = record { whole = ground arith; authentic = ground arith }

  -- A download that succeeds leaves, under the package's name in the directory, exactly the bytes that
  -- were received, and these have the size and the checksum of the package.
  pub receive_package-IsVerified :
      (host : Host) (p : Package) (directory : Text) (disk : Disk) (response : Response)
      (path : Text) (contents : Bytes)
      → receive_package sha256 host p directory disk response ≡ ok (path, contents)
      → IsVerified sha256 p contents
        × (contents ≡ payload response.chunks)
        × (path ≡ path_join host directory p.name)
  unfolding receive_package
  receive_package-IsVerified host p directory disk response path contents h =
      let (_, h1) = guard-eq-ok _ (http response.status) h in
      let (_, h2) = guard-eq-ok _ integrity h1 in
      let h3 = io_ok disk.create_dir_all h2 in
      let h4 = io_ok disk.new_in h3 in
      let (written, h5, received) = >>=-eq-ok (receive_chunks p disk [] 0 response.chunks) _ h4 in
      let (checks, h6) = guard-eq-ok _ integrity h5 in
      let h7 = io_ok disk.persist (io_ok disk.sync_all (io_ok disk.flush h6)) in
      let (named, same) = ok_pair _ path written contents h7 in
      let whole = receive_chunks-payload p disk response.chunks [] 0 received in
      (rw (← same) (checked-IsVerified p written checks), sym same ∙ whole, sym named)

  -- The check before a package is opened accepts every file of its size and checksum, however the
  -- file system cuts it into pieces, the last one at its end.
  pub verify_of-IsVerified :
      (p : Package) (reads : List Bytes)
      → IsVerified sha256 p (concat reads)
      → all is_filled reads ≡ true
      → verify sha256 p (length (concat reads)) reads ≡ ok tt
  unfolding verify
  verify_of-IsVerified p reads v f =
      let read = read_file-payload p [] reads f (omega (arith, v.whole)) in
      ground (arith, read, v.whole, v.authentic)
