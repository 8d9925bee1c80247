-- ===== src/Update/Download/Complete.antt =====
-- A good package is received.
use rem_cmd.Prelude.{
  ℕ, suc, ◌+◌, ◌≤◌, true, false, not, ◌||◌, none, List, [], ◌∷◌, ◌++◌, ◌≡◌, refl, ap, ◌∙◌, arith,
  ok, ◌==◌, ltb, length, length-append, append_assoc, append-nil, map,
}
use rem_cmd.Prelude.Text.{Text}
use rem_cmd.Prelude.Utf8.{Bytes}
use rem_cmd.Ssh.LocalPath.{Host, path_join}
use rem_cmd.Update.{Package, max_package_bytes, is_success}
use rem_cmd.Update.Download.{
  Response, Disk, eq_ignore_ascii_case, differs, receive_chunks, receive_package,
}
use rem_cmd.Update.Download.Verified.{IsVerified, concat}

-- No call on files fails.
abbrev pub sound_disk : Disk
sound_disk = record {
  create_dir_all = none;
  new_in = none;
  write_all = λ count. none;
  flush = none;
  sync_all = none;
  persist = none;
}

receive_chunks-concat :
    (p : Package) (chunks : List Bytes) (written : Bytes) (count : ℕ)
    → p.size ≤ max_package_bytes
    → length (written ++ concat chunks) ≤ p.size
    → receive_chunks p sound_disk written count (map ok chunks) ≡ ok (written ++ concat chunks)
unfolding receive_chunks concat
receive_chunks-concat p [] written count m l = rw append-nil refl
receive_chunks-concat p (chunk ∷ chunks) written count m l =
    let moved = append_assoc written chunk (concat chunks) in
    let sizes = length-append (written ++ chunk) (concat chunks) in
    let first = length-append written chunk in
    let whole = ap length moved in
    let fits : (ltb p.size (length written + length chunk)
          || ltb max_package_bytes (length written + length chunk))
        ≡ false =
      ground arith in
    rw (fits, receive_chunks)
      (receive_chunks-concat p chunks (written ++ chunk) (suc count) m (rw moved l) ∙ ap ok moved)

-- If the server answers with success and the bytes of the package, in whatever chunks, announces no
-- other size, and no call on files fails, the download of a package within the limit succeeds, and
-- leaves these bytes under the package's name.
pub receive_package-concat :
    (sha256 : Bytes → Text) (host : Host) (p : Package) (directory : Text) (response : Response)
    (chunks : List Bytes)
    → p.size ≤ max_package_bytes
    → is_success response.status ≡ true
    → differs response.content_length p.size ≡ false
    → response.chunks ≡ map ok chunks
    → IsVerified sha256 p (concat chunks)
    → receive_package sha256 host p directory sound_disk response
      ≡ ok (path_join host directory p.name, concat chunks)
unfolding receive_package
receive_package-concat sha256 host p directory response chunks m s d e v =
    let got = receive_chunks-concat p chunks [] 0 m (omega (arith, v.whole)) in
    let c = concat chunks in
    let checked : not (not (length c == p.size) || not (eq_ignore_ascii_case (sha256 c) p.sha256))
        ≡ true =
      ground (arith, v.whole, v.authentic) in
    rw (s, receive_package) (rw d (rw e (rw got (rw checked refl))))
