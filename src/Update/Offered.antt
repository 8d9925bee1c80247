-- ===== src/Update/Offered.antt =====
-- What is offered as an update.
use rem_cmd.Prelude.{
  ◌≤◌, Bool, true, false, not, ◌||◌, Option, none, some, List, [], ◌∷◌, ◌++◌, ◌≡◌, refl, sym, ap,
  ◌∙◌, arith, Result, ok, >>=-eq-ok, All, guard-eq-ok, ok_or, and_then, ◌==◌, ltb, take, find,
  Bool-cases, Result-cases, inl, inr,
}
use rem_cmd.Prelude.Text.{Text, codes, text_eq_iff, strip_prefix, strip_prefix-eq-some}
use rem_cmd.Prelude.Utf8.{Bytes}
use rem_cmd.Update.{
  releases_url, max_package_bytes, UpdateError, invalid_release, unsafe_url, missing_digest,
  too_large, PackageKind, Package, Release, ApiAsset, ApiRelease, is_hash, filter_hash, package_of,
  is_wanted, map_kind, map_asset, or_empty, transpose, offer, offer_if, parse_release,
}

abbrev pub to_list : Option Package → List Package
to_list none = []
to_list (some p) = p ∷ []

-- A package that can be downloaded: of a size within the limit, with a checksum, at the address of
-- its release.
pub record IsSafe (tag : Text) (p : Package) : Type 0 where
  pub nonempty : 1 ≤ p.size
  pub bounded : p.size ≤ max_package_bytes
  pub checksum : is_hash p.sha256 ≡ true
  pub address : p.url ≡ releases_url ++ (codes "/download/" ++ (tag ++ (codes "/" ++ p.name)))

filtered :
    (o : Option Text) (hash : Text)
    → ok_or (filter_hash o) missing_digest ≡ ok hash
    → is_hash hash ≡ true
filtered none hash h = cc
filtered (some text) hash h = elim (Bool-cases (is_hash text)) [
  | inl good ↦ let same : text ≡ hash = ground arith in rw (← same) good
  | inr bad ↦ absurd (ground arith)
]

ok_package : (p q : Package) → ◌≡◌ {A = Result Package UpdateError} (ok p) (ok q) → p ≡ q
ok_package p q h = cc

ok_release :
    (p q : Release)
    → ◌≡◌ {A = Result (Option Release) UpdateError} (ok (some p)) (ok (some q))
    → p ≡ q
ok_release p q h = cc

package_of-IsSafe :
    (tag : Text) (asset : ApiAsset) (p : Package)
    → package_of tag asset ≡ ok p
    → IsSafe tag p × (p.name ≡ asset.name)
unfolding package_of
package_of-IsSafe tag asset p h =
    let (size, h1) =
      guard-eq-ok (not (asset.size == 0 || ltb max_package_bytes asset.size)) too_large h in
    let (url, h2) = guard-eq-ok _ unsafe_url h1 in
    let (digest, h3, e) =
      >>=-eq-ok
        (ok_or (filter_hash (and_then asset.digest (strip_prefix (codes "sha256:"))))
          missing_digest)
        _ h2 in
    let built : Package = record {
      name = asset.name;
      size = asset.size;
      url = releases_url ++ (codes "/download/" ++ (tag ++ (codes "/" ++ asset.name)));
      sha256 = digest;
    } in
    let same = ok_package built p h3 in
    (
      rw (← same) (record {
        nonempty = ground arith;
        bounded = ground arith;
        checksum = filtered (and_then asset.digest (strip_prefix (codes "sha256:"))) digest e;
        address = refl;
      }),
      rw (← same) refl,
    )

-- The asset that `find` returns is one that is wanted.
find_wanted :
    (name : Option Text) (assets : List ApiAsset) (asset : ApiAsset)
    → find (is_wanted name) assets ≡ some asset
    → is_wanted name asset ≡ true
find_wanted name [] asset h = cc
find_wanted name (x ∷ xs) asset h = elim (Bool-cases (is_wanted name x)) [
  | inl wanted ↦ let same : x ≡ asset = ground arith in rw (← same) wanted
  | inr other ↦ find_wanted name xs asset (ground arith)
]

module _ {Version : Type 0} (parse_version : Text → Option Version) (has_pre : Version → Bool)
    (is_newer : Version → Version → Bool) (to_string : Version → Text)
    (from_slice : Bytes → Option ApiRelease) where
  -- What is offered to a version of a response: a release in it that is neither a draft nor a
  -- prerelease, by its flags and by its version.
  pub record IsOffered (bytes : Bytes) (current : Version) (platform : Option PackageKind)
      (r : Release) : Type 0 where
    pub release : ApiRelease
    pub received : from_slice bytes ≡ some release
    pub final : release.draft ≡ false
    pub released : release.prerelease ≡ false
    pub tag : Text
    pub tagged : release.tag_name ≡ codes "v" ++ tag
    pub version : Version
    pub parsed : parse_version tag ≡ some version
    pub stable : has_pre version ≡ false
    pub newer : is_newer version current ≡ true
    pub shown : r.version ≡ to_string version
    pub page : r.url ≡ releases_url ++ (codes "/tag/" ++ (codes "v" ++ tag))
    pub safe : All (IsSafe (codes "v" ++ tag)) (to_list r.update_package)
    pub fitting :
        All (λ p. map_kind (to_string version) platform ≡ some p.name) (to_list r.update_package)

  some_ok : {A : Type 0} (o : Option A) (e : UpdateError) {a : A} → ok_or o e ≡ ok a → o ≡ some a
  some_ok none e h = cc
  some_ok (some b) e h = cc

  -- What the wanted asset becomes.
  package-Offered :
      (tag : Text) (name : Option Text) (assets : List ApiAsset) (o : Option ApiAsset)
      (found : Option Package)
      → find (is_wanted name) assets ≡ o
      → transpose (map_asset tag o) ≡ ok found
      → All (IsSafe tag) (to_list found) × All (λ p. name ≡ some p.name) (to_list found)
  package-Offered tag name assets none found w h =
      let nothing : found ≡ none = ground arith in rw nothing (tt, tt)
  package-Offered tag name assets (some asset) found w h =
      elim (Result-cases (package_of tag asset)) [
        | inl (p, made) ↦
            let this : found ≡ some p = ground arith in
            let (safe, named) = package_of-IsSafe tag asset p made in
            let wanted = find_wanted name assets asset w in
            rw this ((safe, tt), (wanted_name name asset p wanted named, tt))
        | inr (e, refused) ↦ absurd (ground arith)
      ]
    where
      wanted_name :
          (name : Option Text) (asset : ApiAsset) (p : Package)
          → is_wanted name asset ≡ true
          → p.name ≡ asset.name
          → name ≡ some p.name
      wanted_name none asset p h e = cc
      wanted_name (some text) asset p h e =
          let same : asset.name ≡ text = (text_eq_iff asset.name text).0 (ground arith) in cc

  offer-IsOffered :
      (bytes : Bytes) (release : ApiRelease) (tag : Text) (version current : Version)
      (platform : Option PackageKind) (r : Release)
      → from_slice bytes ≡ some release
      → release.draft ≡ false
      → release.prerelease ≡ false
      → release.tag_name ≡ codes "v" ++ tag
      → parse_version tag ≡ some version
      → has_pre version ≡ false
      → is_newer version current ≡ true
      → offer parse_version has_pre is_newer to_string from_slice release version platform
        ≡ ok (some r)
      → IsOffered bytes current platform r
  offer-IsOffered bytes release tag version current platform r f d q t p s n h =
      let name = map_kind (to_string version) platform in
      let asset = find (is_wanted name) release.assets in
      let (found, h1, e) = >>=-eq-ok (transpose (map_asset release.tag_name asset)) _ h in
      let built : Release = record {
        version = to_string version;
        url = releases_url ++ (codes "/tag/" ++ release.tag_name);
        notes = take 4000 (or_empty release.body);
        update_package = found;
      } in
      let same = ok_release built r h1 in
      let (safe, fitting) =
        package-Offered release.tag_name name release.assets asset found refl e in
      rw (← same) (record {
        release = release;
        received = f;
        final = d;
        released = q;
        tag = tag;
        tagged = t;
        version = version;
        parsed = p;
        stable = s;
        newer = n;
        shown = refl;
        page = ap (λ x. releases_url ++ (codes "/tag/" ++ x)) t;
        safe = rw (← t) safe;
        fitting = fitting;
      })

  offer_if-IsOffered :
      (b : Bool) (bytes : Bytes) (release : ApiRelease) (tag : Text) (version current : Version)
      (platform : Option PackageKind) (r : Release)
      → (release.draft || release.prerelease || has_pre version || not (is_newer version current))
        ≡ b
      → from_slice bytes ≡ some release
      → release.tag_name ≡ codes "v" ++ tag
      → parse_version tag ≡ some version
      → offer_if parse_version has_pre is_newer to_string from_slice b release version platform
        ≡ ok (some r)
      → IsOffered bytes current platform r
  offer_if-IsOffered true bytes release tag version current platform r b f t p h = cc
  offer_if-IsOffered false bytes release tag version current platform r b f t p h =
      offer-IsOffered bytes release tag version current platform r f (ground arith) (ground arith) t
        p (ground arith) (ground arith) h

  -- What is offered is a release of the response that is marked neither as a draft nor as a prerelease,
  -- with a version that is no prerelease and newer than the current one, and with the page of its tag;
  -- and if a package comes with it, that is the one for the platform, from the address of the tag in
  -- the repository, with a well-formed checksum and a size from 1 to the limit.
  pub parse_release-IsOffered :
      (bytes : Bytes) (current_text : Text) (platform : Option PackageKind) (current : Version)
      (r : Release)
      → parse_version current_text ≡ some current
      → parse_release parse_version has_pre is_newer to_string from_slice bytes current_text
          platform
        ≡ ok (some r)
      → IsOffered bytes current platform r
  unfolding parse_release
  parse_release-IsOffered bytes current_text platform current r c h =
      let (_, h1) = guard-eq-ok _ too_large h in
      let (release, h2, made) = >>=-eq-ok (ok_or (from_slice bytes) invalid_release) _ h1 in
      let (tag, h3, cut) =
        >>=-eq-ok (ok_or (strip_prefix (codes "v") release.tag_name) invalid_release) _ h2 in
      let (version, h4, parsed) = >>=-eq-ok (ok_or (parse_version tag) invalid_release) _ h3 in
      let (now, h5, read) = >>=-eq-ok (ok_or (parse_version current_text) invalid_release) _ h4 in
      let at_tag =
        strip_prefix-eq-some (codes "v") release.tag_name (some_ok _ invalid_release cut) in
      let same : now ≡ current = some_same now current (sym (some_ok _ invalid_release read) ∙ c) in
      let unstable =
        release.draft || release.prerelease || has_pre version || not (is_newer version now) in
      rw (← same) (
        offer_if-IsOffered unstable bytes release tag version now platform r refl
          (some_ok _ invalid_release made) at_tag (some_ok _ invalid_release parsed) h5)
    where
      some_same : (a b : Version) → some a ≡ some b → a ≡ b
      some_same a b e = cc
