-- ===== src/Ssh/Proxy/Http/Headers.antt =====
-- `read_headers` and the head of the response.
use rem_cmd.Prelude.{
  ℕ, ◌≤◌, ◌<◌, Bool, true, false, some, [], ◌∷◌, ◌++◌, ok, if◌then◌else◌, ltb, length,
  length-append, append_assoc, append-nil, Bool-cases, inl, inr, ◌⊎◌, ◌≡◌, refl, sym, ap, subst,
  ◌∙◌, arith,
}
use rem_cmd.Prelude.Text.{Text}
use rem_cmd.Prelude.Utf8.{Bytes, decode}
use rem_cmd.Ssh.Error.{SshError}
use rem_cmd.Ssh.Proxy.Stream.{Stream, io_error}
use rem_cmd.Ssh.Proxy.Http.{
  max_proxy_response_bytes, is_complete, response_text, headers_from, read_headers,
}

-- No part of the bytes up to some place ends in a blank line.
abbrev IsOpen : Bytes → Type 0
IsOpen bytes = (xs ys : Bytes) → bytes ≡ xs ++ ys → is_complete xs ≡ true → ⊥

-- Whether no beginning of `read ++ more` ends in a blank line that is as long as `read` and shorter
-- than the whole.
unfoldable pub none_shorter : Bytes → Bytes → Bool
unfolding is_complete
none_shorter read [] = true
none_shorter read (b ∷ more) =
    let later = none_shorter (read ++ b ∷ []) more in if is_complete read then false else later

-- `head` ends in a blank line, and nothing shorter does.
pub record IsHead (head : Bytes) : Type 0 where
  pub complete : is_complete head ≡ true
  pub first : none_shorter [] head ≡ true

right_nil : (xs ys : Bytes) → [] ≡ xs ++ ys → ys ≡ []
right_nil [] ys e = sym e
right_nil (x ∷ xs) ys e = cc

cons_inj : {a b : ℕ} {xs ys : Bytes} → ◌≡◌ {A = Bytes} (a ∷ xs) (b ∷ ys) → (a ≡ b) × (xs ≡ ys)
cons_inj e = (cc, cc)

-- A complete beginning of such bytes is all of them.
none_shorter-cut :
    (read more xs ys : Bytes)
    → none_shorter read more ≡ true
    → more ≡ xs ++ ys
    → is_complete (read ++ xs) ≡ true
    → ys ≡ []
unfolding none_shorter
none_shorter-cut read [] xs ys n e c = right_nil xs ys e
none_shorter-cut read (b ∷ more) [] ys n e c =
    let whole : is_complete read ≡ true = sym (ap is_complete (append-nil read)) ∙ c in
    absurd (ground (arith, whole))
none_shorter-cut read (b ∷ more) (x ∷ xs) ys n e c =
    none_shorter-cut (read ++ b ∷ []) more xs ys (ground arith) (cons_inj e).1
      (ap is_complete (append_assoc read (b ∷ []) xs ∙ ap (λ y. read ++ y ∷ xs) (cons_inj e).0) ∙ c)

IsOpen-none_shorter :
    (read more : Bytes) (b : ℕ) → IsOpen (read ++ more) → none_shorter read (more ++ b ∷ []) ≡ true
unfolding none_shorter
IsOpen-none_shorter read [] b o = elim (Bool-cases (is_complete read)) [
  | inl whole ↦ absurd (o read [] refl whole)
  | inr going ↦ ground (arith, going)
]
IsOpen-none_shorter read (c ∷ more) b o = elim (Bool-cases (is_complete read)) [
  | inl whole ↦ absurd (o read (c ∷ more) refl whole)
  | inr going ↦ ground (
    arith,
    going,
    IsOpen-none_shorter (read ++ c ∷ []) more b
        (subst IsOpen (sym (append_assoc read (c ∷ []) more)) o),
  )
]

-- A cut of a list with one more byte at its end.
snoc_cut :
    (r xs ys : Bytes) (b : ℕ) → r ++ b ∷ [] ≡ xs ++ ys → (ys ≡ []) ⊎ ((zs : Bytes) × (r ≡ xs ++ zs))
snoc_cut r [] ys b e = inr (r, refl)
snoc_cut [] (x ∷ xs) ys b e = inl (right_nil xs ys (cons_inj e).1)
snoc_cut (c ∷ r) (x ∷ xs) ys b e = elim (snoc_cut r xs ys b (cons_inj e).1) [
  | inl h ↦ inl h
  | inr (zs, h) ↦ inr (zs, cc ((cons_inj e).0, h))
]

IsOpen-snoc :
    (r : Bytes) (b : ℕ) → IsOpen r → is_complete (r ++ b ∷ []) ≡ false → IsOpen (r ++ b ∷ [])
IsOpen-snoc r b o f xs ys e h = elim (snoc_cut r xs ys b e) [
  | inl none_left ↦ cc (rw (none_left, append-nil) at e)
  | inr (zs, cut) ↦ o xs zs cut h
]

IsHead-snoc :
    (r : Bytes) (b : ℕ) → IsOpen r → is_complete (r ++ b ∷ []) ≡ true → IsHead (r ++ b ∷ [])
IsHead-snoc r b o h = record { complete = h; first = IsOpen-none_shorter [] r b o }

-- What a reading that returns has done to the incoming bytes.
pub record ReadsHead (incoming : Bytes) (text : Text) (rest : Bytes) : Type 0 where
  pub head : Bytes
  pub splits : incoming ≡ head ++ rest
  pub is_head : IsHead head
  pub is_text : decode head ≡ some text
  pub bounded : length head ≤ max_proxy_response_bytes

response_text-eq-ok :
    (bytes : Bytes) {text : Text} → response_text bytes ≡ ok text → decode bytes ≡ some text
response_text-eq-ok bytes h = ground arith

headers_from-ReadsHead :
    (fault : SshError) (response incoming rest : Bytes) (text : Text)
    → IsOpen response
    → length response ≤ max_proxy_response_bytes
    → headers_from fault response incoming ≡ (ok text, rest)
    → ReadsHead (response ++ incoming) text rest
unfolding headers_from
headers_from-ReadsHead fault response [] rest text o l e = absurd (ground arith)
headers_from-ReadsHead fault response (b ∷ incoming) rest text o l e =
    let response' = response ++ b ∷ [] in
    let regroup = append_assoc response (b ∷ []) incoming in
    elim (Bool-cases (ltb (length response) max_proxy_response_bytes)) [
      | inr full ↦ absurd (ground arith)
      | inl room ↦ elim (Bool-cases (is_complete response')) [
        | inl whole ↦ record {
          head = response';
          splits = ground arith;
          is_head = IsHead-snoc response b o whole;
          is_text = response_text-eq-ok response' (ground arith);
          bounded = ground (arith, length-append response (b ∷ []));
        }
        | inr more ↦
            subst (λ bytes. ReadsHead bytes text rest) regroup
              (headers_from-ReadsHead fault response' incoming rest text
                (IsOpen-snoc response b o more) (ground (arith, length-append response (b ∷ [])))
                (ground arith))
      ]
    ]

nothing-IsOpen : IsOpen []
unfolding is_complete
nothing-IsOpen [] ys e h = cc
nothing-IsOpen (x ∷ xs) ys e h = cc

-- A response that is read is the shortest beginning of the incoming bytes that ends in a blank
-- line, at most 16 KiB of UTF-8; all that follows is left for the tunnel, and nothing is sent.
pub read_headers-ReadsHead :
    (s s' : Stream) (text : Text)
    → read_headers s ≡ (ok text, s')
    → ReadsHead s.incoming text s'.incoming × (s'.sent ≡ s.sent)
unfolding read_headers
read_headers-ReadsHead s s' text h = (
  headers_from-ReadsHead (io_error s) [] s.incoming s'.incoming text nothing-IsOpen (omega arith)
      (ground arith),
  ground arith,
)

headers_from-IsHead :
    (fault : SshError) (head response more rest : Bytes) (text : Text)
    → IsHead head
    → length head ≤ max_proxy_response_bytes
    → decode head ≡ some text
    → head ≡ response ++ more
    → is_complete response ≡ false
    → headers_from fault response (more ++ rest) ≡ (ok text, rest)
unfolding headers_from
headers_from-IsHead fault head response [] rest text w l d e open_yet =
    cc (w.complete, ap is_complete (e ∙ append-nil response))
headers_from-IsHead fault head response (b ∷ more) rest text w l d e open_yet =
    let response' = response ++ b ∷ [] in
    let e' : head ≡ response' ++ more = e ∙ sym (append_assoc response (b ∷ []) more) in
    let room : length response < max_proxy_response_bytes =
      omega (arith, ap (length {A = ℕ}) e, length-append response (b ∷ more)) in
    elim (Bool-cases (is_complete response')) [
      | inl whole ↦
          let last : more ≡ [] = none_shorter-cut [] head response' more w.first e' whole in
          let same : head ≡ response' = e' ∙ (rw last (append-nil response')) in
          ground (arith, whole, room, last, ap decode same)
      | inr going ↦ ground (
        arith,
        going,
        room,
        headers_from-IsHead fault head response' more rest text w l d e' going,
      )
    ]

nothing_read : is_complete [] ≡ false
unfolding is_complete
nothing_read = refl

-- A shortest beginning that ends in a blank line, of at most 16 KiB and text in UTF-8, is read
-- whatever follows it, and what follows is left in the stream.
pub read_headers-IsHead :
    (s : Stream) (head rest : Bytes) (text : Text)
    → IsHead head
    → length head ≤ max_proxy_response_bytes
    → decode head ≡ some text
    → s.incoming ≡ head ++ rest
    → read_headers s ≡ (ok text, record s { incoming = rest })
unfolding read_headers
read_headers-IsHead s head rest text w l d e =
    ground
      (arith, e, headers_from-IsHead (io_error s) head [] head rest text w l d refl nothing_read)
