-- ===== src/Ssh/Proxy/Socks5/Replies.antt =====
-- What a SOCKS5 handshake does on the proxy's replies.
use rem_cmd.Prelude.{
  ℕ, ◌+◌, ◌≤◌, true, false, none, some, [], ◌∷◌, ◌++◌, ok, ◌==◌, length, length-append,
  append_assoc, Bool-cases, inl, inr, ◌≡◌, ◌≢◌, refl, sym, ap, ◌∙◌, arith,
}
use rem_cmd.Prelude.Text.{Text}
use rem_cmd.Prelude.Utf8.{Bytes, encode}
use rem_cmd.Core.Profile.{ConnectionProfile}
use rem_cmd.Ssh.Error.{SshError}
use rem_cmd.Ssh.Proxy.Stream.{
  Stream, write_all, read_exact, bind_ok, bind_same, bind_step, return, HasRoom, write_all-room,
  write_all-incoming, read_exact-append,
}
use rem_cmd.Ssh.Proxy.Socks5.{
  greeting, connect_request, selected, request_target, open_socks5, discard_address, discard, at,
  byte_length, long_hostname, check_reply, read_reply, send_request, check_selection,
  read_selection,
}

-- The bound address in a reply, by the length that its type has.
pub data IsAddress : ℕ → Bytes → Type 0 where
  ipv4 : (a : Bytes) → length a ≡ 6 → IsAddress 1 a
  domain : (name port : Bytes) → length port ≡ 2 → IsAddress 3 (length name ∷ (name ++ port))
  ipv6 : (a : Bytes) → length a ≡ 18 → IsAddress 4 a

discard-append :
    (n : ℕ) (s : Stream) (xs rest : Bytes)
    → length xs ≡ n
    → s.incoming ≡ xs ++ rest
    → discard n s ≡ (ok tt, record s { incoming = rest })
unfolding discard
discard-append n s xs rest l e =
    rw (← l) (bind_ok (read_exact (length xs)) (λ _. return tt) (read_exact-append s xs rest e))

discard_address-IsAddress :
    {kind : ℕ} {a : Bytes} (s : Stream) (rest : Bytes)
    → IsAddress kind a
    → s.incoming ≡ a ++ rest
    → discard_address kind s ≡ (ok tt, record s { incoming = rest })
unfolding discard_address
discard_address-IsAddress s rest (ipv4 a l) e = discard-append 6 s a rest l e
discard_address-IsAddress s rest (ipv6 a l) e = discard-append 18 s a rest l e
discard_address-IsAddress s rest (domain name port l) e =
    bind_ok (read_exact 1) (λ size. discard (at size 0 + 2))
      (read_exact-append s (length name ∷ []) ((name ++ port) ++ rest) e)
    ∙ (discard-append (length name + 2) (record s { incoming = (name ++ port) ++ rest })
        (name ++ port) rest (omega (arith, length-append name port)) refl)

-- Enough of the answer to a request: version 5, code 0, a reserved byte and the bound address.
abbrev pub accepted : ℕ → ℕ → Bytes → Bytes
accepted reserved kind address = 5 ∷ 0 ∷ reserved ∷ kind ∷ address

byte_length-fits :
    (bytes : Bytes) (e : SshError) (s : Stream)
    → length bytes ≤ 255
    → byte_length bytes e s ≡ (ok (length bytes), s)
byte_length-fits bytes e s h = ground arith

-- The bytes that `request_target` sends.
abbrev pub request_of : ConnectionProfile → Bytes
request_of e = connect_request (encode e.host) e.port

module _ (endpoint : ConnectionProfile) (short : length (encode endpoint.host) ≤ 255) where
  request_target-accepted :
      {kind : ℕ} {address : Bytes} (reserved : ℕ) (s : Stream) (rest : Bytes)
      → HasRoom s (length (request_of endpoint))
      → IsAddress kind address
      → s.incoming ≡ accepted reserved kind address ++ rest
      → request_target endpoint s
        ≡ (ok tt, record s { incoming = rest; sent = s.sent ++ request_of endpoint })
  unfolding request_target
  request_target-accepted {kind} {address} reserved s rest room is_address e =
      let s' = record s { sent = s.sent ++ request_of endpoint } in
      bind_ok (byte_length (encode endpoint.host) long_hostname) (λ _. send_request endpoint)
        (byte_length-fits (encode endpoint.host) long_hostname s short)
      ∙ bind_ok (write_all (request_of endpoint)) (λ _. read_reply)
          (write_all-room s (request_of endpoint) room)
      ∙ bind_ok (read_exact 4) check_reply
          (read_exact-append s' (5 ∷ 0 ∷ reserved ∷ kind ∷ []) (address ++ rest) e)
      ∙ discard_address-IsAddress (record s' { incoming = address ++ rest }) rest is_address refl

  -- For a host name of at most 255 bytes, a stream that takes the bytes sent, and a proxy that
  -- selects no authentication and accepts the target, the handshake without credentials succeeds:
  -- it sends the greeting and the request, and leaves unread all that comes behind the reply.
  pub open-anonymous :
      {kind : ℕ} {address : Bytes} (reserved : ℕ) (s : Stream) (rest : Bytes)
      → HasRoom s (3 + length (request_of endpoint))
      → IsAddress kind address
      → s.incoming ≡ 5 ∷ 0 ∷ (accepted reserved kind address ++ rest)
      → open_socks5 none none endpoint s ≡ (
        ok tt,
        record s { incoming = rest; sent = s.sent ++ (greeting false ++ request_of endpoint) },
      )
  unfolding open_socks5
  open-anonymous {kind} {address} reserved s rest room is_address e =
      let s' = record s { sent = s.sent ++ greeting false } in
      let reply = accepted reserved kind address ++ rest in
      bind_ok (write_all (greeting false)) (λ _. read_selection none none endpoint)
        (write_all-room s (greeting false) (omega arith))
      ∙ bind_ok (read_exact 2) (check_selection none none endpoint)
          (read_exact-append s' (5 ∷ 0 ∷ []) reply e)
      ∙ request_target-accepted reserved (record s' { incoming = reply }) rest
          (omega (arith, length-append s.sent (greeting false))) is_address refl
      ∙ ap (λ bytes. (ok tt, record s { incoming = rest; sent = bytes }))
          (append_assoc s.sent (greeting false) (request_of endpoint))

-- The credentials are used only if the proxy chooses method 2.
selected_independent :
    (method : ℕ) (u w u' w' : Text) (s : Stream)
    → method ≢ 2
    → selected method (some u) (some w) s ≡ selected method (some u') (some w') s
unfolding selected
selected_independent method u w u' w' s h = ground arith

check_selection_independent :
    (endpoint : ConnectionProfile) (u w u' w' : Text) (version method : ℕ) (s : Stream)
    → method ≢ 2
    → check_selection (some u) (some w) endpoint (version ∷ method ∷ []) s
      ≡ check_selection (some u') (some w') endpoint (version ∷ method ∷ []) s
unfolding check_selection
check_selection_independent endpoint u w u' w' version method s h =
    elim (Bool-cases (version == 5)) [
      | inl five ↦ rw five (
          bind_step (selected method (some u) (some w)) (selected method (some u') (some w'))
            (λ _. request_target endpoint) s (selected_independent method u w u' w' s h))
      | inr other ↦ rw other
    ]

-- If the second byte of the proxy's answer is not 2, the whole handshake, the bytes sent included, is
-- the same for any two pairs of credentials: neither user name nor password is sent.
pub credentials_unused :
    (endpoint : ConnectionProfile) (u w u' w' : Text) (s : Stream) (version method : ℕ)
    (rest : Bytes)
    → s.incoming ≡ version ∷ method ∷ rest
    → method ≢ 2
    → open_socks5 (some u) (some w) endpoint s ≡ open_socks5 (some u') (some w') endpoint s
unfolding open_socks5
credentials_unused endpoint u w u' w' s version method rest e h =
    bind_same (λ _. read_selection (some u) (some w) endpoint)
      (λ _. read_selection (some u') (some w') endpoint) (write_all (greeting true)) s
      (λ _. read_same (write_all (greeting true) s).1 (write_all-incoming (greeting true) s ∙ e))
  where
    read_same :
        (s : Stream)
        → s.incoming ≡ version ∷ method ∷ rest
        → read_selection (some u) (some w) endpoint s
          ≡ read_selection (some u') (some w') endpoint s
    read_same s e =
        let first = read_exact-append s (version ∷ method ∷ []) rest e in
        let s' = record s { incoming = rest } in
        bind_ok (read_exact 2) (check_selection (some u) (some w) endpoint) first
        ∙ check_selection_independent endpoint u w u' w' version method s' h
        ∙ sym (bind_ok (read_exact 2) (check_selection (some u') (some w') endpoint) first)
