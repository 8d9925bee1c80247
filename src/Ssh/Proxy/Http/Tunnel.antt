-- ===== src/Ssh/Proxy/Http/Tunnel.antt =====
-- `open_http_connect` as a whole.
use rem_cmd.Prelude.{ℕ, subst, sym, ap, ◌≤◌, Option, some, ◌++◌, ok, length, ◌≡◌, ◌∙◌}
use rem_cmd.Prelude.Text.{Text}
use rem_cmd.Prelude.Utf8.{Bytes, encode, decode}
use rem_cmd.Core.Profile.{ConnectionProfile}
use rem_cmd.Ssh.Proxy.Stream.{Stream, bind_ok, write_all, HasRoom, write_all-room, ◌>>=◌}
use rem_cmd.Ssh.Proxy.Http.{
  max_proxy_response_bytes, read_headers, status_of, check_status, authorization, connect_text,
  check_response, open_http_connect,
}
use rem_cmd.Ssh.Proxy.Http.Status.{IsStatusLine, Decides, check_status-IsStatusLine}
use rem_cmd.Ssh.Proxy.Http.Headers.{IsHead, read_headers-IsHead}

module _ (base64 : Bytes → Text) where
  open-head :
      (u w : Option Text) (e : ConnectionProfile) (s : Stream) (head rest : Bytes)
      (credentials text : Text)
      → authorization base64 u w ≡ ok credentials
      → HasRoom s (length (encode (connect_text base64 e credentials)))
      → IsHead head
      → length head ≤ max_proxy_response_bytes
      → decode head ≡ some text
      → s.incoming ≡ head ++ rest
      → open_http_connect base64 u w e s ≡ (
        check_status (status_of text),
        record s { incoming = rest; sent = s.sent ++ encode (connect_text base64 e credentials) },
      )
  unfolding open_http_connect
  open-head u w e s head rest credentials text a room h l d i =
      let request = encode (connect_text base64 e credentials) in
      let s' = record s { sent = s.sent ++ request } in
      rw a (
        bind_ok (write_all request) (λ _. read_headers >>= check_response base64)
          (write_all-room s request room)
        ∙ bind_ok read_headers (check_response base64) {s = s'}
            (read_headers-IsHead s' head rest text h l d i))

  -- With the credentials complete or absent, a stream that takes the request, and a response head
  -- of at most 16 KiB of UTF-8 whose first line is a word, a space, and a status of three digits in
  -- front of a blank or a line break: the handshake succeeds exactly if the status is from 200 to 299,
  -- and fails with an error of the credentials at 407 and of the proxy at any other. The request has
  -- been sent, and what follows the head is left for the tunnel.
  pub open-IsHead :
      (u w : Option Text) (e : ConnectionProfile) (s : Stream) (head rest : Bytes)
      (credentials text : Text) (status : ℕ)
      → authorization base64 u w ≡ ok credentials
      → HasRoom s (length (encode (connect_text base64 e credentials)))
      → IsHead head
      → length head ≤ max_proxy_response_bytes
      → decode head ≡ some text
      → IsStatusLine text status
      → s.incoming ≡ head ++ rest
      → Decides status (open_http_connect base64 u w e s).0
        × (open_http_connect base64 u w e s).1 ≡ record s {
          incoming = rest;
          sent = s.sent ++ encode (connect_text base64 e credentials);
        }
  open-IsHead u w e s head rest credentials text status a room h l d line i =
      let run = open-head u w e s head rest credentials text a room h l d i in
      (
        subst (Decides status) (sym (ap (λ r. r.0) run))
            (check_status-IsStatusLine text status line),
        ap (λ r. r.1) run,
      )
