-- ===== src/Ssh/Proxy/Http.antt =====
-- proxy.rs: `authority`, `read_headers` and `open_http_connect`. The base64 encoding of the
-- credentials is the parameter `base64`.
pub mod Headers
pub mod Status
pub mod Tunnel
use rem_cmd.Prelude.{
  ℕ, ◌+◌, ◌-◌, ◌*◌, Bool, true, false, not, ◌&&◌, ◌||◌, Option, none, some, List, [], ◌∷◌, ◌++◌,
  Result, ok, err, if◌then◌else◌, ◌==◌, ltb, within, length, drop, get_elem?, any, and_then,
}
use rem_cmd.Prelude.Text.{
  Text, codes, decimal, text_eq, starts_with, first_line, split_ascii_whitespace, parse_unsigned,
}
use rem_cmd.Prelude.Utf8.{Bytes, encode, decode}
use rem_cmd.Core.Profile.{ConnectionProfile}
use rem_cmd.Ssh.Error.{SshError, ssh_error, proxy, proxy_authentication, configuration}
use rem_cmd.Ssh.Proxy.Stream.{Stream, M, ◌>>=◌, ◌>>◌, return, throw, write_all, io_error}

abbrev pub max_proxy_response_bytes : ℕ
max_proxy_response_bytes = 16 * 1024

-- An IPv6 literal gets brackets.
unfoldable pub authority : Text → ℕ → Text
authority host port =
    if any (λ c. c == b':') host && not (starts_with b'[' host)
    then b'[' ∷ (host ++ (b']' ∷ b':' ∷ decimal port))
    else host ++ (b':' ∷ decimal port)

abbrev pub blank_line : Bytes
blank_line = codes "\r\n\r\n"

-- `response.ends_with(b"\r\n\r\n")`.
unfoldable pub is_complete : Bytes → Bool
unfolding text_eq
is_complete response = text_eq (drop (length response - 4) response) blank_line

abbrev pub too_long : SshError
too_long = ssh_error proxy (codes "HTTP CONNECT proxy response exceeded the size limit")

abbrev pub not_utf8 : SshError
not_utf8 = ssh_error proxy (codes "HTTP CONNECT proxy response was not valid UTF-8")

abbrev pub response_text : Bytes → Result Text SshError
response_text response = elim (decode response) [ none ↦ err not_utf8 | some t ↦ ok t ]

-- The `while` loop on the bytes that are still to come, `response` being those that were read.
unfoldable pub headers_from : SshError → Bytes → Bytes → Result Text SshError × Bytes
unfolding is_complete
headers_from fault response [] =
    (err (if ltb (length response) max_proxy_response_bytes then fault else too_long), [])
headers_from fault response (byte ∷ rest) =
    let response' = response ++ byte ∷ [] in
    let later = headers_from fault response' rest in
    if not (ltb (length response) max_proxy_response_bytes)
    then (err too_long, byte ∷ rest)
    else if is_complete response'
    then (response_text response', rest)
    else later

unfoldable pub read_headers : M Text
unfolding headers_from
read_headers s =
    let (result, rest) = headers_from (io_error s) [] s.incoming in
    (result, record s { incoming = rest })

abbrev pub half_credentials : SshError
half_credentials =
    ssh_error configuration
      (codes "HTTP CONNECT proxy authentication requires both username and password")

abbrev pub invalid_response : SshError
invalid_response = ssh_error proxy (codes "HTTP CONNECT proxy returned an invalid response")

abbrev pub rejected_credentials : SshError
rejected_credentials =
    ssh_error proxy_authentication (codes "HTTP CONNECT proxy rejected authentication")

abbrev pub bad_status : ℕ → SshError
bad_status status = ssh_error proxy (codes "HTTP CONNECT proxy returned status " ++ decimal status)

-- The second word of the status line, as a `u16`.
unfoldable pub status_of : Text → Option ℕ
unfolding first_line split_ascii_whitespace parse_unsigned
status_of response =
    and_then (get_elem? (split_ascii_whitespace (first_line response)) 1) (parse_unsigned 65535)

unfoldable pub check_status : Option ℕ → Result (Unit {0}) SshError
check_status none = err invalid_response
check_status (some status) =
    if within 200 299 status
    then ok tt
    else if status == 407
    then err rejected_credentials
    else err (bad_status status)

abbrev pub crlf : Text
crlf = codes "\r\n"

module _ (base64 : Bytes → Text) where
  -- The header with the credentials.
  abbrev pub authorization : Option Text → Option Text → Result Text SshError
  authorization (some username) (some password) = ok (
      codes "Proxy-Authorization: Basic "
      ++ (base64 (encode (username ++ (b':' ∷ password))) ++ crlf))
  authorization none none = ok []
  authorization _ _ = err half_credentials

  abbrev pub connect_text : ConnectionProfile → Text → Text
  connect_text endpoint credentials =
      let target = authority endpoint.host endpoint.port in
      codes "CONNECT "
      ++ (target
          ++ (codes " HTTP/1.1\r\nHost: "
              ++ (target
                  ++ (codes "\r\nProxy-Connection: Keep-Alive\r\n" ++ (credentials ++ crlf)))))

  check_response : Text → M (Unit {0})
  unfolding check_status status_of
  check_response response s = (check_status (status_of response), s)

  send_connect : ConnectionProfile → Result Text SshError → M (Unit {0})
  unfolding write_all read_headers encode check_response
  send_connect endpoint (err e) s = (err e, s)
  send_connect endpoint (ok credentials) s =
      (do
        write_all (encode (connect_text endpoint credentials))
        response ← read_headers
        check_response response)
        s

  -- `open_http_connect` on the connected stream.
  unfoldable pub open_http_connect : Option Text → Option Text → ConnectionProfile → M (Unit {0})
  unfolding send_connect
  open_http_connect username password endpoint =
      send_connect endpoint (authorization username password)
