-- ===== src/Ssh/Proxy/Socks5.antt =====
-- proxy.rs: `open_socks5`, `authenticate_socks5` and `discard`.
pub mod Replies
use rem_cmd.Prelude.{
  ℕ, zero, suc, ◌+◌, ◌/◌, ◌%◌, Bool, true, false, not, ◌&&◌, Option, none, some, List, [], ◌∷◌,
  ◌++◌, Result, ok, err, if◌then◌else◌, ◌==◌, leb, length,
}
use rem_cmd.Prelude.Text.{Text, codes, decimal}
use rem_cmd.Prelude.Utf8.{Bytes, encode}
use rem_cmd.Core.Profile.{ConnectionProfile}
use rem_cmd.Ssh.Error.{SshError, ssh_error, proxy, proxy_authentication, configuration}
use rem_cmd.Ssh.Proxy.Stream.{Stream, M, ◌>>=◌, ◌>>◌, return, throw, write_all, read_exact}

abbrev pub bad_version : SshError
bad_version = ssh_error proxy (codes "SOCKS5 proxy returned an invalid protocol version")

abbrev pub rejected_target : ℕ → SshError
rejected_target code =
    ssh_error proxy (codes "SOCKS5 proxy rejected the target with code " ++ decimal code)

abbrev pub bad_address_type : SshError
bad_address_type = ssh_error proxy (codes "SOCKS5 proxy returned an invalid address type")

abbrev pub rejected_authentication : SshError
rejected_authentication =
    ssh_error proxy_authentication (codes "SOCKS5 proxy rejected authentication")

abbrev pub no_method : SshError
no_method =
    ssh_error proxy_authentication (codes "SOCKS5 proxy accepted no offered authentication method")

abbrev pub unsupported_method : SshError
unsupported_method =
    ssh_error proxy_authentication
      (codes "SOCKS5 proxy selected an unsupported authentication method")

abbrev pub half_credentials : SshError
half_credentials =
    ssh_error configuration (codes "SOCKS5 authentication requires both username and password")

abbrev pub long_hostname : SshError
long_hostname = ssh_error configuration (codes "SOCKS5 target hostname exceeds 255 bytes")

abbrev pub long_username : SshError
long_username = ssh_error configuration (codes "SOCKS5 username exceeds 255 bytes")

abbrev pub long_password : SshError
long_password = ssh_error configuration (codes "SOCKS5 password exceeds 255 bytes")

-- `u8::try_from(bytes.len())`.
abbrev pub byte_length : Bytes → SshError → M ℕ
byte_length bytes e = if leb (length bytes) 255 then return (length bytes) else throw e

-- `bytes[i]` of a buffer that `read_exact` has filled.
abbrev pub at : Bytes → ℕ → ℕ
at [] i = 0
at (b ∷ bs) zero = b
at (b ∷ bs) (suc i) = at bs i

unfoldable pub discard : ℕ → M (Unit {0})
unfolding read_exact
discard n = do remaining ← read_exact n; return tt

unfoldable pub authenticate_socks5 : Text → Text → M (Unit {0})
unfolding write_all read_exact encode
authenticate_socks5 username password = do
  username_length ← byte_length (encode username) long_username
  password_length ← byte_length (encode password) long_password
  write_all (1 ∷ username_length ∷ (encode username ++ (password_length ∷ encode password)))
  response ← read_exact 2
  if at response 0 == 1 && at response 1 == 0 then return tt else throw rejected_authentication

-- `(Some, Some)` is true, `(None, None)` false, and one alone an error.
abbrev pub has_credentials : Option Text → Option Text → M Bool
has_credentials (some u) (some w) = return true
has_credentials none none = return false
has_credentials _ _ = throw half_credentials

abbrev pub greeting : Bool → Bytes
greeting true = 5 ∷ 2 ∷ 0 ∷ 2 ∷ []
greeting false = 5 ∷ 1 ∷ 0 ∷ []

-- `match selection[1]`: method 2 is taken only with credentials, which are then both there.
unfoldable pub selected : ℕ → Option Text → Option Text → M (Unit {0})
unfolding authenticate_socks5
selected method (some username) (some password) =
    if method == 0
    then return tt
    else if method == 2
    then authenticate_socks5 username password
    else if method == 0xff
    then throw no_method
    else throw unsupported_method
selected method _ _ =
    if method == 0
    then return tt
    else if method == 0xff
    then throw no_method
    else throw unsupported_method

-- The CONNECT request for a domain name; `to_be_bytes` of the port.
abbrev pub connect_request : Bytes → ℕ → Bytes
connect_request host port =
    5 ∷ 1 ∷ 0 ∷ 3 ∷ length host ∷ (host ++ ((port / 256) ∷ (port % 256) ∷ []))

-- The bound address of the reply, by its type.
unfoldable pub discard_address : ℕ → M (Unit {0})
unfolding discard
discard_address kind =
    if kind == 1
    then discard (4 + 2)
    else if kind == 3
    then (read_exact 1 >>= λ size. discard (at size 0 + 2))
    else if kind == 4
    then discard (16 + 2)
    else throw bad_address_type

-- The reply to the request: version, code, reserved byte and address type.
unfoldable pub check_reply : Bytes → M (Unit {0})
unfolding discard_address
check_reply response =
    if not (at response 0 == 5)
    then throw bad_version
    else if not (at response 1 == 0)
    then throw (rejected_target (at response 1))
    else discard_address (at response 3)

unfoldable pub read_reply : M (Unit {0})
unfolding check_reply read_exact
read_reply = read_exact 4 >>= check_reply

unfoldable pub send_request : ConnectionProfile → M (Unit {0})
unfolding write_all read_reply encode
send_request endpoint =
    write_all (connect_request (encode endpoint.host) endpoint.port) >> read_reply

unfoldable pub request_target : ConnectionProfile → M (Unit {0})
unfolding send_request encode
request_target endpoint =
    byte_length (encode endpoint.host) long_hostname >>= λ _. send_request endpoint

-- The code behind the answer to the greeting.
unfoldable pub check_selection :
    Option Text → Option Text → ConnectionProfile → Bytes → M (Unit {0})
unfolding selected request_target
check_selection username password endpoint selection =
    if not (at selection 0 == 5)
    then throw bad_version
    else (selected (at selection 1) username password >> request_target endpoint)

unfoldable pub read_selection : Option Text → Option Text → ConnectionProfile → M (Unit {0})
unfolding check_selection read_exact
read_selection username password endpoint =
    read_exact 2 >>= check_selection username password endpoint

-- `open_socks5` on the connected stream.
unfoldable pub open_socks5 : Option Text → Option Text → ConnectionProfile → M (Unit {0})
unfolding write_all read_selection
open_socks5 username password endpoint = do
  credentials ← has_credentials username password
  write_all (greeting credentials)
  read_selection username password endpoint
