-- ===== src/Tests/ProxyTests.antt =====
-- ProxyCommand, SOCKS5 and HTTP CONNECT at concrete values.
use rem_cmd.Prelude.{◌≤◌, false, none, some, List, [], ◌∷◌, ◌++◌, ok, ◌≡◌, refl, arith, length}
use rem_cmd.Prelude.Text.{Text, codes, decimal}
use rem_cmd.Prelude.Utf8.{Bytes, encode, decode}
use rem_cmd.Core.Profile.{ConnectionProfile, new_profile}
use rem_cmd.Ssh.Plan.{agent, proxy_command, ConnectionPlan}
use rem_cmd.Ssh.Plan.ProxyCommand.{
  expand_proxy_command, ProxyCommandPreview, proxy_command_preview, approve_proxy_command,
}
use rem_cmd.Ssh.Plan.ProxyCommand.Expansion.{
  Piece, plain, host, port, percent, template, ReadAs, expand-ReadAs,
}
use rem_cmd.Ssh.Plan.ProxyCommand.Approval.{Approves, approve-Approves}
use rem_cmd.Ssh.Plan.ProxyCommand.Binding.{HasFields, SameUse, hash_fields-SameUse}
use rem_cmd.Ssh.Proxy.Stream.{Stream}
use rem_cmd.Ssh.Proxy.Socks5.{open_socks5, greeting}
use rem_cmd.Ssh.Proxy.Socks5.Replies.{
  ipv4, accepted, request_of, open-anonymous, credentials_unused,
}
use rem_cmd.Ssh.Proxy.Http.Status.{IsStatusLine, Decides}
use rem_cmd.Ssh.Proxy.Http.{
  connect_text, check_status, status_of, authority, open_http_connect, is_complete, read_headers,
}
use rem_cmd.Ssh.Proxy.Http.Headers.{IsHead, ReadsHead, none_shorter, read_headers-ReadsHead}
use rem_cmd.Ssh.Proxy.Http.Tunnel.{open-IsHead}

abbrev inner : ConnectionProfile
inner = new_profile (codes "t") (codes "work") (codes "h.io") 22 (codes "me")

-- `nc %h:%p%%`
abbrev netcat : List Piece
netcat = plain b'n' ∷ plain b' ' ∷ host ∷ plain b':' ∷ port ∷ percent ∷ []

netcat_written : template netcat ≡ codes "n %h:%p%%"
netcat_written = refl

expand-ReadAs_example : ReadAs inner (codes "n %h:%p%%") (codes "n h.io:22%")
unfolding expand_proxy_command decimal
expand-ReadAs_example = expand-ReadAs inner (codes "n %h:%p%%") {output = codes "n h.io:22%"} refl

-- A digest that keeps the bytes: as good as any for the tests.
abbrev keep : Bytes → Bytes
keep bytes = bytes

abbrev by_command : ConnectionPlan
by_command = record {
  proxy = some (proxy_command (codes "n") none);
  jumps = [];
  target = record { profile = inner; auth = agent };
}

-- The fields n, work, h.io, 22 and me.
abbrev shown_digest : Text
shown_digest = codes "6e00776f726b00682e696f003232006d6500"

abbrev shown : ProxyCommandPreview
shown = record { expanded_command = codes "n"; approval_digest = shown_digest; approved = false }

approve-Approves_example :
    Approves keep by_command
      (record by_command { proxy = some (proxy_command (codes "n") (some shown_digest)) })
      shown_digest
unfolding approve_proxy_command proxy_command_preview decimal
approve-Approves_example =
    approve-Approves keep by_command
      (record by_command { proxy = some (proxy_command (codes "n") (some shown_digest)) })
      shown_digest refl

inner-HasFields : HasFields inner
inner-HasFields = record {
  name = (ground arith, ground arith);
  host = (ground arith, ground arith);
  username = (ground arith, ground arith);
  port = omega arith;
}

hash_fields-SameUse_example : SameUse (codes "n") (codes "n") inner inner
hash_fields-SameUse_example =
    hash_fields-SameUse (codes "n") (codes "n") inner inner (ground arith, ground arith)
      (ground arith, ground arith) inner-HasFields inner-HasFields refl

abbrev stream_of : Bytes → Stream
stream_of bytes = record { incoming = bytes; sent = []; accepts = 1000; fault = codes "closed" }

abbrev bound : Bytes
bound = 127 ∷ 0 ∷ 0 ∷ 1 ∷ 0 ∷ 80 ∷ []

abbrev accepting : Stream
accepting = stream_of (5 ∷ 0 ∷ (accepted 0 1 bound ++ codes "SSH"))

inner_short : length (encode inner.host) ≤ 255
unfolding encode
inner_short = omega arith

open-anonymous_example : open_socks5 none none inner accepting ≡ (
  ok tt,
  record accepting { incoming = codes "SSH"; sent = greeting false ++ request_of inner },
)
unfolding encode
open-anonymous_example =
    open-anonymous inner inner_short {kind = 1} {address = bound} 0 accepting (codes "SSH")
      (omega arith) (ipv4 bound refl) refl

credentials_unused_example :
    open_socks5 (some (codes "me")) (some (codes "secret")) inner accepting
    ≡ open_socks5 (some (codes "you")) (some []) inner accepting
credentials_unused_example =
    credentials_unused inner (codes "me") (codes "secret") (codes "you") [] accepting 5 0
      (accepted 0 1 bound ++ codes "SSH") refl (omega arith)

abbrev granted : Text
granted = codes "HTTP/1.1 200 OK\r\n\r\n"

granted-IsHead : IsHead granted
unfolding is_complete none_shorter
granted-IsHead = record { complete = refl; first = refl }

abbrev answered : Stream
answered = stream_of (granted ++ codes "SSH")

read_headers-ReadsHead_example :
    ReadsHead answered.incoming granted (codes "SSH") × (answered.sent ≡ [])
unfolding decode read_headers
read_headers-ReadsHead_example =
    read_headers-ReadsHead answered (record answered { incoming = codes "SSH" }) granted refl

-- The credentials as they are: as good as any encoding for the test.
abbrev bare : Bytes → Text
bare bytes = bytes

granted_line : IsStatusLine granted 200
granted_line = record {
  first = b'H';
  version = codes "TTP/1.1";
  a = b'2';
  b = b'0';
  c = b'0';
  blank = b' ';
  rest = codes "OK\r\n\r\n";
  word = refl;
  digits = refl;
  ended = refl;
  line = refl;
  value = refl;
}

open-IsHead_example :
    Decides 200 (open_http_connect bare none none inner answered).0
    × (open_http_connect bare none none inner answered).1
      ≡ record answered { incoming = codes "SSH"; sent = encode (connect_text bare inner []) }
unfolding decode encode decimal authority
open-IsHead_example =
    open-IsHead bare none none inner answered granted (codes "SSH") [] granted 200 refl
      (omega arith) granted-IsHead (omega arith) refl granted_line refl

granted_status : check_status (status_of granted) ≡ ok tt
unfolding check_status status_of
granted_status = refl
