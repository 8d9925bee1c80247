-- ===== src/Core/Profile.antt =====
-- crates/remcmd-core/src/lib.rs: `ConnectionProfile` and the types of its fields. Paths are texts.
use rem_cmd.Prelude.{ℕ, Bool, ◌&&◌, Option, none, List, [], ◌∷◌, ◌++◌, is_none, is_empty}
use rem_cmd.Prelude.Text.{Text, decimal}

pub data AuthConfig : Type 0 where
  password : AuthConfig
  no_auth : AuthConfig
  private_key : Text → AuthConfig
  agent : AuthConfig

pub data ProxyConfig : Type 0 where
  http_connect : Text → ℕ → Option Text → ProxyConfig
  socks5 : Text → ℕ → Option Text → ProxyConfig
  proxy_command : Text → Option Text → ProxyConfig

pub record ConnectionRoute : Type 0 where
  pub upstream_proxy : Option ProxyConfig
  pub jump_host_ids : List Text

abbrev pub default_route : ConnectionRoute
default_route = record { upstream_proxy = none; jump_host_ids = [] }

unfoldable pub is_direct : ConnectionRoute → Bool
is_direct r = is_none r.upstream_proxy && is_empty r.jump_host_ids

-- `OpenSsh`: root path, alias and digest of the last import.
pub data ProfileSource : Type 0 where
  open_ssh : Text → Text → Text → ProfileSource

pub record ConnectionProfile : Type 0 where
  pub id : Text
  pub name : Text
  pub host : Text
  pub port : ℕ
  pub username : Text
  pub auth : AuthConfig
  pub route : ConnectionRoute
  pub source : Option ProfileSource

-- `ConnectionProfile::new`.
abbrev pub new_profile : Text → Text → Text → ℕ → Text → ConnectionProfile
new_profile i n h p u = record {
  id = i;
  name = n;
  host = h;
  port = p;
  username = u;
  auth = password;
  route = default_route;
  source = none;
}

unfoldable pub address : ConnectionProfile → Text
address p = p.username ++ (b'@' ∷ (p.host ++ (b':' ∷ decimal p.port)))
