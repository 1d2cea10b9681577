-- ===== src/Config.antt =====
-- internal/config/config.go: the configuration, its defaults and its validation.
pub mod Domain
pub mod Validate
pub mod Access
use utlsproxy.Common.{
  ℕ, ◌*◌, Bool, List, [], ◌∷◌, String, ◌&&◌, ◌||◌, not, ◌==◌, nat_eq, string_eq, list_eq,
}
use utlsproxy.Common.Int.{ℤ, pos, int_eq}
use utlsproxy.Common.Text.{Bytes, codes}

-- Durations are in nanoseconds.
pub record Dns : Type 0 where
  pub mode : String
  pub servers : List Bytes
  pub refresh_interval : ℤ
  pub timeout : ℤ
  pub cache_size : ℤ

pub record Upstream : Type 0 where
  pub port : ℤ
  pub profile : String
  pub alpn_mode : String

pub record Ca : Type 0 where
  pub cert : Bytes
  pub key : Bytes

pub record Runtime : Type 0 where
  pub state_dir : Bytes
  pub control_socket : Bytes
  pub max_connections : ℤ
  pub handshake_timeout : ℤ
  pub idle_timeout : ℤ
  pub shutdown_timeout : ℤ

pub record Log : Type 0 where
  pub level : String
  pub format : String

pub record Config : Type 0 where
  pub version : ℤ
  pub listen : List Bytes
  pub domains : List Bytes
  pub upstream : Upstream
  pub dns : Dns
  pub ca : Ca
  -- hosts.address
  pub address : Bytes
  -- access.client_cidrs
  pub client_cidrs : List Bytes
  pub runtime : Runtime
  pub log : Log

abbrev pub second : ℕ
second = 1_000_000_000

-- `Defaults`, with the paths of `PlatformPaths` on a system other than macOS
abbrev pub defaults : Config
defaults = record {
  version = pos 1;
  listen = codes "127.0.0.1:443" ∷ [];
  domains = codes "tls.peet.ws" ∷ [];
  upstream = record { port = pos 443; profile = "chrome-133"; alpn_mode = "compatible" };
  dns = record {
    mode = "auto";
    servers = [];
    refresh_interval = pos (30 * second);
    timeout = pos (3 * second);
    cache_size = pos 1024;
  };
  ca = record {
    cert = codes "/var/lib/utlsproxy/ca/ca.crt";
    key = codes "/var/lib/utlsproxy/ca/ca.key";
  };
  address = codes "127.0.0.1";
  client_cidrs = codes "127.0.0.0/8" ∷ [];
  runtime = record {
    state_dir = codes "/var/lib/utlsproxy";
    control_socket = codes "/var/run/utlsproxy/control.sock";
    max_connections = pos 1024;
    handshake_timeout = pos (15 * second);
    idle_timeout = pos (300 * second);
    shutdown_timeout = pos (10 * second);
  };
  log = record { level = "info"; format = "json" };
}

-- `RestartRequired`
unfoldable pub restart_required : Config → Config → Bool
restart_required a b =
    not (a.listen == b.listen)
    || not (a.upstream.port == b.upstream.port)
    || not (a.ca.cert == b.ca.cert && a.ca.key == b.ca.key)
    || not (a.runtime.state_dir == b.runtime.state_dir)
    || not (a.runtime.control_socket == b.runtime.control_socket)
    || not (a.log.format == b.log.format)
