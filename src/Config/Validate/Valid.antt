-- ===== src/Config/Validate/Valid.antt =====
-- The ranges of an accepted configuration, for `Validate` of internal/config/config.go.
use utlsproxy.Common.{nat_eq, list_eq, string_eq}
use utlsproxy.Config.Domain.Laws.{IsHostname}
use utlsproxy.Common.{
  ℕ, ◌≤◌, ◌≡◌, ◌≢◌, ◌⊎◌, true, false, List, [], ◌∷◌, Option, length, contains, Bool, list_eq,
  nat_eq, string_eq, All,
}
use utlsproxy.Common.Int.{ℤ, pos, ◌≤ℤ◌, int_eq}
use utlsproxy.Common.Text.{Bytes}
use utlsproxy.Common.Outcome.{ok}
use utlsproxy.Config.{Config, second}
use utlsproxy.Common.{◌/◌, ◌^◌, some}
use utlsproxy.Netip.{v4, parse_addr_port}
use utlsproxy.Config.Validate.{endpoint, is_cidr, is_hosts_address}

-- No element stands twice.
abbrev pub Distinct : List Bytes → Type 0
Distinct [] = Unit
Distinct (x ∷ xs) = (contains xs x ≡ false) × Distinct xs

abbrev pub InRange : ℤ → ℤ → ℤ → Type 0
InRange lo hi x = (◌≤ℤ◌ lo x) × (◌≤ℤ◌ x hi)

-- An IPv4 address that is no multicast or broadcast one; a listener's may be unspecified.
abbrev pub IsUnicast : Bool → ℕ → Type 0
IsUnicast listener n = (n / 2 ^ 28 ≢ 14) × (n ≢ 4294967295) × ((listener ≡ true) ⊎ (n ≢ 0))

-- what `Endpoint` accepts: an IPv4 address and a port, other than 0
abbrev pub IsEndpoint : (Bytes → Option ℕ) → Bool → Bytes → Type 0
IsEndpoint parse_v6 listener s =
    (endpoint parse_v6 s listener ≡ ok tt)
    × ((n port : ℕ) × (parse_addr_port parse_v6 s ≡ some (v4 n, port))
        × (1 ≤ port)
        × IsUnicast listener n)

pub record ValidUpstream (parse_v6 : Bytes → Option ℕ) (c : Config) : Type 0 where
  pub profile : (c.upstream.profile ≡ "chrome-133") ⊎ (c.upstream.profile ≡ "firefox-120")
  pub port : InRange (pos 1) (pos 65535) c.upstream.port
  pub alpn_mode : (c.upstream.alpn_mode ≡ "strict") ⊎ (c.upstream.alpn_mode ≡ "compatible")
  pub dns_mode :
      ((c.dns.mode ≡ "auto") × (c.dns.servers ≡ []))
      ⊎ ((c.dns.mode ≡ "manual") × (c.dns.servers ≢ []))
  pub servers_count : length c.dns.servers ≤ 16
  pub servers : All (IsEndpoint parse_v6 false) c.dns.servers
  pub cache_size : InRange (pos 0) (pos 65536) c.dns.cache_size

pub record ValidNames (parse_v6 : Bytes → Option ℕ) (c : Config) : Type 0 where
  pub version : c.version ≡ pos 1
  pub listen_count : (1 ≤ length c.listen) × (length c.listen ≤ 16)
  pub listen : All (IsEndpoint parse_v6 true) c.listen × Distinct c.listen
  pub domain_count : (1 ≤ length c.domains) × (length c.domains ≤ 4096)
  pub domains : All (IsHostname parse_v6) c.domains × Distinct c.domains

pub record ValidRuntime (parse_v6 : Bytes → Option ℕ) (c : Config) : Type 0 where
  pub client_cidrs : (c.client_cidrs ≢ []) × All (λ s. is_cidr parse_v6 s ≡ true) c.client_cidrs
  pub address : is_hosts_address parse_v6 c.address ≡ true
  pub cert : c.ca.cert ≢ []
  pub key : c.ca.key ≢ []
  pub state_dir : c.runtime.state_dir ≢ []
  pub control_socket : (c.runtime.control_socket ≢ []) × (length c.runtime.control_socket ≤ 100)
  pub max_connections : InRange (pos 1) (pos 65536) c.runtime.max_connections
  pub timeout : InRange (pos 1) (pos 86_400_000_000_000) c.dns.timeout
  pub refresh_interval : InRange (pos second) (pos 86_400_000_000_000) c.dns.refresh_interval
  pub handshake_timeout : InRange (pos 1) (pos 86_400_000_000_000) c.runtime.handshake_timeout
  pub idle_timeout : InRange (pos 1) (pos 86_400_000_000_000) c.runtime.idle_timeout
  pub shutdown_timeout : InRange (pos 1) (pos 86_400_000_000_000) c.runtime.shutdown_timeout
  pub level :
      (c.log.level ≡ "debug")
      ⊎ (c.log.level ≡ "info")
      ⊎ (c.log.level ≡ "warn")
      ⊎ (c.log.level ≡ "error")
  pub format : (c.log.format ≡ "json") ⊎ (c.log.format ≡ "text")
