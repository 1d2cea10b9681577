-- ===== src/Config/Validate.antt =====
-- internal/config/config.go: `Validate`, one function for each loop and the checks in their order.
pub mod Valid
pub mod Ranges
pub mod Endpoints
pub mod Loops
pub mod Sound
use utlsproxy.Common.{
  ℕ, ◌*◌, Bool, true, false, ◌&&◌, ◌||◌, not, List, [], ◌∷◌, Option, none, some, if◌then◌else◌,
  ◌==◌, nat_eq, string_eq, list_eq, leb, ltb, length, contains, String,
}
use utlsproxy.Common.Int.{ℤ, pos, ltb_ℤ, int_eq}
use utlsproxy.Common.Outcome.{Result, ok, err, ◌>>=◌, ◌>>◌, ensure}
use utlsproxy.Common.Text.{Bytes}
use utlsproxy.Netip.{
  Addr, addr_eq, is4, is_multicast, is_unspecified, broadcast, parse_addr, parse_prefix, Prefix,
}
use utlsproxy.Config.{Config, second}
use utlsproxy.Config.Domain.{
  ConfigError, domain, endpoint, unsupported_version, listen_count, domain_count,
  unsupported_profile, duplicate_listener, duplicate_domain, upstream_port, alpn_mode, dns_mode,
  dns_servers_mode, dns_servers_count, cache_size, no_client_cidrs, invalid_cidr, hosts_address,
  empty_path, socket_path_length, max_connections, timeout_range, refresh_interval, log_level,
  log_format,
}
use utlsproxy.Profiles

abbrev pub at_most : ℤ → ℤ → Bool
at_most a b = not (ltb_ℤ b a)

module _ (parse_v6 : Bytes → Option ℕ) where
  -- the loop over `c.Listen`, with `seen`
  unfoldable pub check_listen : List Bytes → List Bytes → Result ConfigError (Unit {0})
  check_listen seen [] = ok tt
  check_listen seen (s ∷ rest) = do
    endpoint parse_v6 s true
    ensure (not (contains seen s)) (duplicate_listener s)
    check_listen (s ∷ seen) rest

  -- the loop over `c.DNS.Servers`
  unfoldable pub check_servers : List Bytes → Result ConfigError (Unit {0})
  check_servers [] = ok tt
  check_servers (s ∷ rest) = do endpoint parse_v6 s false; check_servers rest

  unfoldable pub is_cidr : Bytes → Bool
  is_cidr s = elim (parse_prefix parse_v6 s) [ none ↦ false | some p ↦ is4 p.addr ]

  -- the loop over `c.Access.ClientCIDRs`
  unfoldable pub check_cidrs : List Bytes → Result ConfigError (Unit {0})
  check_cidrs [] = ok tt
  check_cidrs (s ∷ rest) = do ensure (is_cidr s) (invalid_cidr s); check_cidrs rest

  unfoldable pub is_hosts_address : Bytes → Bool
  is_hosts_address s = elim (parse_addr parse_v6 s) [
    | none ↦ false
    | some a ↦ is4 a && not (is_unspecified a) && not (is_multicast a) && not (a == broadcast)
  ]

  -- the loop over `c.Domains`: the normalised names
  unfoldable pub check_domains :
      (Bytes → Option Bytes) → List Bytes → List Bytes → Result ConfigError (List Bytes)
  check_domains to_ascii seen [] = ok []
  check_domains to_ascii seen (s ∷ rest) = do
    d ← domain to_ascii parse_v6 s
    ensure (not (contains seen d)) (duplicate_domain d)
    ds ← check_domains to_ascii (d ∷ seen) rest
    ok (d ∷ ds)

unfoldable pub check_paths : List Bytes → Result ConfigError (Unit {0})
check_paths [] = ok tt
check_paths (p ∷ rest) = do ensure (not (p == [])) empty_path; check_paths rest

unfoldable pub check_durations : List ℤ → Result ConfigError (Unit {0})
check_durations [] = ok tt
check_durations (d ∷ rest) = do
  ensure (not (at_most d (pos 0) || ltb_ℤ (pos (86400 * second)) d)) timeout_range
  check_durations rest

unfoldable pub known_profile : String → Result ConfigError (Unit {0})
known_profile name = elim (Profiles.get name) [ ok _ ↦ ok tt | err _ ↦ err unsupported_profile ]

module _ (to_ascii : Bytes → Option Bytes) (parse_v6 : Bytes → Option ℕ) where
  -- the checks above the loop over the listeners, up to the profile
  unfoldable pub validate_names : Config → Result ConfigError Config
  validate_names c = do
    ensure (c.version == pos 1) unsupported_version
    ensure (not (length c.listen == 0 || ltb 16 (length c.listen))) listen_count
    check_listen parse_v6 [] c.listen
    ensure (not (length c.domains == 0 || ltb 4096 (length c.domains))) domain_count
    ds ← check_domains parse_v6 to_ascii [] c.domains
    ok (record c { domains = ds })

  -- the checks of `upstream` and `dns`
  unfoldable pub validate_upstream : Config → Result ConfigError (Unit {0})
  validate_upstream c = do
    known_profile c.upstream.profile
    ensure (not (ltb_ℤ c.upstream.port (pos 1) || ltb_ℤ (pos 65535) c.upstream.port)) upstream_port
    ensure (c.upstream.alpn_mode == "strict" || c.upstream.alpn_mode == "compatible") alpn_mode
    ensure (c.dns.mode == "auto" || c.dns.mode == "manual") dns_mode
    ensure
        (not (
          (c.dns.mode == "auto" && not (length c.dns.servers == 0))
          || (c.dns.mode == "manual" && length c.dns.servers == 0)))
        dns_servers_mode
    ensure (leb (length c.dns.servers) 16) dns_servers_count
    check_servers parse_v6 c.dns.servers
    ensure (not (ltb_ℤ c.dns.cache_size (pos 0) || ltb_ℤ (pos 65536) c.dns.cache_size)) cache_size

  -- the checks from the client networks on
  unfoldable pub validate_runtime : Config → Result ConfigError (Unit {0})
  validate_runtime c = do
    ensure (not (length c.client_cidrs == 0)) no_client_cidrs
    check_cidrs parse_v6 c.client_cidrs
    ensure (is_hosts_address parse_v6 c.address) hosts_address
    check_paths (c.ca.cert ∷ c.ca.key ∷ c.runtime.state_dir ∷ c.runtime.control_socket ∷ [])
    ensure (leb (length c.runtime.control_socket) 100) socket_path_length
    ensure
        (not
          (ltb_ℤ c.runtime.max_connections (pos 1) || ltb_ℤ (pos 65536) c.runtime.max_connections))
        max_connections
    check_durations (
        c.dns.timeout ∷ c.dns.refresh_interval ∷ c.runtime.handshake_timeout
        ∷ c.runtime.idle_timeout ∷ c.runtime.shutdown_timeout ∷ [])
    ensure (not (ltb_ℤ c.dns.refresh_interval (pos second))) refresh_interval
    ensure
        (c.log.level == "debug"
          || c.log.level == "info"
          || c.log.level == "warn"
          || c.log.level == "error")
        log_level
    ensure (c.log.format == "json" || c.log.format == "text") log_format

  -- `Validate`: the configuration with its domains normalised, or the first error
  unfoldable pub validate : Config → Result ConfigError Config
  validate c = do c' ← validate_names c; validate_upstream c'; validate_runtime c'; ok c'
