-- ===== src/Config/Domain.antt =====
-- internal/config/config.go: `Domain` and `Endpoint`. The conversion to ASCII of the package `idna` is
-- a parameter, and so is the reading of IPv6 addresses.
pub mod Labels
pub mod Laws
use utlsproxy.Common.{
  ℕ, Bool, true, false, ◌&&◌, ◌||◌, not, List, [], ◌∷◌, Option, none, some, if◌then◌else◌, ◌==◌,
  nat_eq, list_eq, leb, ltb, length,
}
use utlsproxy.Common.Outcome.{Result, ok, err}
use utlsproxy.Common.Text.{Bytes, split, to_lower, trim_suffix}
use utlsproxy.Netip.{
  Addr, addr_eq, is4, is_multicast, is_unspecified, broadcast, parse_addr, parse_addr_port,
}

-- The errors that validation returns.
pub data ConfigError : Type 0 where
  not_ascii invalid_domain_length ip_literal : ConfigError
  invalid_domain : Bytes → ConfigError
  expected_ipv4_port invalid_endpoint : Bytes → ConfigError
  unsupported_version listen_count domain_count unsupported_profile : ConfigError
  duplicate_listener duplicate_domain : Bytes → ConfigError
  upstream_port alpn_mode dns_mode dns_servers_mode dns_servers_count cache_size : ConfigError
  no_client_cidrs : ConfigError
  invalid_cidr : Bytes → ConfigError
  hosts_address empty_path socket_path_length max_connections timeout_range : ConfigError
  refresh_interval log_level log_format : ConfigError

unfoldable pub is_label_byte : ℕ → Bool
is_label_byte ch = (leb b'a' ch && leb ch b'z') || (leb b'0' ch && leb ch b'9') || ch == b'-'

unfoldable pub label_bytes : Bytes → Bool
label_bytes [] = true
label_bytes (ch ∷ s) = is_label_byte ch && label_bytes s

unfoldable pub last_byte : ℕ → Bytes → ℕ
last_byte c [] = c
last_byte c (d ∷ s) = last_byte d s

-- the tests on one label
unfoldable pub is_label : Bytes → Bool
is_label [] = false
is_label (c ∷ s) =
    leb (length (c ∷ s)) 63 && not (c == b'-') && not (last_byte c s == b'-') && label_bytes (c ∷ s)

unfoldable pub all_labels : List Bytes → Bool
all_labels [] = true
all_labels (l ∷ ls) = is_label l && all_labels ls

module _ (to_ascii : Bytes → Option Bytes) (parse_v6 : Bytes → Option ℕ) where
  check_ascii : Bytes → Option Bytes → Result ConfigError Bytes
  check_ascii s none = err not_ascii
  check_ascii s (some a) =
      if length a == 0 || ltb 253 (length a)
      then err invalid_domain_length
      else elim (parse_addr parse_v6 a) [
        | some _ ↦ err ip_literal
        | none ↦ if all_labels (split a b'.') then ok a else err (invalid_domain s)
      ]

  -- `Domain`
  unfoldable pub domain : Bytes → Result ConfigError Bytes
  unfolding check_ascii
  domain s = let t = trim_suffix (to_lower s) (b'.' ∷ []) in check_ascii t (to_ascii t)

module _ (parse_v6 : Bytes → Option ℕ) where
  -- `Endpoint`
  unfoldable pub endpoint : Bytes → Bool → Result ConfigError (Unit {0})
  endpoint s listener = elim (parse_addr_port parse_v6 s) [
    | none ↦ err (expected_ipv4_port s)
    | some (a, port) ↦
        if not (is4 a) || port == 0
        then err (expected_ipv4_port s)
        else if is_multicast a || a == broadcast || (not listener && is_unspecified a)
        then err (invalid_endpoint s)
        else ok tt
  ]
