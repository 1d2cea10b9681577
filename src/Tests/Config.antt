-- ===== src/Tests/Config.antt =====
-- The configuration of internal/config: the defaults are valid.
use utlsproxy.Common.{ℕ, Option, some, none, ◌≡◌, refl, list_beq, contains}
use utlsproxy.Common.Text.{Bytes, codes, to_lower, trim_suffix, split}
use utlsproxy.Common.Outcome.{ok}
use utlsproxy.Config.{defaults}
use utlsproxy.Config.Domain.{
  domain, endpoint, all_labels, is_label, label_bytes, is_label_byte, last_byte,
}
use utlsproxy.Config.Domain.Laws.{IsHostname, domain-IsHostname}
use utlsproxy.Config.Validate.{
  validate, validate_names, validate_upstream, validate_runtime, check_listen, check_domains,
  check_servers, check_cidrs, is_cidr, is_hosts_address, check_paths, check_durations,
  known_profile,
}
use utlsproxy.Config.Validate.Valid.{ValidNames, ValidUpstream, ValidRuntime}
use utlsproxy.Config.Validate.Sound.{validate-Valid}
use utlsproxy.Netip.{parse_addr, parse_addr_port, parse_prefix, is_multicast, is_unspecified}
use utlsproxy.Profiles

abbrev no_v6 : Bytes → Option ℕ
no_v6 s = none

abbrev as_is : Bytes → Option Bytes
as_is s = some s

domain_upper : domain as_is no_v6 (codes "TLS.Peet.ws.") ≡ ok (codes "tls.peet.ws")
unfolding domain to_lower trim_suffix split parse_addr all_labels is_label label_bytes is_label_byte
    last_byte
domain_upper = refl

domain-IsHostname_example :
    IsHostname no_v6 (codes "tls.peet.ws")
    × (domain as_is no_v6 (codes "tls.peet.ws") ≡ ok (codes "tls.peet.ws"))
domain-IsHostname_example =
    domain-IsHostname as_is no_v6 (λ s a e. refl) (codes "TLS.Peet.ws.") (codes "tls.peet.ws")
      domain_upper

defaults_accepted : validate as_is no_v6 defaults ≡ ok defaults
unfolding validate validate_names validate_upstream validate_runtime check_listen check_domains
    check_servers check_cidrs is_cidr is_hosts_address check_paths check_durations known_profile
    domain endpoint to_lower trim_suffix split parse_addr all_labels is_label label_bytes
    is_label_byte last_byte list_beq contains parse_prefix parse_addr_port Profiles.get is_multicast
    is_unspecified
defaults_accepted = refl

validate-Valid_example :
    ValidNames no_v6 defaults
    × ValidUpstream no_v6 defaults
    × ValidRuntime no_v6 defaults
    × (defaults ≡ record defaults { domains = defaults.domains })
    × (validate as_is no_v6 defaults ≡ ok defaults)
validate-Valid_example =
    validate-Valid as_is no_v6 (λ s a e. refl) defaults defaults defaults_accepted
