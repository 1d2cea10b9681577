-- ===== src/Tests/Discovery.antt =====
-- The discoveries of internal/dns at a text of scutil and at one link of systemd-resolved.
use utlsproxy.Common.{
  All, List, [], false, filter, list_beq, list_eq, nat_eq, none, refl, true, ◌++◌, ◌∷◌, ◌≡◌, ◌≢◌,
}
use utlsproxy.Common.Int.{pos}
use utlsproxy.Common.Map.{Map, lookup}
use utlsproxy.Common.Outcome.{Result, ok}
use utlsproxy.Common.Text.{
  Bytes, codes, cut, has_prefix, itoa, lower, split, to_lower, trim_space, trim_suffix,
}
use utlsproxy.Dns.Group.{Group, Discovery}
use utlsproxy.Dns.Resolved.{
  Bus, Decoding, Link, big_endian, domains_of, has_content, is_ipv4, is_mandatory, link_group,
  manager_group, resolved_discovery, server_text, servers_of, visit_link, visit_links,
}
use utlsproxy.Dns.Resolved.Policy.{resolved_discovery-permitted, Listed, Answered}
use utlsproxy.Dns.Scutil.{atoi, flush, join_host_port, parse_scutil, read_line, read_lines, set_key}
use utlsproxy.Dns.Scutil.Sound.{parse_scutil-IsSound, IsSound}
use utlsproxy.Netip.{addr_string, digits, parse_addr}

abbrev line : Bytes → Bytes
line s = s ++ b'\n' ∷ []

-- one resolver of a virtual network
abbrev text : Bytes
text =
    line (codes "resolver #1")
    ++ (line (codes "  domain : Corp.Example.")
        ++ (line (codes "  nameserver[0] : 10.0.0.1")
            ++ (line (codes "  port : 5353") ++ line (codes "  order : 101200"))))

abbrev corp : Group
corp = record {
  servers = codes "10.0.0.1:5353" ∷ [];
  domains = codes "corp.example" ∷ [];
  iface = pos 0;
  priority = pos 101200;
  default = false;
}

abbrev corp_only : Discovery
corp_only = record {
  source = codes "scutil --dns";
  routing = codes "domain-aware";
  groups = corp ∷ [];
}

corp_parses : parse_scutil (λ b. none) text ≡ ok corp_only
unfolding parse_scutil read_lines split read_line has_prefix trim_space cut set_key list_beq
    parse_addr atoi flush join_host_port trim_suffix addr_string to_lower itoa
corp_parses = refl

parse_scutil-IsSound_example : All IsSound corp_only.groups × (corp_only.groups ≢ [])
parse_scutil-IsSound_example = parse_scutil-IsSound (λ b. none) text corp_only corp_parses

-- the machine's own address
abbrev own : Result Bytes (List Bytes)
own = ok (codes "10.0.0.9/24" ∷ [])

-- a variant is a truth value here
abbrev decoding : Decoding (Unit {0})
decoding = record {
  is_yes = λ v. false;
  as_bool = λ v. true;
  servers_ex = λ v. ok [];
  servers_plain = λ v.
      ok (record { index = pos 0; family = pos 2; address = 9 ∷ 9 ∷ 9 ∷ 9 ∷ []; port = 0 } ∷ []);
  domains = λ v. ok [];
}

abbrev eth : Link
eth = record { index = pos 2; name = codes "eth0" }

abbrev bus : Bus (Unit {0})
bus = record {
  manager = ok [];
  link_path = λ i. ok (codes "/link");
  link_properties = λ p. ok ((codes "DNS", tt) ∷ []);
  interfaces = ok (eth ∷ []);
}

abbrev found : Discovery
found = record {
  source = codes "org.freedesktop.resolve1";
  routing = codes "domain-aware";
  groups =
      record {
        servers = codes "9.9.9.9:53" ∷ [];
        domains = [];
        iface = pos 2;
        priority = pos 0;
        default = false;
      }
      ∷ [];
}

found_lem : resolved_discovery decoding bus ≡ ok found
unfolding resolved_discovery is_mandatory manager_group servers_of domains_of visit_links visit_link
    link_group has_content is_ipv4 server_text big_endian join_host_port addr_string digits list_beq
    filter lookup itoa lower to_lower
found_lem = refl

resolved_discovery-permitted_example :
    (props : Map Bytes (Unit {0})) × (links : List Link) × (g : Group) × (bus.manager ≡ ok props)
    × (is_mandatory decoding props ≡ false)
    × (manager_group decoding props ≡ ok g)
    × Listed found.groups g
    × (bus.interfaces ≡ ok links)
    × All (Answered decoding bus found.groups) links
    × All (λ h. has_content h ≡ true) found.groups
resolved_discovery-permitted_example = resolved_discovery-permitted decoding bus found found_lem
