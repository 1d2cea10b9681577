-- ===== src/Dns/Resolved.antt =====
-- internal/dns/resolved_properties.go and internal/dns/discovery_linux.go: the groups that
-- systemd-resolved reports. What a D-Bus call returns, and the decoding of a variant by `dbus.Store`
-- and by type assertions, are parameters.
pub mod Policy
use utlsproxy.Common.{
  ℕ, Bool, true, false, ◌&&◌, ◌||◌, not, List, [], ◌∷◌, ◌++◌, ◌+◌, ◌*◌, Option, none, some,
  if◌then◌else◌, ◌==◌, nat_eq, list_eq, length, map, filter,
}
use utlsproxy.Common.Int.{ℤ, pos, int_eq}
use utlsproxy.Common.Map.{Map, lookup}
use utlsproxy.Common.Outcome.{Result, ok, err, ◌>>=◌}
use utlsproxy.Common.Text.{Bytes, codes, to_lower}
use utlsproxy.Dns.Discovery.{
  DiscoveryError, system, mandatory_dns_over_tls, interfaces_failed, get_link, read_link, in_link,
}
use utlsproxy.Dns.Group.{Group, Discovery}
use utlsproxy.Dns.Scutil.{join_host_port}
use utlsproxy.Netip.{addr_string}

-- A server of the properties DNS and DNSEx; the first has port 0 here. A link's has no index.
pub record Server : Type 0 where
  pub index : ℤ
  pub family : ℤ
  pub address : Bytes
  pub port : ℕ

pub record Domain : Type 0 where
  pub index : ℤ
  pub name : Bytes
  pub route_only : Bool

-- what a variant holds: the texts and truth values, and what it decodes to
pub record Decoding (V : Type 0) : Type 0 where
  pub is_yes : V → Bool
  pub as_bool : V → Bool
  pub servers_ex : V → Result Bytes (List Server)
  pub servers_plain : V → Result Bytes (List Server)
  pub domains : V → Result Bytes (List Domain)

abbrev pub stored : {A : Type 0} → Result Bytes A → Result DiscoveryError A
stored (err e) = err (system e)
stored (ok a) = ok a

unfoldable pub is_ipv4 : Server → Bool
is_ipv4 s = s.family == pos 2 && length s.address == 4

-- the value of four bytes, and the text of `net.IP`
unfoldable pub big_endian : Bytes → ℕ
big_endian (a ∷ b ∷ c ∷ d ∷ []) = ((a * 256 + b) * 256 + c) * 256 + d
big_endian _ = 0

unfoldable pub server_text : Server → Bytes
server_text s =
    join_host_port (addr_string (big_endian s.address)) (if s.port == 0 then 53 else s.port)

module _ {V : Type 0} (D : Decoding V) where
  abbrev Props : Type 0
  Props = Map Bytes V

  -- the servers of the property DNSEx, or else those of DNS
  abbrev servers_or : Option V → Option V → Result DiscoveryError (List Server)
  servers_or (some v) plain = stored (D.servers_ex v)
  servers_or none (some v) = stored (D.servers_plain v)
  servers_or none none = ok []

  unfoldable pub servers_of : Props → Result DiscoveryError (List Server)
  servers_of props = servers_or (lookup (codes "DNSEx") props) (lookup (codes "DNS") props)

  abbrev domains_or : Option V → Result DiscoveryError (List Domain)
  domains_or none = ok []
  domains_or (some v) = stored (D.domains v)

  unfoldable pub domains_of : Props → Result DiscoveryError (List Domain)
  domains_of props = domains_or (lookup (codes "Domains") props)

  -- `managerGroup`
  unfoldable pub manager_group : Props → Result DiscoveryError Group
  manager_group props = do
    servers ← servers_of props
    domains ← domains_of props
    ok (record {
      servers = map server_text (filter (λ s. s.index == pos 0 && is_ipv4 s) servers);
      domains = map (λ d. to_lower d.name) (filter (λ d. d.index == pos 0) domains);
      iface = pos 0;
      priority = pos 0;
      default = true;
    })

  abbrev yes_at : Option V → Bool
  yes_at none = false
  yes_at (some v) = D.is_yes v

  -- the property DNSOverTLS is the text "yes"
  unfoldable pub is_mandatory : Props → Bool
  is_mandatory props = yes_at (lookup (codes "DNSOverTLS") props)

  abbrev pub true_at : Option V → Bool
  true_at none = false
  true_at (some v) = D.as_bool v

  -- `linkGroup`
  unfoldable pub link_group : Props → ℤ → Result DiscoveryError Group
  link_group props index =
      if is_mandatory props
      then err mandatory_dns_over_tls
      else (servers_of props >>= λ servers. domains_of props >>= λ domains. ok (record {
        servers = map server_text (filter is_ipv4 servers);
        domains = map (λ (d : Domain). d.name) domains;
        iface = index;
        priority = pos 0;
        default = true_at (lookup (codes "DefaultRoute") props);
      }))

-- A network interface.
pub record Link : Type 0 where
  pub index : ℤ
  pub name : Bytes

-- the errors of a D-Bus call
pub data CallError : Type 0 where
  no_such_link : CallError
  other : Bytes → CallError

-- The calls that the discovery makes: the properties of the manager, the path of a link, the
-- properties at that path, and the list of interfaces.
pub record Bus (V : Type 0) : Type 0 where
  pub manager : Result Bytes (Map Bytes V)
  pub link_path : ℤ → Result CallError Bytes
  pub link_properties : Bytes → Result Bytes (Map Bytes V)
  pub interfaces : Result Bytes (List Link)

unfoldable pub has_content : Group → Bool
has_content g = not (g.servers == []) || not (g.domains == [])

-- a group is put behind those before it unless it is empty
abbrev pub put_group : Group → List Group → List Group
put_group g rest = if has_content g then g ∷ rest else rest

abbrev pub put_found : Option Group → List Group → List Group
put_found none rest = rest
put_found (some g) rest = put_group g rest

abbrev named : {A : Type 0} → Bytes → Result DiscoveryError A → Result DiscoveryError A
named name (err e) = err (in_link name e)
named name (ok a) = ok a

abbrev interfaces_of : Result Bytes (List Link) → Result DiscoveryError (List Link)
interfaces_of (err e) = err (interfaces_failed e)
interfaces_of (ok ls) = ok ls

module _ {V : Type 0} (D : Decoding V) (B : Bus V) where
  abbrev read_properties : Link → Result Bytes (Map Bytes V) → Result DiscoveryError Group
  read_properties l (err e) = err (read_link l.name e)
  read_properties l (ok p) = named l.name (link_group D p l.index)

  -- the group of a link; none where the link is not tracked
  abbrev pub visit_path : Link → Result CallError Bytes → Result DiscoveryError (Option Group)
  visit_path l (err no_such_link) = ok none
  visit_path l (err (other e)) = err (get_link l.name e)
  visit_path l (ok path) = read_properties l (B.link_properties path) >>= λ g. ok (some g)

  unfoldable pub visit_link : Link → Result DiscoveryError (Option Group)
  visit_link l = visit_path l (B.link_path l.index)

  -- the loop over the links
  unfoldable pub visit_links : List Link → Result DiscoveryError (List Group)
  visit_links [] = ok []
  visit_links (l ∷ ls) =
      let rest = visit_links ls in visit_link l >>= λ found. rest >>= λ gs. ok (put_found found gs)

  -- `resolvedDiscovery`
  unfoldable pub resolved_discovery : Result DiscoveryError Discovery
  resolved_discovery = do
    props ← stored B.manager
    if is_mandatory D props
        then err mandatory_dns_over_tls
        else (manager_group D props >>= λ g. interfaces_of B.interfaces >>= λ links.
            visit_links links >>= λ gs. ok (record {
              source = codes "org.freedesktop.resolve1";
              routing = codes "domain-aware";
              groups = put_group g gs;
            }))
