-- ===== src/Dns/Discovery.antt =====
-- internal/dns/discovery.go: the machine's own addresses, and the servers of a discovery that the
-- proxy may ask. The list of interface addresses is a parameter.
pub mod Usable
use utlsproxy.Common.{
  ℕ, ◌+◌, Bool, true, false, ◌&&◌, not, List, [], ◌∷◌, Option, none, some, if◌then◌else◌, ◌==◌,
  nat_eq, filter, length, map, contains,
}
use utlsproxy.Common.Outcome.{Result, ok, err}
use utlsproxy.Common.Text.{Bytes}
use utlsproxy.Dns.Group.{Group, Discovery}
use utlsproxy.Netip.{
  Addr, v4, v6, addr_eq, Prefix, is4, is_loopback, is_unspecified, is_multicast, parse_prefix,
  parse_addr_port,
}

-- the errors of the discoveries, those of the operating system by their text
pub data DiscoveryError : Type 0 where
  system : Bytes → DiscoveryError
  no_usable_upstream : DiscoveryError
  empty_interface invalid_interface invalid_port invalid_order : DiscoveryError
  line_too_long unrecognized : DiscoveryError
  mandatory_dns_over_tls : DiscoveryError
  interfaces_failed : Bytes → DiscoveryError
  -- an error about a link, under its name
  get_link read_link : Bytes → Bytes → DiscoveryError
  in_link : Bytes → DiscoveryError → DiscoveryError

abbrev pub is_upstream : List Addr → Addr → Bool
is_upstream local a =
    is4 a
    && not (is_loopback a)
    && not (is_unspecified a)
    && not (is_multicast a)
    && not (contains local a)

unfoldable pub count_servers : List Group → ℕ
count_servers [] = 0
count_servers (g ∷ gs) = length g.servers + count_servers gs

abbrev pub is_upstream_at : List Addr → Option (Addr × ℕ) → Bool
is_upstream_at local none = false
is_upstream_at local (some (a, port)) = is_upstream local a

module _ (parse_v6 : Bytes → Option ℕ) where
  abbrev own_address : Option Prefix → List Addr → List Addr
  own_address none rest = rest
  own_address (some p) rest = if is4 p.addr then p.addr ∷ rest else rest

  unfoldable pub collect_addresses : List Bytes → List Addr
  collect_addresses [] = []
  collect_addresses (a ∷ rest) = own_address (parse_prefix parse_v6 a) (collect_addresses rest)

  -- `LocalAddresses`, of what `net.InterfaceAddrs` returned; the map is its list of keys
  unfoldable pub local_addresses : Result Bytes (List Bytes) → Result DiscoveryError (List Addr)
  local_addresses (err e) = err (system e)
  local_addresses (ok addrs) = ok (collect_addresses addrs)

  -- the test of a server
  unfoldable pub is_usable : List Addr → Bytes → Bool
  is_usable local s = is_upstream_at local (parse_addr_port parse_v6 s)

  unfoldable pub usable_group : List Addr → Group → Group
  usable_group local g = record g { servers = filter (is_usable local) g.servers }

  abbrev pub usable_of :
      Result DiscoveryError (List Addr) → Discovery → Result DiscoveryError Discovery
  usable_of (err e) d = err e
  usable_of (ok local) d =
      let groups = map (usable_group local) d.groups in
      if count_servers groups == 0
      then err no_usable_upstream
      else ok (record d { groups = groups })

  -- `usable`
  unfoldable pub usable : Result Bytes (List Bytes) → Discovery → Result DiscoveryError Discovery
  usable addrs d = usable_of (local_addresses addrs) d
