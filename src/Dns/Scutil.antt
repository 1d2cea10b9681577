-- ===== src/Dns/Scutil.antt =====
-- internal/dns/discovery.go: the groups in the text that `scutil --dns` prints.
pub mod Sound
use utlsproxy.Common.{
  ℕ, Bool, true, false, ◌&&◌, ◌||◌, not, List, [], ◌∷◌, ◌++◌, ◌-◌, Option, none, some,
  if◌then◌else◌, ◌==◌, nat_eq, list_eq, length, map, leb, ltb,
}
use utlsproxy.Common.Int.{ℤ, pos, negsuc}
use utlsproxy.Common.Outcome.{Result, ok, err}
use utlsproxy.Common.Text.{
  Bytes, codes, has_prefix, trim_suffix, to_lower, trim_space, split, contains_text, cut, fields,
  itoa,
}
use utlsproxy.Dns.Discovery.{
  DiscoveryError, empty_interface, invalid_interface, invalid_port, invalid_order, line_too_long,
  unrecognized,
}
use utlsproxy.Dns.Group.{group_eq, Group, Discovery}
use utlsproxy.Netip.{Addr, v4, v6, parse_addr, addr_string, decimal}

-- `strconv.Atoi`: a sign and digits, within 64 bits
abbrev bounded_pos : Option ℕ → Option ℤ
bounded_pos none = none
bounded_pos (some n) = if leb n 9223372036854775807 then some (pos n) else none

abbrev bounded_neg : Option ℕ → Option ℤ
bounded_neg none = none
bounded_neg (some n) =
    if n == 0
    then some (pos 0)
    else if leb n 9223372036854775808
    then some (negsuc (n - 1))
    else none

unfoldable pub atoi : Bytes → Option ℤ
atoi [] = none
atoi (c ∷ s) =
    if c == b'-'
    then bounded_neg (decimal s)
    else if c == b'+'
    then bounded_pos (decimal s)
    else bounded_pos (decimal (c ∷ s))

-- `net.JoinHostPort` of an IPv4 address
unfoldable pub join_host_port : Bytes → ℕ → Bytes
join_host_port host port = host ++ b':' ∷ itoa port

-- The variables of the loop; `group` is the record that `g` points to.
pub record Scan : Type 0 where
  pub group : Option Group
  pub mdns : Bool
  pub port : ℕ
  pub seen_header : Bool
  pub groups : List Group

abbrev pub with_ports : ℕ → Group → Group
with_ports port g = record g {
  servers = map (λ s. join_host_port s port) g.servers;
  default = g.domains == [];
}

abbrev pub completed : Scan → Option Group → List Group
completed s none = s.groups
completed s (some g) = if s.mdns then s.groups else s.groups ++ with_ports s.port g ∷ []

-- `flush`
unfoldable pub flush : Scan → Scan
flush s = record s { group = none; mdns = false; port = 53; groups = completed s s.group }

-- How one line ends: the loop goes on, breaks, or returns an error.
pub data Line : Type 0 where
  go : Scan → Line
  break : Line
  fail : DiscoveryError → Line

abbrev empty_group : Group
empty_group = record {
  servers = [];
  domains = [];
  iface = pos 0;
  priority = pos 0;
  default = false;
}

-- the cases of the switch, each for the group under construction
module _ (s : Scan) (g : Group) where
  abbrev pub with_group : Group → Line
  with_group h = go (record s { group = some h })

  abbrev pub add_nameserver : Option Addr → Line
  add_nameserver (some (v4 n)) = with_group (record g { servers = g.servers ++ addr_string n ∷ [] })
  add_nameserver _ = go s

  abbrev pub set_interface_to : Option ℤ → Line
  set_interface_to none = fail invalid_interface
  set_interface_to (some n) = with_group (record g { iface = n })

  abbrev pub set_interface : List Bytes → Line
  set_interface [] = fail empty_interface
  set_interface (p ∷ ps) = set_interface_to (atoi p)

  abbrev pub set_port : Option ℤ → Line
  set_port (some (pos n)) =
      if leb 1 n && leb n 65535 then go (record s { port = n }) else fail invalid_port
  set_port _ = fail invalid_port

  abbrev pub set_order : Option ℤ → Line
  set_order none = fail invalid_order
  set_order (some n) = with_group (record g { priority = n })

module _ (parse_v6 : Bytes → Option ℕ) where
  unfoldable pub set_key : Scan → Group → Bytes → Bytes → Line
  set_key s g key value =
      if has_prefix key (codes "nameserver[")
      then add_nameserver s g (parse_addr parse_v6 value)
      else if key == codes "domain"
      then with_group s g
          (record g { domains = g.domains ++ trim_suffix (to_lower value) (b'.' ∷ []) ∷ [] })
      else if key == codes "if_index"
      then set_interface s g (fields value)
      else if key == codes "port"
      then set_port s g (atoi value)
      else if key == codes "order"
      then set_order s g (atoi value)
      else if key == codes "options" && contains_text value (codes "mdns")
      then go (record s { mdns = true })
      else go s

  abbrev pub read_entry : Scan → Group → Option (Bytes × Bytes) → Line
  read_entry s g none = go s
  read_entry s g (some (key, value)) = set_key s g (trim_space key) (trim_space value)

  abbrev pub in_group : Scan → Option Group → Bytes → Line
  in_group s none line = go s
  in_group s (some g) line = read_entry s g (cut line b':')

  -- the body of the loop
  unfoldable pub read_line : Scan → Bytes → Line
  read_line s line =
      if has_prefix line (codes "DNS configuration (for scoped queries)")
      then break
      else if has_prefix line (codes "resolver #")
      then go (record (flush s) { group = some empty_group; seen_header = true })
      else in_group s s.group line

  abbrev pub finish : Scan → Result DiscoveryError (List Group)
  finish s =
      if not s.seen_header || (flush s).groups == [] then err unrecognized else ok (flush s).groups

  abbrev pub read_on :
      Scan → (Scan → Result DiscoveryError (List Group)) → Line → Result DiscoveryError (List Group)
  read_on s next (go t) = next t
  read_on s next break = finish s
  read_on s next (fail e) = err e

  -- The rest of the text, by lines. A line with no room in the buffer of 1 MiB ends the scan.
  unfoldable pub read_lines : Scan → List Bytes → Result DiscoveryError (List Group)
  read_lines s [] = finish s
  read_lines s (l ∷ ls) =
      let next = λ (t : Scan). read_lines t ls in
      if leb 1048576 (length l)
      then err line_too_long
      else read_on s next (read_line s (trim_space l))

  abbrev pub start : Scan
  start = record { group = none; mdns = false; port = 53; seen_header = false; groups = [] }

  -- the groups of a discovery from scutil
  abbrev pub scutil_discovery : Result DiscoveryError (List Group) → Result DiscoveryError Discovery
  scutil_discovery (err e) = err e
  scutil_discovery (ok gs) =
      ok (record { source = codes "scutil --dns"; routing = codes "domain-aware"; groups = gs })

  -- `ParseScutil`
  unfoldable pub parse_scutil : Bytes → Result DiscoveryError Discovery
  parse_scutil text = scutil_discovery (read_lines start (split text b'\n'))
