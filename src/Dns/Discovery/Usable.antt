-- ===== src/Dns/Discovery/Usable.antt =====
-- internal/dns/discovery.go: which servers a discovery keeps, and when there is none.
use utlsproxy.Common.{ℕ, Bool, true, List, Option, some, nat_eq, list_eq, contains, any, ◌≡◌, ◌↔◌}
use utlsproxy.Common.Outcome.{Result, ok, err}
use utlsproxy.Common.Text.{Bytes}
use utlsproxy.Dns.Group.{Group, Discovery}
use utlsproxy.Dns.Discovery.{DiscoveryError, no_usable_upstream, is_upstream}
use utlsproxy.Netip.{Addr, addr_eq, parse_addr_port}

-- one of the groups has the server
abbrev pub serves : List Group → Bytes → Bool
serves gs s = any (λ (g : Group). contains g.servers s) gs

module _ (parse_v6 : Bytes → Option ℕ) (local : List Addr) where
  -- the text is an address and port, of an address that is IPv4, none of the special ones, and not
  -- the machine's own
  abbrev pub Upstream : Bytes → Type 0
  Upstream s =
      (a : Addr) × (port : ℕ) × (parse_addr_port parse_v6 s ≡ some (a, port))
      × (is_upstream local a ≡ true)

  abbrev pub Kept : Discovery → Result DiscoveryError Discovery → Type 0
  Kept d (err e) =
      (e ≡ no_usable_upstream) × ((s : Bytes) → serves d.groups s ≡ true → ¬ Upstream s)
  Kept d (ok d') =
      ((s : Bytes) → (serves d'.groups s ≡ true) ↔ ((serves d.groups s ≡ true) × Upstream s))
      × ((s : Bytes) × (serves d'.groups s ≡ true))
