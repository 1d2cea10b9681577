-- ===== src/Dns/Query.antt =====
-- internal/dns/resolver.go: the loop of a flight of `lookup` over the servers of its groups. What
-- `resolve` returns for a server and an interface is a parameter here.
pub mod Order
use utlsproxy.Common.{
  Bool, true, false, List, [], ◌∷◌, Option, none, some, if◌then◌else◌, ◌==◌, ltb, length, nat_eq, ℕ,
}
use utlsproxy.Common.Int.{ℤ}
use utlsproxy.Common.Outcome.{Result, ok, err, ◌>>=◌}
use utlsproxy.Common.Text.{Bytes}
use utlsproxy.Dns.Group.{Group}
use utlsproxy.Dns.Resolve.{ResolveError, nxdomain, no_ipv4_address}
use utlsproxy.Netip.{Addr}

pub data QueryError : Type 0 where
  of_server : ResolveError → QueryError
  no_server : QueryError

-- The variables of the loop.
pub record Tried : Type 0 where
  pub ips : List Addr
  pub ttl : ℕ
  pub last : Option ResolveError

-- `errors.As(last, &permanent)`
unfoldable pub is_permanent : ResolveError → Bool
is_permanent (nxdomain name) = true
is_permanent (no_ipv4_address name) = true
is_permanent _ = false

-- the test that ends the loop over the groups
unfoldable pub is_answered : Tried → Bool
is_answered s = elim s.last [ none ↦ ltb 0 (length s.ips) | some e ↦ false ]

-- what the inner loop does with a server's result; `rest` is its next turn
unfoldable pub after_server :
    Result ResolveError (List Addr × ℕ)
    → (Tried → Result QueryError Tried)
    → Result QueryError Tried
after_server (ok (ips, ttl)) rest = ok (record { ips = ips; ttl = ttl; last = none })
after_server (err e) rest =
    let next = rest (record { ips = []; ttl = 0; last = some e }) in
    if is_permanent e then err (of_server e) else next

unfoldable pub last_result : Option ResolveError → QueryError
last_result none = no_server
last_result (some e) = of_server e

-- the end of the flight, up to the store
unfoldable pub conclude : Tried → Result QueryError (List Addr × ℕ)
conclude s = if length s.ips == 0 then err (last_result s.last) else ok (s.ips, s.ttl)

module _ (resolve : Bytes → ℤ → Result ResolveError (List Addr × ℕ)) where
  -- the loop over `g.Servers`
  unfoldable pub query_servers : ℤ → List Bytes → Tried → Result QueryError Tried
  query_servers iface [] s = ok s
  query_servers iface (server ∷ servers) s =
      after_server (resolve server iface) (λ s'. query_servers iface servers s')

  -- the loop over the groups
  unfoldable pub query_groups : List Group → Tried → Result QueryError Tried
  query_groups [] s = ok s
  query_groups (g ∷ gs) s = query_servers g.iface g.servers s >>= λ s'.
      (let next = query_groups gs s' in if is_answered s' then ok s' else next)

  unfoldable pub query : List Group → Result QueryError (List Addr × ℕ)
  query gs = query_groups gs (record { ips = []; ttl = 0; last = none }) >>= conclude
