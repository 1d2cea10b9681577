-- ===== src/Tests/Query.antt =====
-- A flight of internal/dns at two groups: a server that fails and one that answers.
use utlsproxy.Common.{
  ◌==◌, list_eq, nat_eq, if◌then◌else◌, List, [], ◌∷◌, none, true, ◌≡◌, ◌≢◌, refl, ℕ, list_beq,
}
use utlsproxy.Common.{Bool-cases, inl, inr}
use utlsproxy.Common.Int.{ℤ, pos}
use utlsproxy.Common.Outcome.{Result, ok, err}
use utlsproxy.Common.Text.{Bytes, codes}
use utlsproxy.Dns.Group.{Group}
use utlsproxy.Dns.Query.{
  query, query_groups, query_servers, after_server, is_permanent, is_answered, conclude,
}
use utlsproxy.Dns.Query.Order.{first_decisive, all_servers, query-first_decisive}
use utlsproxy.Dns.Resolve.{ResolveError, malformed_response}
use utlsproxy.Netip.{Addr, v4}

abbrev group : Bytes → Group
group server = record {
  servers = server ∷ [];
  domains = [];
  iface = pos 2;
  priority = pos 0;
  default = true;
}

abbrev good : Bytes
good = codes "9.9.9.9:53"

abbrev groups : List Group
groups = group (codes "1.1.1.1:53") ∷ group good ∷ []

abbrev serve : Bytes → ℤ → Result ResolveError (List Addr × ℕ)
serve server iface = if server == good then ok (v4 16909060 ∷ [], 60) else err malformed_response

serves_addresses :
    (server : Bytes) (iface : ℤ) (ips : List Addr) (ttl : ℕ)
    → serve server iface ≡ ok (ips, ttl)
    → ips ≢ []
serves_addresses server iface [] ttl h e = elim (Bool-cases (server == good)) [
  | inl y ↦ cc (rw y at h)
  | inr n ↦ cc (rw n at h)
]
serves_addresses server iface (ip ∷ ips) ttl h e = cc

second_answers : query serve groups ≡ ok (v4 16909060 ∷ [], 60)
unfolding query query_groups query_servers after_server list_beq is_permanent is_answered conclude
second_answers = refl

query-first_decisive_example : query serve groups ≡ first_decisive serve (all_servers groups) none
query-first_decisive_example = query-first_decisive serve serves_addresses groups
