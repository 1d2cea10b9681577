-- ===== src/Tests/Dns.antt =====
-- The resolver of internal/dns at two groups: a virtual network's and the default one.
use utlsproxy.Common.Map.{lookup, insert}
use utlsproxy.Common.{◌<◌, ℕ}
use utlsproxy.Common.{
  true, false, List, [], ◌∷◌, none, ◌≡◌, refl, arith, any, if◌then◌else◌, list_beq,
}
use utlsproxy.Common.Int.{pos}
use utlsproxy.Common.Text.{Bytes, codes, has_suffix, to_lower}
use utlsproxy.Config.{defaults}
use utlsproxy.Dns.Group.{Group}
use utlsproxy.Dns.Select.{select, query_name, matches, score_of, route, score_domain, fall_back}
use utlsproxy.Dns.Select.Laws.{select_lem, is_routed, best_routed, first_defaults}
use utlsproxy.Dns.Select.Matching.{score_of-IsScore, IsScore}
use utlsproxy.Dns.Resolver.{
  Resolver, Found, Flight, unrefreshed, store_answer, apply_discovery, begin_lookup, hit, may_store,
  dns_beq, is_changed, expiry, use_cache,
}
use utlsproxy.Dns.Resolver.Fresh.{
  Running, Reach, here, next, look, land, apply, cached_answer, groups_now,
}
use utlsproxy.Netip.{Addr, v4}

abbrev vpn : Group
vpn = record {
  servers = codes "10.0.0.1:53" ∷ [];
  domains = codes "~corp.example" ∷ [];
  iface = pos 7;
  priority = pos 0;
  default = false;
}

abbrev public : Group
public = record {
  servers = codes "9.9.9.9:53" ∷ [];
  domains = [];
  iface = pos 2;
  priority = pos 0;
  default = true;
}

abbrev both : List Group
both = public ∷ vpn ∷ []

select_corp : select both (codes "WWW.corp.example.") ≡ vpn ∷ []
unfolding select score_of matches has_suffix route score_domain list_beq
select_corp = refl

select_other : select both (codes "mycorp.example") ≡ public ∷ []
unfolding select score_of matches has_suffix route score_domain list_beq fall_back
select_other = refl

select_lem_example : select both (codes "www.corp.example") ≡ (
    if any (is_routed (query_name (codes "www.corp.example"))) both
    then best_routed (query_name (codes "www.corp.example")) both
    else first_defaults both)
select_lem_example = select_lem both (codes "www.corp.example") (omega arith)

score_of-IsScore_example :
    IsScore (codes "www.corp.example") vpn.domains (score_of (codes "www.corp.example") vpn)
score_of-IsScore_example = score_of-IsScore (codes "www.corp.example") vpn

-- every answer of the run below is one address for 60 seconds
abbrev OneAddress : List Group → Bytes → List Addr → ℕ → Type 0
OneAddress groups host ips until = (ips ≡ v4 16843009 ∷ []) × (until ≡ 60000000020)

abbrev found : Found
found = record {
  discovery = record { source = codes "test"; routing = codes "default-only"; groups = both };
  error = none;
}

abbrev refreshed : Resolver
refreshed = apply_discovery defaults.dns found 10 (unrefreshed defaults.dns)

abbrev flight : Flight
flight = record {
  key = record { generation = 1; host = codes "a.example" };
  groups = public ∷ [];
  cfg = defaults.dns;
}

abbrev answered : Resolver
answered = store_answer flight (v4 16843009 ∷ []) 60 20 30 0 refreshed

abbrev started_run : Running
started_run = record { resolver = refreshed; flights = [] }

abbrev answered_run : Running
answered_run = record { resolver = answered; flights = flight ∷ [] }

run : Reach OneAddress (record { resolver = unrefreshed defaults.dns; flights = [] }) answered_run
unfolding begin_lookup apply_discovery dns_beq list_beq use_cache lookup is_changed select route
    score_of score_domain fall_back expiry
run =
    next
      (next (next here (apply _ defaults.dns found 10 (omega arith)))
        (look started_run (λ s. s) 20 (codes "a.example")))
      (land (record { resolver = refreshed; flights = flight ∷ [] }) 0 flight (v4 16843009 ∷ []) 60
        20 30 0 refl (refl, refl))

run_hit : (begin_lookup (λ s. s) 40 (codes "a.example") answered).1 ≡ hit (v4 16843009 ∷ [])
unfolding begin_lookup apply_discovery store_answer list_beq may_store dns_beq is_changed expiry
    use_cache lookup insert to_lower
run_hit = refl

cached_answer_example :
    (answered.state.last_error ≡ [])
    × ((until : ℕ) × OneAddress
          (groups_now OneAddress answered (to_lower (codes "a.example")))
          (to_lower (codes "a.example"))
          (v4 16843009 ∷ [])
          until
        × (40 < until))
cached_answer_example =
    cached_answer OneAddress defaults.dns answered_run run (λ s. s) 40 (codes "a.example")
      (v4 16843009 ∷ []) run_hit
