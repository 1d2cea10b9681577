-- ===== src/Tests/Resolve.antt =====
-- The resolution of internal/dns at two answers: an alias with an address, and one without.
use utlsproxy.Common.{
  ℕ, ◌-◌, ◌^◌, true, false, List, [], ◌∷◌, ◌≡◌, ◌≢◌, refl, All, any, some, list_eq, nat_eq,
  list_beq, contains,
}
use utlsproxy.Common.Outcome.{Result, ok, err}
use utlsproxy.Common.Text.{Bytes, codes, to_lower}
use utlsproxy.Dns.Resolve.{
  Rr, a, cname, other, Msg, Net, Scan, ask, scan, scan_rr, scan_rdata, is_owned, equal_fold,
  is_reply, reached, walk, step_walk, resolve_from, resolve, cname_cycle, out_of_fuel,
}
use utlsproxy.Dns.Resolve.Chain.{Leads, IsAddress, resolve-ok}
use utlsproxy.Dns.Resolve.Ends.{resolve-ends, resolve-dead_end}
use utlsproxy.Netip.{Addr, v4, unmap}

abbrev www : Bytes
www = codes "www.test."

abbrev host : Bytes
host = codes "a.test."

abbrev alias : Rr
alias = record { name = www; class = 1; ttl = 60; rdata = cname (codes "A.test.") }

abbrev address : Rr
address = record { name = host; class = 1; ttl = 30; rdata = a (some (v4 16909060)) }

abbrev signature : Rr
signature = record { name = host; class = 1; ttl = 90; rdata = other }

abbrev reply : List Rr → Bytes → Msg
reply answer name = record {
  id = 7;
  response = true;
  truncated = false;
  opcode = 0;
  question = record { name = name; qtype = 1; qclass = 1 } ∷ [];
  rcode = 0;
  answer = answer;
}

abbrev server : List Rr → Net → ℕ → Bytes → Result Bytes Msg
server answer net id name = ok (reply answer name)

abbrev seven : Bytes → ℕ
seven name = 7

aliased : resolve (server (alias ∷ address ∷ [])) seven www ≡ ok (v4 16909060 ∷ [], 30)
unfolding resolve resolve_from ask contains reached is_reply equal_fold list_beq to_lower walk scan
    scan_rr is_owned scan_rdata step_walk any unmap
aliased = refl

resolve-ok_example :
    (asked owner : Bytes) × (m : Msg) × (ask (server (alias ∷ address ∷ [])) seven asked ≡ ok m)
    × Leads (server (alias ∷ address ∷ [])) seven www 30 owner
    × All (IsAddress owner m.answer 30) (v4 16909060 ∷ [])
    × (◌≢◌ {A = List Addr} (v4 16909060 ∷ []) [])
resolve-ok_example =
    resolve-ok (server (alias ∷ address ∷ [])) seven www (v4 16909060 ∷ []) 30 aliased

resolve-ends_example : resolve (server (alias ∷ signature ∷ [])) seven www ≢ err out_of_fuel
resolve-ends_example = resolve-ends (server (alias ∷ signature ∷ [])) seven www

asked_bare :
    ask (server (alias ∷ signature ∷ [])) seven www ≡ ok (reply (alias ∷ signature ∷ []) www)
unfolding ask reached is_reply equal_fold list_beq to_lower
asked_bare = refl

abbrev scanned : Bytes → ℕ → Scan
scanned next ttl = record { ips = []; next = next; ttl = ttl }

www_records : scan www (alias ∷ signature ∷ []) (scanned [] (2 ^ 32 - 1)) ≡ ok (scanned host 60)
unfolding scan scan_rr is_owned equal_fold list_beq to_lower scan_rdata
www_records = refl

host_records : scan host (alias ∷ signature ∷ []) (scanned [] 60) ≡ ok (scanned [] 60)
unfolding scan scan_rr is_owned equal_fold list_beq to_lower scan_rdata
host_records = refl

knows_host : any (λ (rr : Rr). equal_fold rr.name host) (alias ∷ signature ∷ []) ≡ true
unfolding equal_fold any list_beq to_lower
knows_host = refl

resolve-dead_end_example : resolve (server (alias ∷ signature ∷ [])) seven www ≡ err cname_cycle
unfolding list_beq
resolve-dead_end_example =
    resolve-dead_end (server (alias ∷ signature ∷ [])) seven www host
      (reply (alias ∷ signature ∷ []) www) 60 60 asked_bare www_records refl refl refl knows_host
      host_records
