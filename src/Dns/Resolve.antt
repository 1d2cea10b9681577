-- ===== src/Dns/Resolve.antt =====
-- internal/dns/resolver.go: `resolve`, which follows the aliases of a name to its addresses. The
-- exchange with the server is a parameter (the client of the package `dns`), and so are the
-- identifiers of the queries.
pub mod Chain
pub mod Ends
use utlsproxy.Common.{
  ℕ, suc, zero, ◌^◌, ◌-◌, Bool, true, false, ◌&&◌, ◌||◌, not, List, [], ◌∷◌, ◌++◌, Option, none,
  some, if◌then◌else◌, ◌==◌, nat_eq, list_eq, ltb, length, any, contains,
}
use utlsproxy.Common.Outcome.{Result, ok, err, ◌>>=◌, ◌>>◌, ensure}
use utlsproxy.Common.Text.{Bytes, to_lower}
use utlsproxy.Netip.{Addr, unmap}

-- `strings.EqualFold`
unfoldable pub equal_fold : Bytes → Bytes → Bool
equal_fold a b = to_lower a == to_lower b

-- the numbers of the DNS: the class INET, the type A, the codes for success and for an unknown name
abbrev pub class_inet : ℕ
class_inet = 1

abbrev pub type_a : ℕ
type_a = 1

abbrev pub rcode_name_error : ℕ
rcode_name_error = 3

-- The part of a record that is not in its header; an A record holds an address where its data has
-- the length of one.
pub data Rdata : Type 0 where
  a : Option Addr → Rdata
  cname : Bytes → Rdata
  other : Rdata

pub record Rr : Type 0 where
  pub name : Bytes
  pub class : ℕ
  pub ttl : ℕ
  pub rdata : Rdata

pub record Question : Type 0 where
  pub name : Bytes
  pub qtype : ℕ
  pub qclass : ℕ

pub record Msg : Type 0 where
  pub id : ℕ
  pub response : Bool
  pub truncated : Bool
  pub opcode : ℕ
  pub question : List Question
  pub rcode : ℕ
  pub answer : List Rr

pub data Net : Type 0 where
  udp4 tcp4 : Net

pub data ResolveError : Type 0 where
  cname_cycle malformed_response conflicting_cname conflicting_address_and_cname : ResolveError
  cname_cycle_or_limit cname_limit : ResolveError
  -- an exchange over the network that failed: the first one with a text before its error, the second
  -- one by its error alone
  query exchange_failed : Bytes → ResolveError
  -- the errors of type `nameError`
  nxdomain no_ipv4_address : Bytes → ResolveError
  server_error : ℕ → ResolveError
  -- the fuel of the inner loop ended
  out_of_fuel : ResolveError

-- The variables of the loop over the answer's records.
pub record Scan : Type 0 where
  pub ips : List Addr
  pub next : Bytes
  pub ttl : ℕ

abbrev pub min : ℕ → ℕ → ℕ
min x y = if ltb y x then y else x

unfoldable pub is_owned : Bytes → Rr → Bool
is_owned owner rr = rr.class == class_inet && equal_fold rr.name owner

-- what the `switch` does with a record of the owner
unfoldable pub scan_rdata : ℕ → Rdata → Scan → Result ResolveError Scan
scan_rdata ttl (a none) s = ok s
scan_rdata ttl (a (some ip)) s = ok (record s { ips = s.ips ++ unmap ip ∷ []; ttl = min s.ttl ttl })
scan_rdata ttl (cname target) s =
    if not (s.next == []) && not (s.next == to_lower target)
    then err conflicting_cname
    else ok (record s { next = to_lower target; ttl = min s.ttl ttl })
scan_rdata ttl other s = ok s

unfoldable pub scan_rr : Bytes → Rr → Scan → Result ResolveError Scan
scan_rr owner rr s = if is_owned owner rr then scan_rdata rr.ttl rr.rdata s else ok s

unfoldable pub scan : Bytes → List Rr → Scan → Result ResolveError Scan
scan owner [] s = ok s
scan owner (rr ∷ rrs) s = scan_rr owner rr s >>= λ s'. scan owner rrs s'

-- How the inner loop ends: with addresses and the least time to live, with an error, or with a name
-- to query next, the names seen and the time to live so far.
pub data Walk : Type 0 where
  found : List Addr → ℕ → Walk
  failed : ResolveError → Walk
  again : Bytes → List Bytes → ℕ → Walk

-- what the inner loop does with the records of one owner; `rest` is the loop's next turn
unfoldable pub step_walk : Bytes → Bytes → List Rr → List Bytes → Scan → Walk → Walk
step_walk name owner answer seen s rest =
    if not (length s.ips == 0)
    then (if not (s.next == []) then failed conflicting_address_and_cname else found s.ips s.ttl)
    else if s.next == []
    then (if not (owner == name) then again owner seen s.ttl else failed (no_ipv4_address name))
    else if contains seen s.next || ltb 8 (length seen)
    then failed cname_cycle_or_limit
    else if not (any (λ (rr : Rr). equal_fold rr.name s.next) answer)
    then again s.next seen s.ttl
    else rest

-- the inner loop, on fuel
unfoldable pub walk : ℕ → Bytes → Bytes → List Rr → List Bytes → ℕ → Walk
walk zero name owner answer seen ttl = failed out_of_fuel
walk (suc fuel) name owner answer seen ttl =
    elim (scan owner answer (record { ips = []; next = []; ttl = ttl })) [
      | err e ↦ failed e
      | ok s ↦
          step_walk name owner answer seen s (walk fuel name s.next answer (s.next ∷ seen) s.ttl)
    ]

-- the test for a malformed response, for a query of this identifier and name
unfoldable pub is_question : Bytes → List Question → Bool
is_question name (q ∷ []) = equal_fold q.name name && q.qtype == type_a && q.qclass == class_inet
is_question name _ = false

unfoldable pub is_reply : ℕ → Bytes → Msg → Bool
unfolding is_question
is_reply id name m =
    m.response && not m.truncated && m.opcode == 0 && m.id == id && is_question name m.question

-- what the outer loop does when the inner one has ended; `go` is its next turn
abbrev pub after_walk :
    Walk
    → (Bytes → List Bytes → ℕ → Result ResolveError (List Addr × ℕ))
    → Result ResolveError (List Addr × ℕ)
after_walk (found ips t) go = ok (ips, t)
after_walk (failed e) go = err e
after_walk (again next seen t) go = go next seen t

abbrev pub after_ask :
    Result ResolveError Msg
    → (Msg → Walk)
    → (Bytes → List Bytes → ℕ → Result ResolveError (List Addr × ℕ))
    → Result ResolveError (List Addr × ℕ)
after_ask (err e) walks go = err e
after_ask (ok m) walks go = after_walk (walks m) go

-- `if seen[name]`, and the turn that follows
abbrev pub turn :
    Bool
    → Result ResolveError Msg
    → (Msg → Walk)
    → (Bytes → List Bytes → ℕ → Result ResolveError (List Addr × ℕ))
    → Result ResolveError (List Addr × ℕ)
turn true r walks go = err cname_cycle
turn false r walks go = after_ask r walks go

-- a first exchange that failed ends `resolve` with its error
unfoldable pub reached : Result Bytes Msg → Result ResolveError Msg
reached (ok m) = ok m
reached (err e) = err (query e)

-- and so does the second one, over TCP
unfoldable pub resent : Result Bytes Msg → Result ResolveError Msg
resent (ok m) = ok m
resent (err e) = err (exchange_failed e)

module _ (exchange : Net → ℕ → Bytes → Result Bytes Msg) (new_id : Bytes → ℕ) where
  -- the exchange and the checks of the response
  unfoldable pub ask : Bytes → Result ResolveError Msg
  ask name = do
    first ← reached (exchange udp4 (new_id name) name)
    m ← (if first.truncated then resent (exchange tcp4 (new_id name) name) else ok first)
    ensure (is_reply (new_id name) name m) malformed_response
    ensure (not (m.rcode == rcode_name_error)) (nxdomain name)
    ensure (m.rcode == 0) (server_error m.rcode)
    ok m

  -- The outer loop, with the turns that are left. A turn of the inner loop that goes on finds at most
  -- eight names in `seen` and adds one, so ten turns are enough.
  unfoldable pub resolve_from : ℕ → Bytes → List Bytes → ℕ → Result ResolveError (List Addr × ℕ)
  resolve_from zero name seen ttl = err cname_limit
  resolve_from (suc hops) name seen ttl =
      turn (contains seen name) (ask name) (λ m. walk 10 name name m.answer (name ∷ seen) ttl)
        (λ next seen' ttl'. resolve_from hops next seen' ttl')

  -- `resolve`
  unfoldable pub resolve : Bytes → Result ResolveError (List Addr × ℕ)
  resolve name = resolve_from 9 name [] (2 ^ 32 - 1)
