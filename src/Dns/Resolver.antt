-- ===== src/Dns/Resolver.antt =====
-- internal/dns/resolver.go: the state of the resolver, the refresh of its routing and its cache.
-- A method that releases the lock in its middle is two functions here, one for each locked part, so
-- that other methods may run in between. Times are in nanoseconds; the zero time is 0.
pub mod Fresh
use utlsproxy.Common.{
  ℕ, ◌+◌, ◌-◌, ◌*◌, ◌%◌, ◌^◌, Bool, true, false, ◌&&◌, ◌||◌, not, List, [], ◌∷◌, ◌++◌, String,
  Option, none, some, if◌then◌else◌, ◌==◌, Eq, nat_eq, string_eq, list_eq, list_beq_iff, leb, ltb,
  length, ◌≡◌, ◌↔◌, arith,
}
use utlsproxy.Common.Int.{ℤ, pos, int_eq, ltb_ℤ, pos_part}
use utlsproxy.Common.Map.{Map, lookup, insert, erase, erase_at}
use utlsproxy.Common.Outcome.{Result, ok, err}
use utlsproxy.Common.Text.{Bytes, codes, to_lower}
use utlsproxy.Config.{Dns}
use utlsproxy.Dns.Group.{Group, Discovery, discovery_beq, group_beq}
use utlsproxy.Dns.Select.{select}
use utlsproxy.Netip.{Addr}

pub record State : Type 0 where
  pub mode : String
  pub discovery : Discovery
  pub generation : ℕ
  pub last_refresh : ℕ
  -- empty where the last refresh succeeded
  pub last_error : Bytes

pub record Cached : Type 0 where
  pub ips : List Addr
  pub expires : ℕ

-- The text "%d:%s" of a generation and a host, by its two parts.
pub record Key : Type 0 where
  pub generation : ℕ
  pub host : Bytes

abbrev pub key_beq : Key → Key → Bool
key_beq a b = a.generation == b.generation && a.host == b.host

pub key_beq_iff : (a b : Key) → (key_beq a b ≡ true) ↔ (a ≡ b)
key_beq_iff a b = ground (arith, list_beq_iff a.host b.host)

instance abbrev pub key_eq : Eq Key
key_eq = record { beq = key_beq; beq_iff = key_beq_iff }

pub record Resolver : Type 0 where
  pub cfg : Dns
  pub applied : Dns
  pub state : State
  pub cache : Map Key Cached

-- `reflect.DeepEqual` on two DNS configurations
unfoldable pub dns_beq : Dns → Dns → Bool
dns_beq a b =
    a.mode == b.mode
    && a.servers == b.servers
    && a.refresh_interval == b.refresh_interval
    && a.timeout == b.timeout
    && a.cache_size == b.cache_size

abbrev no_dns : Dns
no_dns = record {
  mode = "";
  servers = [];
  refresh_interval = pos 0;
  timeout = pos 0;
  cache_size = pos 0;
}

abbrev pub no_state : State
no_state = record {
  mode = "";
  discovery = record { source = []; routing = []; groups = [] };
  generation = 0;
  last_refresh = 0;
  last_error = [];
}

-- the literal of `New`, before its refresh
abbrev pub unrefreshed : Dns → Resolver
unrefreshed c = record { cfg = c; applied = no_dns; state = no_state; cache = [] }

-- the first part of `Refresh`: whether the last refresh is recent enough to answer for this one
unfoldable pub is_recent : ℕ → Resolver → Bool
is_recent now r = dns_beq r.cfg r.applied && ltb (now - r.state.last_refresh) 100_000_000

-- A discovery, and the text of its error if it failed.
pub record Found : Type 0 where
  pub discovery : Discovery
  pub error : Option Bytes

-- what `Refresh` looks up for the configuration that it read
unfoldable pub discover_for : Dns → Found → Found
discover_for c found =
    if c.mode == "manual"
    then record {
      discovery = record {
        source = codes "configuration";
        routing = codes "manual";
        groups =
            record {
              servers = c.servers;
              domains = [];
              iface = pos 0;
              priority = pos 0;
              default = true;
            }
            ∷ [];
      };
      error = none;
    }
    else found

unfoldable pub error_text : Option Bytes → Bytes
error_text none = []
error_text (some e) = e

-- `d.Groups = nil` where the discovery failed
unfoldable pub kept_discovery : Found → Discovery
kept_discovery f = elim f.error [ none ↦ f.discovery | some _ ↦ record f.discovery { groups = [] } ]

-- the test for a new generation
unfoldable pub is_changed : Dns → Found → Resolver → Bool
is_changed c f r =
    not (dns_beq c r.applied)
    || not (discovery_beq (kept_discovery f) r.state.discovery)
    || not (error_text f.error == r.state.last_error)
    || not (c.mode == r.state.mode)

-- the last part of `Refresh`, with the configuration `c` that the first part read
unfoldable pub apply_discovery : Dns → Found → ℕ → Resolver → Resolver
unfolding kept_discovery error_text
apply_discovery c f now r = if not (dns_beq c r.cfg) then r else record {
  cfg = r.cfg;
  applied = c;
  state = record {
    mode = c.mode;
    discovery = kept_discovery f;
    generation = if is_changed c f r then (r.state.generation + 1) % 2 ^ 64 else r.state.generation;
    last_refresh = now;
    last_error = error_text f.error;
  };
  cache = if is_changed c f r then [] else r.cache;
}

-- `Refresh` with no other method in between
unfoldable pub refresh : ℕ → Found → ℕ → Resolver → Resolver
refresh now found later r =
    if is_recent now r then r else apply_discovery r.cfg (discover_for r.cfg found) later r

-- `New`
unfoldable pub new : Dns → ℕ → Found → ℕ → Resolver
new c now found later = refresh now found later (unrefreshed c)

-- the locked part of `Configure`, which `Refresh` follows
unfoldable pub set_config : Dns → Resolver → Resolver
set_config c r = record r { cfg = c; cache = [] }

-- `Configure`
unfoldable pub configure : Dns → ℕ → Found → ℕ → Resolver → Resolver
configure c now found later r = refresh now found later (set_config c r)

-- the test of `Run` at each tick
unfoldable pub is_due : ℕ → Resolver → Bool
is_due now r = leb (pos_part r.cfg.refresh_interval) (now - r.state.last_refresh)

-- A resolution under way: the state and the configuration that it started from.
pub record Flight : Type 0 where
  pub key : Key
  pub groups : List Group
  pub cfg : Dns

pub data Answer : Type 0 where
  -- dns_unavailable, with the error of the last refresh
  unavailable : Bytes → Answer
  no_group : Answer
  hit : List Addr → Answer
  start : Flight → Answer

-- what `lookup` does with the cache entry of its key
unfoldable pub use_cache : ℕ → Flight → Option Cached → Resolver → Resolver × Answer
use_cache now f none r = (r, if length f.groups == 0 then no_group else start f)
use_cache now f (some entry) r = if ltb now entry.expires then (r, hit entry.ips) else (
  record r { cache = erase f.key r.cache },
  if length f.groups == 0 then no_group else start f,
)

-- `lookup` up to the flight; `fqdn` is that of the package `dns`
unfoldable pub begin_lookup : (Bytes → Bytes) → ℕ → Bytes → Resolver → Resolver × Answer
begin_lookup fqdn now name r =
    let host = to_lower (fqdn name) in
    let key : Key = record { generation = r.state.generation; host = host } in
    let flight : Flight = record {
      key = key;
      groups = select r.state.discovery.groups host;
      cfg = r.cfg;
    } in
    if not (r.state.last_error == [])
    then (r, unavailable r.state.last_error)
    else use_cache now flight (lookup key r.cache) r

unfoldable pub expiry : ℕ → ℕ → ℕ
expiry ttl query_started = query_started + ttl * 1_000_000_000

-- the test for storing an answer
unfoldable pub may_store : Flight → ℕ → ℕ → ℕ → Resolver → Bool
may_store f ttl query_started now r =
    r.state.generation == f.key.generation
    && ltb 0 ttl
    && ltb now (expiry ttl query_started)
    && ltb_ℤ (pos 0) f.cfg.cache_size

-- `if len(r.cache) >= c.CacheSize`: one entry goes
unfoldable pub make_room : ℤ → ℕ → Map Key Cached → Map Key Cached
make_room size victim m = if not (ltb_ℤ (pos (length m)) size) then erase_at victim m else m

-- the end of a flight: `now` is the time of the store, `victim` the entry that the runtime picks
unfoldable pub store_answer : Flight → List Addr → ℕ → ℕ → ℕ → ℕ → Resolver → Resolver
store_answer f ips ttl query_started now victim r =
    if may_store f ttl query_started now r
    then record r {
      cache =
          insert f.key (record { ips = ips; expires = expiry ttl query_started })
            (make_room f.cfg.cache_size victim r.cache);
    }
    else r
