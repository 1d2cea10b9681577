-- ===== src/Proxy/Server.antt =====
-- internal/proxy/server.go: the state that the server's mutex guards, with one function for each
-- critical section. A 64-bit counter keeps its wrap-around.
use utlsproxy.Common.{ltb}
pub mod Steps
pub mod Admit
pub mod Invariant
pub mod Traffic
use utlsproxy.Common.{
  ℕ, ◌+◌, ◌%◌, ◌^◌, Bool, true, false, ◌&&◌, ◌||◌, not, List, [], ◌∷◌, ◌++◌, String, Option, none,
  some, if◌then◌else◌, ◌==◌, nat_eq, list_eq, length, leb,
}
use utlsproxy.Common.Int.{ℤ, pos, ltb_ℤ}
use utlsproxy.Common.Map.{Map, lookup, insert, erase}
use utlsproxy.Common.Outcome.{Result, ok, err, ◌>>=◌, ◌>>◌, ensure}
use utlsproxy.Common.Text.{Bytes, codes}
use utlsproxy.Config.{Config, restart_required}
use utlsproxy.Config.Access.{allows_client}
use utlsproxy.Dns.Resolver.{Resolver, Found, configure}
use utlsproxy.Netip.{Addr, parse_addr_port}
use utlsproxy.Profiles.{Modification}
use utlsproxy.Proxy.Category.{Error, category}

-- The certificate authority is known by a number.
pub record Snapshot : Type 0 where
  pub config : Config
  pub authority : ℕ
  pub generation : ℕ

pub record Connection : Type 0 where
  pub id : ℕ
  pub started : ℕ
  pub client : Bytes
  pub sni : Bytes
  pub upstream : Bytes
  pub profile : String
  pub modifications : List Modification
  pub client_tls : ℕ
  pub upstream_tls : ℕ
  pub client_alpn : String
  pub upstream_alpn : String
  pub bytes_sent : ℕ
  pub bytes_received : ℕ
  pub state : String

-- `cancel` is whether the cancel function is set, `cancelled` whether it was called; `sent` and
-- `received` are the atomic counters.
pub record Active : Type 0 where
  pub record_ : Connection
  pub cancel : Bool
  pub cancelled : Bool
  pub closed : Bool
  pub sent : ℕ
  pub received : ℕ

pub record Server : Type 0 where
  pub current : Snapshot
  pub resolver : Resolver
  pub level : String
  pub connections : Map ℕ Active
  pub failures : Map Bytes ℕ
  pub total : ℕ
  pub next : ℕ
  pub sent : ℕ
  pub received : ℕ
  pub stopping : Bool

-- 64-bit addition
abbrev pub add64 : ℕ → ℕ → ℕ
add64 a b = (a + b) % 2 ^ 64

-- `s.failures[kind]++`
unfoldable pub count_failure : Bytes → Option ℕ → Map Bytes ℕ → Map Bytes ℕ
count_failure kind none m = insert kind 1 m
count_failure kind (some n) m = insert kind (add64 n 1) m

-- `failure`
unfoldable pub failure : Bytes → Server → Server
unfolding count_failure
failure kind s = record s { failures = count_failure kind (lookup kind s.failures) s.failures }

-- `New`, with the authority that `ca.Load` returned and the resolver that `dns.New` returned
unfoldable pub new : Config → ℕ → Resolver → String → Server
new c authority r level = record {
  current = record { config = c; authority = authority; generation = 1 };
  resolver = r;
  level = level;
  connections = [];
  failures = [];
  total = 0;
  next = 0;
  sent = 0;
  received = 0;
  stopping = false;
}

pub data Admission : Type 0 where
  denied limited : Admission
  admitted : ℕ → Admission

unfoldable pub is_full : Snapshot → Server → Bool
is_full snap s =
    s.stopping || not (ltb_ℤ (pos (length s.connections)) snap.config.runtime.max_connections)

unfoldable pub fresh_connection : ℕ → Bytes → ℕ → Snapshot → Active
fresh_connection id client started snap = record {
  record_ = record {
    id = id;
    started = started;
    client = client;
    sni = [];
    upstream = [];
    profile = snap.config.upstream.profile;
    modifications = [];
    client_tls = 0;
    upstream_tls = 0;
    client_alpn = "";
    upstream_alpn = "";
    bytes_sent = 0;
    bytes_received = 0;
    state = "handshake";
  };
  cancel = false;
  cancelled = false;
  closed = false;
  sent = 0;
  received = 0;
}

module _ (parse_v6 : Bytes → Option ℕ) where
  -- `err != nil || !snap.config.AllowsClient(addr.Addr())`
  unfoldable pub is_denied : Snapshot → Bytes → Bool
  is_denied snap client = elim (parse_addr_port parse_v6 client) [
    | none ↦ true
    | some (a, port) ↦ not (allows_client parse_v6 snap.config a)
  ]

  -- `accept`, up to the start of the connection's goroutine; `client` is the remote address and
  -- `snap` the snapshot that was current when it was read
  unfoldable pub accept : Snapshot → Bytes → ℕ → Server → Server × Admission
  accept snap client started s =
      if is_denied snap client
      then (failure (codes "client_denied") s, denied)
      else if is_full snap s
      then (failure (codes "connection_limit") s, limited)
      else (let id = add64 s.next 1 in
          (
            record s {
              next = id;
              total = add64 s.total 1;
              connections = insert id (fresh_connection id client started snap) s.connections;
            },
            admitted id,
          ))

-- A critical section that writes fields of one connection's record.
unfoldable pub update : (Active → Active) → ℕ → Option Active → Server → Server
update f id none s = s
update f id (some a) s = record s { connections = insert id (f a) s.connections }

-- `a.cancel = cancel` in `handle`
unfoldable pub set_cancel : Active → Active
set_cancel a = record a { cancel = true }

-- the three sections of `handle` that fill the record
unfoldable pub set_sni : Bytes → Active → Active
set_sni host a = record a { record_ = record a.record_ { sni = host } }

unfoldable pub set_upstream : Bytes → List Modification → ℕ → String → Active → Active
set_upstream ip mods version protocol a = record a {
  record_ = record a.record_ {
    upstream = ip;
    modifications = mods;
    upstream_tls = version;
    upstream_alpn = protocol;
  };
}

unfoldable pub set_relaying : ℕ → String → Active → Active
set_relaying version protocol a = record a {
  record_ = record a.record_ { client_tls = version; client_alpn = protocol; state = "relaying" };
}

-- `progressWriter.Write` after a write of `n` bytes: nothing is counted for none
unfoldable pub count_sent : ℕ → Active → Active
count_sent n a = if ltb 0 n then record a { sent = add64 a.sent n } else a

unfoldable pub count_received : ℕ → Active → Active
count_received n a = if ltb 0 n then record a { received = add64 a.received n } else a

-- the section of `Run` that ends every connection after the shutdown timeout
unfoldable pub cut_off : Active → Active
cut_off a = record a { cancelled = a.cancelled || a.cancel; closed = true }

unfoldable pub cut_off_all : Map ℕ Active → Map ℕ Active
cut_off_all [] = []
cut_off_all ((id, a) ∷ m) = (id, cut_off a) ∷ cut_off_all m

-- the section of `Run` that starts the shutdown
unfoldable pub stop : Server → Server
stop s = record s { stopping = true }

unfoldable pub force_stop : Server → Server
unfolding cut_off_all
force_stop s = record s { connections = cut_off_all s.connections }

-- the first section of the goroutine's end: its bytes are added and it is forgotten
unfoldable pub forget : ℕ → Option Active → Server → Server
forget id none s = s
forget id (some a) s = record s {
  sent = add64 s.sent a.sent;
  received = add64 s.received a.received;
  connections = erase id s.connections;
}

-- the rest of the goroutine's end: whether the error is counted
unfoldable pub count_error : Bool → Option Error → Server → Server
count_error stopping none s = s
count_error stopping (some e) s =
    if stopping && (e.is_closed || e.is_canceled) then s else failure (category e) s

-- the goroutine's end, on the error that `handle` returned
unfoldable pub finish : ℕ → Option Error → Server → Server
unfolding forget count_error
finish id e s = count_error s.stopping e (forget id (lookup id s.connections) s)

pub data ReloadError : Type 0 where
  load_failed restart_needed ca_failed : ReloadError

-- `Reload`: the outcomes of `s.load` and of `ca.Load`, and what the resolver's refresh meets. The
-- level is kept by its text.
unfoldable pub reload :
    Result ReloadError Config
    → (Config → Result ReloadError ℕ)
    → ℕ
    → Found
    → ℕ
    → Server
    → Result ReloadError Server
reload load ca_load now found later s = do
  c ← load
  a ← (if restart_required s.current.config c then err restart_needed else ca_load c)
  ok (record s {
    current = record { config = c; authority = a; generation = add64 s.current.generation 1 };
    resolver = configure c.dns now found later s.resolver;
    level = c.log.level;
  })

unfoldable pub sum_sent : Map ℕ Active → ℕ → ℕ
sum_sent [] n = n
sum_sent ((id, a) ∷ m) n = sum_sent m (add64 n a.sent)

unfoldable pub sum_received : Map ℕ Active → ℕ → ℕ
sum_received [] n = n
sum_received ((id, a) ∷ m) n = sum_received m (add64 n a.received)

-- The part of `Status` that the server's state decides.
pub record Status : Type 0 where
  pub health : String
  pub reasons : List Bytes
  pub config : Config
  pub generation : ℕ
  pub active : ℕ
  pub total : ℕ
  pub bytes_sent : ℕ
  pub bytes_received : ℕ
  pub failures : Map Bytes ℕ

unfoldable pub status : Server → Status
unfolding sum_sent sum_received
status s =
    let last_error = s.resolver.state.last_error in
    let failed = not (last_error == []) in
    let shutting = if s.stopping then codes "daemon is shutting down" ∷ [] else [] in
    record {
      health = if failed then "degraded" else if s.stopping then "stopping" else "ready";
      reasons = shutting ++ (if failed then last_error ∷ [] else []);
      config = s.current.config;
      generation = s.current.generation;
      active = length s.connections;
      total = s.total;
      bytes_sent = sum_sent s.connections s.sent;
      bytes_received = sum_received s.connections s.received;
      failures = s.failures;
    }

-- one element of `Connections`
unfoldable pub report : Active → Connection
report a = record a.record_ { bytes_sent = a.sent; bytes_received = a.received }

-- `sort.Slice` by the identifier
unfoldable pub insert_by_id : Connection → List Connection → List Connection
insert_by_id r [] = r ∷ []
insert_by_id r (x ∷ xs) =
    let rest = insert_by_id r xs in if leb r.id x.id then r ∷ x ∷ xs else x ∷ rest

-- `Connections`
unfoldable pub connections : Map ℕ Active → List Connection
unfolding report insert_by_id
connections [] = []
connections ((id, a) ∷ m) = insert_by_id (report a) (connections m)
