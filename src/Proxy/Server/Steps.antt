-- ===== src/Proxy/Server/Steps.antt =====
-- internal/proxy/server.go: the critical sections as steps that interleave in any order, and what
-- holds between them.
use utlsproxy.Dns.Resolver.{Resolver}
use utlsproxy.Common.{
  ℕ, Bool, ◌+◌, ◌≤◌, ◌<◌, ◌^◌, true, List, [], ◌∷◌, String, Option, ◌≡◌, All, length, contains,
  list_eq, nat_eq,
}
use utlsproxy.Common.Int.{pos, ◌≤ℤ◌}
use utlsproxy.Common.Map.{DistinctKeys, lookup}
use utlsproxy.Common.Text.{Bytes, codes}
use utlsproxy.Common.Outcome.{Result, ok}
use utlsproxy.Config.{Config}
use utlsproxy.Dns.Resolver.{Found}
use utlsproxy.Profiles.{Modification}
use utlsproxy.Proxy.Category.{Error}
use utlsproxy.Proxy.Server.{
  Server, Snapshot, Active, accept, update, set_cancel, set_sni, set_upstream, set_relaying,
  count_sent, count_received, stop, force_stop, forget, count_error, ReloadError, reload,
}

-- The greatest number of connections that a validated configuration allows.
abbrev pub most : ℕ
most = 65536

abbrev pub IsBounded : Snapshot → Type 0
IsBounded snap = ◌≤ℤ◌ snap.config.runtime.max_connections (pos most)

-- The failure counters that there can be.
abbrev pub kinds : List Bytes
kinds =
    codes "client_denied"
    ∷ codes "connection_limit"
    ∷ codes "sni_missing"
    ∷ codes "domain_denied"
    ∷ codes "upstream_loop"
    ∷ codes "alpn_mismatch"
    ∷ codes "unsupported_alps"
    ∷ codes "dns"
    ∷ codes "upstream_connect"
    ∷ codes "upstream_tls"
    ∷ codes "timeout"
    ∷ codes "connection"
    ∷ []

abbrev pub IsKind : Bytes × ℕ → Type 0
IsKind (kind, n) = contains kinds kind ≡ true

-- a connection stands under its own number, which has been given out
abbrev pub IsNumbered : ℕ → ℕ × Active → Type 0
IsNumbered next (id, a) = (a.record_.id ≡ id) × (1 ≤ id) × (id ≤ next)

pub record IsConsistent (s : Server) : Type 0 where
  pub distinct : DistinctKeys s.connections
  pub numbered : All (IsNumbered s.next) s.connections
  pub counted : s.total ≡ s.next
  pub fits : length s.connections ≤ most
  pub limit : IsBounded s.current
  pub failures : All IsKind s.failures

pub data Step (parse_v6 : Bytes → Option ℕ) : Server → Server → Type 0 where
  accepts :
      (s : Server) (snap : Snapshot) (client : Bytes) (started : ℕ)
      → IsBounded snap
      → s.next + 1 < 2 ^ 64
      → Step parse_v6 s (accept parse_v6 snap client started s).0
  begins :
      (s : Server) (id : ℕ) → Step parse_v6 s (update set_cancel id (lookup id s.connections) s)
  learns_sni :
      (s : Server) (id : ℕ) (host : Bytes)
      → Step parse_v6 s (update (set_sni host) id (lookup id s.connections) s)
  learns_upstream :
      (s : Server) (id : ℕ) (ip : Bytes) (mods : List Modification) (version : ℕ)
      (protocol : String)
      → Step parse_v6 s
          (update (set_upstream ip mods version protocol) id (lookup id s.connections) s)
  relays :
      (s : Server) (id version : ℕ) (protocol : String)
      → Step parse_v6 s (update (set_relaying version protocol) id (lookup id s.connections) s)
  sends :
      (s : Server) (id n : ℕ)
      → Step parse_v6 s (update (count_sent n) id (lookup id s.connections) s)
  receives :
      (s : Server) (id n : ℕ)
      → Step parse_v6 s (update (count_received n) id (lookup id s.connections) s)
  -- the two critical sections of `finish`: what `stopping` was at the first one decides at the second
  forgets : (s : Server) (id : ℕ) → Step parse_v6 s (forget id (lookup id s.connections) s)
  counts_error :
      (s : Server) (stopping : Bool) (e : Option Error) → Step parse_v6 s (count_error stopping e s)
  reloads :
      (s t : Server) (load : Result ReloadError Config) (ca_load : Config → Result ReloadError ℕ)
      (now : ℕ) (found : Found) (later : ℕ)
      → reload load ca_load now found later s ≡ ok t
      → IsBounded t.current
      → Step parse_v6 s t
  resolves : (s : Server) (r : Resolver) → Step parse_v6 s (record s { resolver = r })
  stops : (s : Server) → Step parse_v6 s (stop s)
  cuts_off : (s : Server) → Step parse_v6 s (force_stop s)

pub data Reach (parse_v6 : Bytes → Option ℕ) (s : Server) : Server → Type 0 where
  here : Reach parse_v6 s s
  next : {t u : Server} → Reach parse_v6 s t → Step parse_v6 t u → Reach parse_v6 s u
