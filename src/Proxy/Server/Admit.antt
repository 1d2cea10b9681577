-- ===== src/Proxy/Server/Admit.antt =====
-- Who is admitted, what a shutdown stops, and what a reload may change.
use utlsproxy.Common.Map.{length-insert_absent}
use utlsproxy.Common.{
  ℕ, ◌+◌, ◌<◌, ◌^◌, Bool, true, false, ◌||◌, ◌&&◌, [], ◌∷◌, Option, some, none, ◌≡◌, refl, All,
  arith, length, nat_eq, list_eq, string_eq, Bool-cases, inl, inr, ◌∙◌, subst, list_beq_iff, eq_iff,
}
use utlsproxy.Common.Int.{pos, ltb_ℤ, int_eq, int_beq_iff}
use utlsproxy.Common.Map.{Map, lookup, lookup-insert, lookup-erase}
use utlsproxy.Common.Text.{Bytes, codes}
use utlsproxy.Common.Outcome.{Result, ok}
use utlsproxy.Config.{Config, restart_required}
use utlsproxy.Config.Access.{allows_client}
use utlsproxy.Dns.Resolver.{Found}
use utlsproxy.Netip.{Addr, parse_addr_port}
use utlsproxy.Proxy.Category.{Error}
use utlsproxy.Proxy.Server.{
  Server, Snapshot, Active, failure, is_full, is_denied, accept, admitted, update, add64,
  force_stop, stop, forget, count_error, ReloadError, reload,
}
use utlsproxy.Proxy.Server.Steps.{
  IsConsistent, IsNumbered, Step, accepts, learns_sni, learns_upstream, relays, sends, receives,
  forgets, counts_error, reloads, stops, cuts_off, Reach, here, next, begins, resolves,
}
use utlsproxy.Proxy.Server.Invariant.{reload-eq, cut_off_all-none}

fresh_id : (n id : ℕ) (m : Map ℕ Active) → All (IsNumbered n) m → n < id → lookup id m ≡ none
unfolding lookup
fresh_id n id [] h lt = refl
fresh_id n id ((j, a) ∷ m) h lt = ground (arith, fresh_id n id m h.1 lt)

allowed_client :
    (parse_v6 : Bytes → Option ℕ) (snap : Snapshot) (client : Bytes)
    → is_denied parse_v6 snap client ≡ false
    → (a : Addr) × (port : ℕ) × (parse_addr_port parse_v6 client ≡ some (a, port))
      × (allows_client parse_v6 snap.config a ≡ true)
unfolding is_denied
allowed_client parse_v6 snap client h = at (parse_addr_port parse_v6 client) refl
  where
    at :
        (o : Option (Addr × ℕ))
        → parse_addr_port parse_v6 client ≡ o
        → (a : Addr) × (port : ℕ) × (parse_addr_port parse_v6 client ≡ some (a, port))
          × (allows_client parse_v6 snap.config a ≡ true)
    at none e = cc (rw (e, is_denied) at h)
    at (some (a, port)) e = (a, port, e, ground (arith, e))

not_full :
    (snap : Snapshot) (s : Server)
    → is_full snap s ≡ false
    → (s.stopping ≡ false)
      × (ltb_ℤ (pos (length s.connections)) snap.config.runtime.max_connections ≡ true)
unfolding is_full
not_full snap s h = ground arith

-- A connection is admitted only where its address parses and lies in an allowed network, the server
-- is not stopping, and fewer connections are open than the configuration allows. It gets a number
-- that no open connection has, and exactly one connection more is open.
pub accept_admitted :
    (parse_v6 : Bytes → Option ℕ) (snap : Snapshot) (client : Bytes) (started id : ℕ) (s : Server)
    → IsConsistent s
    → s.next + 1 < 2 ^ 64
    → (accept parse_v6 snap client started s).1 ≡ admitted id
    → ((a : Addr) × (port : ℕ) × (parse_addr_port parse_v6 client ≡ some (a, port))
        × (allows_client parse_v6 snap.config a ≡ true))
      × (s.stopping ≡ false)
      × (ltb_ℤ (pos (length s.connections)) snap.config.runtime.max_connections ≡ true)
      × (lookup id s.connections ≡ none)
      × (length (accept parse_v6 snap client started s).0.connections ≡ length s.connections + 1)
unfolding accept
accept_admitted parse_v6 snap client started id s h small e =
    elim (Bool-cases (is_denied parse_v6 snap client)) [
      | inl y ↦ absurd (ground (arith, y))
      | inr n ↦ elim (Bool-cases (is_full snap s)) [
        | inl full ↦ absurd (ground (arith, n, full))
        | inr free ↦
            let same : add64 s.next 1 ≡ id = ground (arith, n, free) in
            let (running, under) = not_full snap s free in
            let absent = fresh_id s.next (add64 s.next 1) s.connections h.numbered (omega arith) in
            (
              allowed_client parse_v6 snap client n,
              running,
              under,
              subst (λ k. lookup k s.connections ≡ none) same absent,
              rw (n, free) (length-insert_absent _ _ s.connections absent),
            )
      ]
    ]

kept_fields :
    (old c : Config)
    → restart_required old c ≡ false
    → (c.listen ≡ old.listen)
      × (c.upstream.port ≡ old.upstream.port)
      × (c.ca.cert ≡ old.ca.cert)
      × (c.ca.key ≡ old.ca.key)
      × (c.runtime.state_dir ≡ old.runtime.state_dir)
      × (c.runtime.control_socket ≡ old.runtime.control_socket)
      × (c.log.format ≡ old.log.format)
unfolding restart_required
kept_fields old c h = ground (
  arith,
  list_beq_iff old.listen c.listen,
  int_beq_iff old.upstream.port c.upstream.port,
  list_beq_iff old.ca.cert c.ca.cert,
  list_beq_iff old.ca.key c.ca.key,
  list_beq_iff old.runtime.state_dir c.runtime.state_dir,
  list_beq_iff old.runtime.control_socket c.runtime.control_socket,
  eq_iff old.log.format c.log.format,
)

-- Nothing is admitted from `s` to `t`.
abbrev pub NoneNew : Server → Server → Type 0
NoneNew s t =
    (t.stopping ≡ true)
    × (t.next ≡ s.next)
    × (t.total ≡ s.total)
    × ((k : ℕ) → lookup k s.connections ≡ none → lookup k t.connections ≡ none)

failure-NoneNew : (kind : Bytes) (s : Server) → s.stopping ≡ true → NoneNew s (failure kind s)
unfolding failure
failure-NoneNew kind s h = (h, refl, refl, λ k e. e)

accept-NoneNew :
    (parse_v6 : Bytes → Option ℕ) (snap : Snapshot) (client : Bytes) (started : ℕ) (s : Server)
    → s.stopping ≡ true
    → NoneNew s (accept parse_v6 snap client started s).0
unfolding accept
accept-NoneNew parse_v6 snap client started s h =
    elim (Bool-cases (is_denied parse_v6 snap client)) [
      | inl y ↦ rw y (failure-NoneNew (codes "client_denied") s h)
      | inr n ↦
          let full : is_full snap s ≡ true = unfold is_full in ground arith in
          rw (n, full) (failure-NoneNew (codes "connection_limit") s h)
    ]

update-NoneNew :
    (f : Active → Active) (id : ℕ) (s : Server)
    → s.stopping ≡ true
    → NoneNew s (update f id (lookup id s.connections) s)
unfolding update
update-NoneNew f id s h = at (lookup id s.connections) refl
  where
    at : (o : Option Active) → lookup id s.connections ≡ o → NoneNew s (update f id o s)
    at none e = (h, refl, refl, λ k x. x)
    at (some a) e =
        (h, refl, refl, λ k x. ground (arith, lookup-insert id k (f a) s.connections, e, x))

forget-NoneNew :
    (id : ℕ) (o : Option Active) (s : Server) → s.stopping ≡ true → NoneNew s (forget id o s)
unfolding forget
forget-NoneNew id none s h = (h, refl, refl, λ k x. x)
forget-NoneNew id (some a) s h =
    (h, refl, refl, λ k x. ground (arith, lookup-erase id k s.connections, x))

count_error-NoneNew :
    (stopping : Bool) (e : Option Error) (s t : Server)
    → NoneNew s t
    → NoneNew s (count_error stopping e t)
unfolding count_error failure
count_error-NoneNew stopping none s t h = h
count_error-NoneNew stopping (some e) s t h =
    elim (Bool-cases (stopping && (e.is_closed || e.is_canceled))) [
      | inl y ↦ rw y h
      | inr n ↦ rw n (h.0, h.1, h.2, h.3)
    ]

Step-NoneNew :
    {parse_v6 : Bytes → Option ℕ} {s t : Server}
    → Step parse_v6 s t
    → s.stopping ≡ true
    → NoneNew s t
unfolding stop force_stop
Step-NoneNew (accepts s snap client started b small) h = accept-NoneNew _ snap client started s h
Step-NoneNew (begins s id) h = update-NoneNew _ id s h
Step-NoneNew (learns_sni s id host) h = update-NoneNew _ id s h
Step-NoneNew (learns_upstream s id ip mods version protocol) h = update-NoneNew _ id s h
Step-NoneNew (relays s id version protocol) h = update-NoneNew _ id s h
Step-NoneNew (sends s id n) h = update-NoneNew _ id s h
Step-NoneNew (receives s id n) h = update-NoneNew _ id s h
Step-NoneNew (forgets s id) h = forget-NoneNew id (lookup id s.connections) s h
Step-NoneNew (counts_error s stopping e) h =
    count_error-NoneNew stopping e s s (h, refl, refl, λ k x. x)
Step-NoneNew (reloads s t load ca_load now found later e b) h =
    let (_, _, _, _, _, same) = reload-eq load ca_load now found later s t e in
    subst (NoneNew s) same (h, refl, refl, λ k x. x)
Step-NoneNew (resolves s r) h = (h, refl, refl, λ k x. x)
Step-NoneNew (stops s) h = (refl, refl, refl, λ k x. x)
Step-NoneNew (cuts_off s) h = (h, refl, refl, λ k x. cut_off_all-none k s.connections x)

-- Once the shutdown has begun it stays so, no connection is counted or numbered, and only
-- connections that were open then can still be open, whatever happens afterwards.
pub stopping-NoneNew :
    (parse_v6 : Bytes → Option ℕ) (s t : Server)
    → Reach parse_v6 s t
    → s.stopping ≡ true
    → NoneNew s t
stopping-NoneNew parse_v6 s _ here h = (h, refl, refl, λ k x. x)
stopping-NoneNew parse_v6 s t (next {t = u} r x) h =
    let (a, b, c, d) = stopping-NoneNew parse_v6 s u r h in
    let (a', b', c', d') = Step-NoneNew x a in (a', b' ∙ b, c' ∙ c, λ k e. d' k (d k e))

-- A reload that succeeds puts the loaded configuration in force under the next generation. It has
-- the listeners, the upstream port, the paths and the log format of the old one, and leaves the
-- connections, the counters of connections, failures and bytes, and the shutdown alone.
pub reload-ok :
    (load : Result ReloadError Config) (ca_load : Config → Result ReloadError ℕ) (now : ℕ)
    (found : Found) (later : ℕ) (s t : Server)
    → reload load ca_load now found later s ≡ ok t
    → (load ≡ ok t.current.config)
      × (ca_load t.current.config ≡ ok t.current.authority)
      × (t.current.generation ≡ add64 s.current.generation 1)
      × (t.current.config.listen ≡ s.current.config.listen)
      × (t.current.config.upstream.port ≡ s.current.config.upstream.port)
      × (t.current.config.ca.cert ≡ s.current.config.ca.cert)
      × (t.current.config.ca.key ≡ s.current.config.ca.key)
      × (t.current.config.runtime.state_dir ≡ s.current.config.runtime.state_dir)
      × (t.current.config.runtime.control_socket ≡ s.current.config.runtime.control_socket)
      × (t.current.config.log.format ≡ s.current.config.log.format)
      × (t.connections ≡ s.connections)
      × (t.total ≡ s.total)
      × (t.failures ≡ s.failures)
      × (t.sent ≡ s.sent)
      × (t.received ≡ s.received)
      × (t.stopping ≡ s.stopping)
reload-ok load ca_load now found later s t h =
    let (c, a, loaded, kept, authority, same) = reload-eq load ca_load now found later s t h in
    let (listen, port, cert, key, dir, socket, format) = kept_fields s.current.config c kept in
    rw (← same) (
      loaded, authority, refl, listen, port, cert, key, dir, socket, format, refl, refl, refl, refl,
      refl, refl,
    )
