-- ===== src/Proxy/Upstream/Dialled.antt =====
-- internal/proxy/upstream.go: what holds of the connection that is returned, and of the others.
use mathlib.Core.List.{Memᴰ}
use utlsproxy.Common.{All, subst, eq_iff, contains, contains_mem, mem_contains}
use utlsproxy.Common.Best.{All-map}
use utlsproxy.Profiles
use utlsproxy.Proxy.Upstream.{upstream_tls, alpn_mismatch, unsupported_alps, is_redirect}
use utlsproxy.Common.{
  ℕ, Bool, true, false, List, [], ◌∷◌, ◌++◌, String, ◌≡◌, refl, arith, ◌==◌, nat_eq, list_eq,
  string_eq, length, ap, ◌⊎◌, inl, inr, ◌≢◌, ◌/◌, ◌^◌, Bool-cases, list_beq_iff,
}
use utlsproxy.Common.Outcome.{Result, ok, err, ensure-ok, ensure-true, bind-eq-ok}
use utlsproxy.Common.Text.{Bytes}
use utlsproxy.Config.{Config}
use utlsproxy.Netip.{Addr, v4, v6, addr_eq, addr_string, is_loopback, is_unspecified, is_multicast}
use utlsproxy.Profiles.{ProfileError, Extension, Modification, UConn, compatible}
use utlsproxy.Proxy.Upstream.{
  DialError, Negotiated, Dialed, Attempts, is_refused, check_destination, handshake_upstream, wrap,
  profiled, after_handshake, after_dial, after_check, dial_each, dial_upstream,
}

check_destination-ok :
    (r : Result Bytes (List Addr)) (ip : Addr) (redirect : Bytes)
    → check_destination r ip redirect ≡ ok tt
    → (locals : List Addr) × (r ≡ ok locals) × (is_refused ip locals redirect ≡ false)
unfolding check_destination
check_destination-ok (err e) ip redirect h = cc
check_destination-ok (ok locals) ip redirect h = (locals, refl, ground (arith, ensure-true _ _ h))

each_member : (xs : List Addr) → All (λ x. Memᴰ x xs) xs
each_member [] = tt
each_member (x ∷ xs) = (Memᴰ.head refl, All-map _ _ (λ y m. Memᴰ.tail m) xs (each_member xs))

-- An IPv4 address that is neither a loopback, unspecified, multicast or broadcast address, nor one
-- of the machine's own, nor the one that the hosts file redirects to.
abbrev pub IsRemote : Addr → List Addr → Bytes → Type 0
IsRemote (v4 n) locals redirect =
    (n / 2 ^ 24 ≢ 127)
    × (n ≢ 0)
    × (n / 2 ^ 28 ≢ 14)
    × (n ≢ 4294967295)
    × (¬ Memᴰ (v4 n) locals)
    × (addr_string n ≢ redirect)
IsRemote (v6 n) locals redirect = ⊥

-- The protocol is one that the client offers; with no protocol, it offers none or `http/1.1`.
abbrev pub IsAgreed : String → List String → Type 0
IsAgreed protocol offered =
    (Memᴰ protocol offered × ((protocol ≡ "h2") ⊎ (protocol ≡ "http/1.1")))
    ⊎ ((protocol ≡ "") × ((offered ≡ []) ⊎ Memᴰ "http/1.1" offered))

refused-IsRemote :
    (ip : Addr) (locals : List Addr) (redirect : Bytes)
    → is_refused ip locals redirect ≡ false
    → IsRemote ip locals redirect
unfolding is_refused is_loopback is_unspecified is_multicast is_redirect
refused-IsRemote (v4 n) locals redirect h =
    let there : contains locals (v4 n) ≡ false = ground (arith, h) in
    let text : (addr_string n == redirect) ≡ false = ground (arith, h) in
    (
      λ e. ground (arith, h, e),
      λ e. ground (arith, h, e),
      λ e. ground (arith, h, e),
      λ e. ground (arith, h, e),
      λ m. ground (arith, mem_contains locals (v4 n) m, there),
      λ e. ground (arith, (list_beq_iff (addr_string n) redirect).1 e, text),
    )
refused-IsRemote (v6 n) locals redirect h = ground (arith, h)

compatible-IsAgreed :
    (protocol : String) (offered : List String)
    → compatible protocol offered ≡ true
    → IsAgreed protocol offered
unfolding compatible
compatible-IsAgreed protocol offered h = elim (Bool-cases (protocol == "")) [
  | inl e ↦ inr (
    (eq_iff protocol "").0 e,
    elim (Bool-cases (length offered == 0)) [
      | inl z ↦ inl (ground (arith, z))
      | inr z ↦ inr (contains_mem offered "http/1.1" (ground (arith, h, e, z)))
    ],
  )
  | inr n ↦ inl (
    contains_mem offered protocol (ground (arith, h, n)),
    elim (Bool-cases (protocol == "h2")) [
      | inl z ↦ inl ((eq_iff protocol "h2").0 z)
      | inr z ↦ inr ((eq_iff protocol "http/1.1").0 (ground (arith, h, n, z)))
    ],
  )
]

shaken_or :
    UConn × List Modification × Negotiated
    → Result DialError (UConn × List Modification × Negotiated)
    → UConn × List Modification × Negotiated
shaken_or x (ok y) = y
shaken_or x (err e) = x

module _ (utls_id_to_spec : String → Result ProfileError (List Extension))
    (apply_preset : List Extension → Bool) (handshake : ℕ → UConn → Result Bytes Negotiated) where
  wrap-ok :
      {A : Type 0} (f : Bytes → DialError) (r : Result Bytes A) (x : A) → wrap f r ≡ ok x → r ≡ ok x
  unfolding wrap
  wrap-ok f (ok y) x h = cc
  wrap-ok f (err e) x h = cc

  negotiated_ok :
      (raw : ℕ) (offered : List String) (u u' : UConn) (mods mods' : List Modification)
      (n n' : Negotiated)
      → handshake raw u' ≡ ok n'
      → compatible n'.protocol offered ≡ true
      → (length n'.settings == 0) ≡ true
      → ◌≡◌ {A = Result DialError (UConn × List Modification × Negotiated)}
          (ok (u', mods', n'))
          (ok (u, mods, n))
      → (handshake raw u ≡ ok n) × (compatible n.protocol offered ≡ true) × (n.settings ≡ [])
  unfolding shaken_or
  negotiated_ok raw offered u u' mods mods' n n' h p s e =
      let none_ : n'.settings ≡ [] = ground (arith, s) in
      subst
        (λ (x : UConn × List Modification × Negotiated).
          (handshake raw x.0 ≡ ok x.2)
          × (compatible x.2.protocol offered ≡ true)
          × (x.2.settings ≡ []))
        (ap (shaken_or (u', mods', n')) e) (h, p, none_)

  handshake_upstream-ok :
      (raw : ℕ) (c : Config) (host : String) (offered : List String) (u : UConn)
      (mods : List Modification) (n : Negotiated)
      → handshake_upstream utls_id_to_spec apply_preset handshake raw c host offered
        ≡ ok (u, mods, n)
      → (handshake raw u ≡ ok n) × (compatible n.protocol offered ≡ true) × (n.settings ≡ [])
  unfolding handshake_upstream
  handshake_upstream-ok raw c host offered u mods n h =
      let ((u', mods'), hu, h1) =
        bind-eq-ok
          (profiled (
            Profiles.new utls_id_to_spec apply_preset c.upstream.profile host c.upstream.alpn_mode
              offered))
          _ h in
      let (n', hn, h2) = bind-eq-ok (wrap upstream_tls (handshake raw u')) _ h1 in
      let (protocol, h3) = ensure-ok (compatible n'.protocol offered) alpn_mismatch _ h2 in
      let (settings, h4) = ensure-ok (length n'.settings == 0) unsupported_alps _ h3 in
      negotiated_ok raw offered u u' mods mods' n n' (wrap-ok _ _ _ hn) protocol settings h4

  module _ (local_addresses : Addr → Result Bytes (List Addr)) (dial : Addr → Result Bytes ℕ)
      (ips : List Addr) (c : Config) (host : String) (offered : List String) where
    -- A connection to one of the addresses that passed every check.
    pub record IsChecked (d : Dialed) : Type 0 where
      pub member : Memᴰ d.ip ips
      pub locals : List Addr
      pub known : local_addresses d.ip ≡ ok locals
      pub accepted : IsRemote d.ip locals c.address
      pub dialed : dial d.ip ≡ ok d.raw
      pub shaken : handshake d.raw d.client ≡ ok d.negotiated
      pub protocol : IsAgreed d.negotiated.protocol offered
      pub settings : d.negotiated.settings ≡ []
      pub port : d.port ≡ c.upstream.port

    -- Every connection that was opened is closed, but the one that is returned.
    abbrev pub IsTidy : Result DialError Dialed × Attempts → Type 0
    IsTidy (ok d, s) = IsChecked d × (s.opened ≡ s.closed ++ d.raw ∷ [])
    IsTidy (err e, s) = s.opened ≡ s.closed

    after_handshake-IsTidy :
        (raw : ℕ) (ip : Addr) (s : Attempts) (rest : Attempts → Result DialError Dialed × Attempts)
        (r : Result DialError (UConn × List Modification × Negotiated)) (locals : List Addr)
        → handshake_upstream utls_id_to_spec apply_preset handshake raw c host offered ≡ r
        → Memᴰ ip ips
        → local_addresses ip ≡ ok locals
        → is_refused ip locals c.address ≡ false
        → dial ip ≡ ok raw
        → s.opened ≡ s.closed
        → ((s' : Attempts) → s'.opened ≡ s'.closed → IsTidy (rest s'))
        → IsTidy (
            after_handshake utls_id_to_spec apply_preset handshake local_addresses dial raw ip c s
              rest r)
    unfolding after_handshake
    after_handshake-IsTidy raw ip s rest (err e) locals h m k n d o go =
        go _ (ap (λ xs. xs ++ raw ∷ []) o)
    after_handshake-IsTidy raw ip s rest (ok (u, mods, state)) locals h m k n d o go =
        let (shaken, protocol, settings) =
          handshake_upstream-ok raw c host offered u mods state h in
        (
          record {
            member = m;
            locals = locals;
            known = k;
            accepted = refused-IsRemote ip locals c.address n;
            dialed = d;
            shaken = shaken;
            protocol = compatible-IsAgreed state.protocol offered protocol;
            settings = settings;
            port = refl;
          },
          ap (λ xs. xs ++ raw ∷ []) o,
        )

    after_dial-IsTidy :
        (ip : Addr) (s : Attempts) (rest : Attempts → Result DialError Dialed × Attempts)
        (r : Result Bytes ℕ) (locals : List Addr)
        → dial ip ≡ r
        → Memᴰ ip ips
        → local_addresses ip ≡ ok locals
        → is_refused ip locals c.address ≡ false
        → s.opened ≡ s.closed
        → ((s' : Attempts) → s'.opened ≡ s'.closed → IsTidy (rest s'))
        → IsTidy (
            after_dial utls_id_to_spec apply_preset handshake local_addresses dial ip c host offered
              s rest r)
    unfolding after_dial
    after_dial-IsTidy ip s rest (err e) locals d m k n o go = go _ o
    after_dial-IsTidy ip s rest (ok raw) locals d m k n o go =
        after_handshake-IsTidy raw ip s rest _ locals refl m k n d o go

    after_check-IsTidy :
        (ip : Addr) (s : Attempts) (rest : Attempts → Result DialError Dialed × Attempts)
        (r : Result DialError (Unit {0}))
        → check_destination (local_addresses ip) ip c.address ≡ r
        → Memᴰ ip ips
        → s.opened ≡ s.closed
        → ((s' : Attempts) → s'.opened ≡ s'.closed → IsTidy (rest s'))
        → IsTidy (
            after_check utls_id_to_spec apply_preset handshake local_addresses dial ip c host
              offered s rest r)
    unfolding after_check
    after_check-IsTidy ip s rest (err e) h m o go = go _ o
    after_check-IsTidy ip s rest (ok u) h m o go =
        let (locals, k, n) = check_destination-ok (local_addresses ip) ip c.address h in
        after_dial-IsTidy ip s rest _ locals refl m k n o go

    dial_each-IsTidy :
        (left : List Addr) (s : Attempts)
        → All (λ ip. Memᴰ ip ips) left
        → s.opened ≡ s.closed
        → IsTidy (
            dial_each utls_id_to_spec apply_preset handshake local_addresses dial left c host
              offered s)
    unfolding dial_each
    dial_each-IsTidy [] s m o = o
    dial_each-IsTidy (ip ∷ left) s m o =
        after_check-IsTidy ip s _ _ refl m.0 o (λ s' o'. dial_each-IsTidy left s' m.1 o')

    -- A connection that `DialUpstream` returns is to an IPv4 address of the lookup at the configured
    -- port. The address is no loopback, unspecified, multicast or broadcast one, none of the machine's
    -- own, and not the one that the configuration redirects to. The handshake agreed on `h2` or
    -- `http/1.1`, offered by the client, or on no protocol, where the client offers none or
    -- `http/1.1`; it has no application settings. Every other connection that was opened is closed,
    -- all of them where an error is returned.
    pub dial_upstream-IsTidy : IsTidy (
        dial_upstream utls_id_to_spec apply_preset handshake local_addresses dial
          (ok ips)
          c
          host
          offered)
    unfolding dial_upstream
    dial_upstream-IsTidy = dial_each-IsTidy ips _ (each_member ips) refl
