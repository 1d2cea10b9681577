-- ===== src/Proxy/Upstream.antt =====
-- internal/proxy/upstream.go: the choice of an upstream address, the dial and the handshake. The
-- machine's own addresses, the dialer and the TLS handshake are parameters; a connection is a number.
pub mod Dialled
use utlsproxy.Common.{
  ℕ, ◌+◌, ◌/◌, ◌%◌, ◌^◌, Bool, false, ◌&&◌, ◌||◌, not, List, [], ◌∷◌, ◌++◌, String, Option, none,
  some, if◌then◌else◌, ◌==◌, nat_eq, list_eq, ltb, length, contains,
}
use utlsproxy.Common.Int.{ℤ}
use utlsproxy.Common.Outcome.{Result, ok, err, ◌>>=◌, ◌>>◌, ensure}
use utlsproxy.Common.Text.{Bytes}
use utlsproxy.Config.{Config}
use utlsproxy.Netip.{
  Addr, v4, v6, addr_eq, is4, is_loopback, is_unspecified, is_multicast, broadcast, addr_string,
}
use utlsproxy.Profiles.{ProfileError, Extension, Modification, UConn, compatible}
use utlsproxy.Profiles

unfoldable pub is_redirect : Addr → Bytes → Bool
is_redirect (v4 n) redirect = addr_string n == redirect
is_redirect (v6 n) redirect = false

pub data DialError : Type 0 where
  lookup_failed no_local_addresses upstream_connect upstream_tls : Bytes → DialError
  loop_or_invalid_address : Addr → DialError
  profile_error : ProfileError → DialError
  alpn_mismatch unsupported_alps no_ipv4_address : DialError

-- the test of `CheckDestination`
unfoldable pub is_refused : Addr → List Addr → Bytes → Bool
is_refused ip locals redirect =
    not (is4 ip)
    || is_loopback ip
    || is_unspecified ip
    || is_multicast ip
    || ip == broadcast
    || contains locals ip
    || is_redirect ip redirect

unfoldable pub check_destination :
    Result Bytes (List Addr) → Addr → Bytes → Result DialError (Unit {0})
check_destination (err e) ip redirect = err (no_local_addresses e)
check_destination (ok locals) ip redirect =
    ensure (not (is_refused ip locals redirect)) (loop_or_invalid_address ip)

-- The part of the connection's state that the handshake leaves.
pub record Negotiated : Type 0 where
  pub protocol : String
  pub settings : Bytes

-- What `DialUpstream` returns; the text of the address and the port is the pair of them.
pub record Dialed : Type 0 where
  pub raw : ℕ
  pub client : UConn
  pub modifications : List Modification
  pub negotiated : Negotiated
  pub ip : Addr
  pub port : ℤ

-- The connections opened and closed so far, and the error of the last address.
pub record Attempts : Type 0 where
  pub opened : List ℕ
  pub closed : List ℕ
  pub last : Option DialError

unfoldable pub wrap : {A : Type 0} → (Bytes → DialError) → Result Bytes A → Result DialError A
wrap f (ok x) = ok x
wrap f (err e) = err (f e)

unfoldable pub profiled :
    Result ProfileError (UConn × List Modification) → Result DialError (UConn × List Modification)
profiled (ok x) = ok x
profiled (err e) = err (profile_error e)

-- the error after the loop
unfoldable pub last_error : Option DialError → DialError
last_error none = no_ipv4_address
last_error (some e) = e

module _ (utls_id_to_spec : String → Result ProfileError (List Extension))
    (apply_preset : List Extension → Bool) (handshake : ℕ → UConn → Result Bytes Negotiated) where
  -- `handshakeUpstream`
  unfoldable pub handshake_upstream :
      ℕ → Config → String → List String → Result DialError (UConn × List Modification × Negotiated)
  handshake_upstream raw c host offered = do
    (u, mods) ← profiled (
        Profiles.new utls_id_to_spec apply_preset c.upstream.profile host c.upstream.alpn_mode
          offered)
    state ← wrap upstream_tls (handshake raw u)
    ensure (compatible state.protocol offered) alpn_mismatch
    ensure (length state.settings == 0) unsupported_alps
    ok (u, mods, state)

  module _ (local_addresses : Addr → Result Bytes (List Addr)) (dial : Addr → Result Bytes ℕ) where
    -- what the loop does with an address from its dial on; `rest` is the loop's next turn
    unfoldable pub after_handshake :
        ℕ
        → Addr
        → Config
        → Attempts
        → (Attempts → Result DialError Dialed × Attempts)
        → Result DialError (UConn × List Modification × Negotiated)
        → Result DialError Dialed × Attempts
    after_handshake raw ip c s rest (err e) =
        rest
          (record { opened = s.opened ++ raw ∷ []; closed = s.closed ++ raw ∷ []; last = some e })
    after_handshake raw ip c s rest (ok (u, mods, state)) = (
      ok (record {
        raw = raw;
        client = u;
        modifications = mods;
        negotiated = state;
        ip = ip;
        port = c.upstream.port;
      }),
      record s { opened = s.opened ++ raw ∷ [] },
    )

    unfoldable pub after_dial :
        Addr
        → Config
        → String
        → List String
        → Attempts
        → (Attempts → Result DialError Dialed × Attempts)
        → Result Bytes ℕ
        → Result DialError Dialed × Attempts
    after_dial ip c host offered s rest (err e) =
        rest (record s { last = some (upstream_connect e) })
    after_dial ip c host offered s rest (ok raw) =
        after_handshake raw ip c s rest (handshake_upstream raw c host offered)

    unfoldable pub after_check :
        Addr
        → Config
        → String
        → List String
        → Attempts
        → (Attempts → Result DialError Dialed × Attempts)
        → Result DialError (Unit {0})
        → Result DialError Dialed × Attempts
    after_check ip c host offered s rest (err e) = rest (record s { last = some e })
    after_check ip c host offered s rest (ok u) = after_dial ip c host offered s rest (dial ip)

    -- the loop over the addresses
    unfoldable pub dial_each :
        List Addr → Config → String → List String → Attempts → Result DialError Dialed × Attempts
    dial_each [] c host offered s = (err (last_error s.last), s)
    dial_each (ip ∷ ips) c host offered s =
        after_check ip c host offered s (λ s'. dial_each ips c host offered s')
          (check_destination (local_addresses ip) ip c.address)

    -- `DialUpstream`, with the outcome of the lookup
    unfoldable pub dial_upstream :
        Result Bytes (List Addr)
        → Config
        → String
        → List String
        → Result DialError Dialed × Attempts
    dial_upstream (err e) c host offered =
        (err (lookup_failed e), record { opened = []; closed = []; last = none })
    dial_upstream (ok ips) c host offered =
        dial_each ips c host offered (record { opened = []; closed = []; last = none })
