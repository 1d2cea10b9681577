-- ===== src/Config/Validate/Endpoints.antt =====
-- internal/config/config.go: the addresses that `Endpoint` accepts.
use utlsproxy.Common.{
  ℕ, ◌≤◌, ◌≡◌, ◌≢◌, ◌⊎◌, inl, inr, Bool, true, false, ◌&&◌, ◌||◌, not, Option, none, some, refl,
  arith, if◌then◌else◌, ◌==◌, nat_eq,
}
use utlsproxy.Common.Outcome.{Result, ok, err}
use utlsproxy.Common.Text.{Bytes}
use utlsproxy.Config.Domain.{ConfigError, endpoint, expected_ipv4_port, invalid_endpoint}
use utlsproxy.Config.Validate.Valid.{IsEndpoint, IsUnicast}
use utlsproxy.Netip.{
  Addr, v4, v6, addr_eq, is4, is_multicast, is_unspecified, broadcast, parse_addr_port,
}

module _ (parse_v6 : Bytes → Option ℕ) (listener : Bool) (s : Bytes) where
  -- the tests of `Endpoint` on what it has read
  abbrev tested : Option (Addr × ℕ) → Result ConfigError (Unit {0})
  tested o = elim o [
    | none ↦ err (expected_ipv4_port s)
    | some (a, port) ↦
        if not (is4 a) || port == 0
        then err (expected_ipv4_port s)
        else if is_multicast a || a == broadcast || (not listener && is_unspecified a)
        then err (invalid_endpoint s)
        else ok tt
  ]

  abbrev Read : Option (Addr × ℕ) → Type 0
  Read o = (n port : ℕ) × (o ≡ some (v4 n, port)) × (1 ≤ port) × IsUnicast listener n

  tested-Read : (o : Option (Addr × ℕ)) → tested o ≡ ok tt → Read o
  unfolding is_multicast is_unspecified
  tested-Read none h = cc
  tested-Read (some (v6 n, port)) h = ground (arith, h)
  tested-Read (some (v4 n, port)) h = (
    n,
    port,
    refl,
    ground (arith, h),
    (
      (λ e. ground (arith, h, e)),
      (λ e. ground (arith, h, e)),
      at listener (λ e z. ground (arith, h, e, z)),
    ),
  )
    where
      at : (b : Bool) → (b ≡ false → n ≢ 0) → (b ≡ true) ⊎ (n ≢ 0)
      at true k = inl refl
      at false k = inr (k refl)

  pub endpoint-IsEndpoint : endpoint parse_v6 s listener ≡ ok tt → IsEndpoint parse_v6 listener s
  unfolding endpoint
  endpoint-IsEndpoint h = (h, tested-Read (parse_addr_port parse_v6 s) h)
