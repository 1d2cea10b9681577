-- ===== src/Config/Access.antt =====
-- internal/config/config.go: `AllowsDomain` and `AllowsClient`.
use utlsproxy.Common.{
  ℕ, Bool, false, ◌||◌, List, [], ◌∷◌, Option, none, some, ◌==◌, nat_eq, list_eq,
}
use utlsproxy.Common.Text.{Bytes}
use utlsproxy.Netip.{Addr, parse_prefix, prefix_contains, unmap}
use utlsproxy.Config.{Config}

unfoldable pub listed : List Bytes → Bytes → Bool
listed [] s = false
listed (d ∷ ds) s = d == s || listed ds s

-- `AllowsDomain`
unfoldable pub allows_domain : Config → Bytes → Bool
unfolding listed
allows_domain c s = listed c.domains s

module _ (parse_v6 : Bytes → Option ℕ) where
  -- A text that is no prefix gives the zero `Prefix`, which contains nothing.
  unfoldable pub covers : Bytes → Addr → Bool
  covers s a = elim (parse_prefix parse_v6 s) [
    | none ↦ false
    | some p ↦ prefix_contains p (unmap a)
  ]

  unfoldable pub any_covers : List Bytes → Addr → Bool
  any_covers [] a = false
  any_covers (s ∷ rest) a = covers s a || any_covers rest a

  -- `AllowsClient`
  unfoldable pub allows_client : Config → Addr → Bool
  unfolding any_covers
  allows_client c a = any_covers c.client_cidrs a
