-- ===== src/Config/Validate/Loops.antt =====
-- What the loops of `Validate` in internal/config/config.go establish for their lists.
use utlsproxy.Config.Validate.Valid.{Distinct, IsEndpoint}
use utlsproxy.Common.{nat_eq, list_eq, string_eq}
use utlsproxy.Common.{
  ℕ, ◌≡◌, true, false, List, [], ◌∷◌, Option, arith, contains, refl, list_eq, nat_eq, string_eq,
  All, list_beq_iff,
}
use utlsproxy.Common.Int.{int_eq}
use utlsproxy.Common.Text.{Bytes}
use utlsproxy.Common.Outcome.{ok}
use utlsproxy.Config.Validate.Endpoints.{endpoint-IsEndpoint}
use utlsproxy.Config.Validate.{check_servers, check_listen, check_cidrs, is_cidr}

module _ (parse_v6 : Bytes → Option ℕ) where
  pub check_servers-All :
      (ss : List Bytes) → check_servers parse_v6 ss ≡ ok tt → All (IsEndpoint parse_v6 false) ss
  unfolding check_servers
  check_servers-All [] h = tt
  check_servers-All (s ∷ ss) h =
      (endpoint-IsEndpoint parse_v6 false s (ground arith), check_servers-All ss (ground arith))

  pub check_cidrs-All :
      (ss : List Bytes) → check_cidrs parse_v6 ss ≡ ok tt → All (λ s. is_cidr parse_v6 s ≡ true) ss
  unfolding check_cidrs
  check_cidrs-All [] h = tt
  check_cidrs-All (s ∷ ss) h = (ground arith, check_cidrs-All ss (ground arith))

  pub fresh-contains :
      (d : Bytes) (seen ds : List Bytes)
      → All (λ e. contains (d ∷ seen) e ≡ false) ds
      → (contains ds d ≡ false) × All (λ e. contains seen e ≡ false) ds
  unfolding contains
  fresh-contains d seen [] h = (refl, tt)
  fresh-contains d seen (e ∷ ds) (h, hs) =
      let (a, b) = fresh-contains d seen ds hs in
      (ground (arith, list_beq_iff d e, list_beq_iff e d), (ground arith, b))

  pub check_listen-Distinct :
      (seen ss : List Bytes)
      → check_listen parse_v6 seen ss ≡ ok tt
      → All (λ s. contains seen s ≡ false) ss × All (IsEndpoint parse_v6 true) ss × Distinct ss
  unfolding check_listen
  check_listen-Distinct seen [] h = (tt, tt, tt)
  check_listen-Distinct seen (s ∷ ss) h =
      let (a, b, c) = check_listen-Distinct (s ∷ seen) ss (ground arith) in
      let (f, g) = fresh-contains s seen ss a in
      ((ground arith, g), (endpoint-IsEndpoint parse_v6 true s (ground arith), b), (f, c))
