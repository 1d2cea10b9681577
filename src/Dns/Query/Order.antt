-- ===== src/Dns/Query/Order.antt =====
-- internal/dns/resolver.go: the servers of a flight are asked in the order of their groups.
use utlsproxy.Common.{suc}
use utlsproxy.Common.{
  suc, Bool, Bool-cases, inl, inr, true, false, List, [], ◌∷◌, Option, none, some, if◌then◌else◌,
  ◌==◌, ltb, length, nat_eq, ◌≡◌, ◌≢◌, refl, arith, ◌∙◌, ap, ℕ,
}
use utlsproxy.Common.Int.{ℤ}
use utlsproxy.Common.Outcome.{Result, ok, err, ◌>>=◌}
use utlsproxy.Common.Text.{Bytes}
use utlsproxy.Dns.Group.{Group}
use utlsproxy.Dns.Query.{
  QueryError, of_server, Tried, is_permanent, is_answered, after_server, last_result, conclude,
  query_servers, query_groups, query,
}
use utlsproxy.Dns.Resolve.{ResolveError}
use utlsproxy.Netip.{Addr}

-- Every server with the interface of its group, in order.
on_iface : ℤ → List Bytes → List (Bytes × ℤ) → List (Bytes × ℤ)
on_iface iface [] rest = rest
on_iface iface (server ∷ servers) rest = (server, iface) ∷ on_iface iface servers rest

unfoldable pub all_servers : List Group → List (Bytes × ℤ)
unfolding on_iface
all_servers [] = []
all_servers (g ∷ gs) = on_iface g.iface g.servers (all_servers gs)

unfoldable pub decide :
    Result ResolveError (List Addr × ℕ)
    → (ResolveError → Result QueryError (List Addr × ℕ))
    → Result QueryError (List Addr × ℕ)
decide (ok answer) next = ok answer
decide (err e) next = let later = next e in if is_permanent e then err (of_server e) else later

-- what the outer loop does after a group
next_group : (Tried → Result QueryError Tried) → Tried → Result QueryError Tried
next_group go s = let next = go s in if is_answered s then ok s else next

positive : (n : ℕ) → (suc n == 0) ≡ false
positive n = ground arith

more : (n : ℕ) → ltb 0 (suc n) ≡ true
more n = ground arith

answered_group :
    (ips : List Addr) (ttl : ℕ) (go : Tried → Result QueryError Tried)
    → ips ≢ []
    → (next_group go (record { ips = ips; ttl = ttl; last = none }) >>= conclude) ≡ ok (ips, ttl)
unfolding next_group is_answered conclude
answered_group [] ttl go h = absurd (h refl)
answered_group (ip ∷ ips) ttl go h = rw (more (length ips), positive (length ips)) refl

unanswered_test :
    (o : Option ResolveError) (n : ℕ)
    → n ≡ 0
    → ◌≡◌ {A = Bool} (elim o [ none ↦ ltb 0 n | some e ↦ false ]) false
unanswered_test none n h = ground (arith, h)
unanswered_test (some e) n h = refl

concluded : (s : Tried) → s.ips ≡ [] → conclude s ≡ err (last_result s.last)
unfolding conclude
concluded s h = rw h refl

unanswered :
    (s : Tried) (go : Tried → Result QueryError Tried) → s.ips ≡ [] → next_group go s ≡ go s
unfolding next_group is_answered
unanswered s go h =
    ap (λ b. if b then ok s else go s) (unanswered_test s.last (length s.ips) (ground (arith, h)))

module _ (resolve : Bytes → ℤ → Result ResolveError (List Addr × ℕ)) where
  -- The first server that answers, or that says that the name has no address, decides; if none does,
  -- the last one's error is returned.
  unfoldable pub first_decisive :
      List (Bytes × ℤ) → Option ResolveError → Result QueryError (List Addr × ℕ)
  unfolding decide
  first_decisive [] last = err (last_result last)
  first_decisive ((server, iface) ∷ rest) last =
      decide (resolve server iface) (λ e. first_decisive rest (some e))

  turn-decide :
      (r : Result ResolveError (List Addr × ℕ)) (servers : Tried → Result QueryError Tried)
      (go : Tried → Result QueryError Tried)
      (later : ResolveError → Result QueryError (List Addr × ℕ))
      → ((ips : List Addr) (ttl : ℕ) → r ≡ ok (ips, ttl) → ips ≢ [])
      → ((e : ResolveError)
          → ((servers (record { ips = []; ttl = 0; last = some e }) >>= next_group go) >>= conclude)
            ≡ later e)
      → ((after_server r servers >>= next_group go) >>= conclude) ≡ decide r later
  unfolding after_server decide
  turn-decide (ok (ips, ttl)) servers go later some_ h =
      answered_group ips ttl go (some_ ips ttl refl)
  turn-decide (err e) servers go later some_ h = elim (Bool-cases (is_permanent e)) [
    | inl y ↦ rw y refl
    | inr n ↦ rw n (h e)
  ]

  module _
      (some_address : (server : Bytes) (iface : ℤ) (ips : List Addr) (ttl : ℕ)
        → resolve server iface ≡ ok (ips, ttl)
        → ips ≢ []) where
    servers-decide :
        (iface : ℤ) (servers : List Bytes) (rest : List (Bytes × ℤ))
        (go : Tried → Result QueryError Tried) (s : Tried)
        → s.ips ≡ []
        → ((s' : Tried) → s'.ips ≡ [] → (go s' >>= conclude) ≡ first_decisive rest s'.last)
        → ((query_servers resolve iface servers s >>= next_group go) >>= conclude)
          ≡ first_decisive (on_iface iface servers rest) s.last
    unfolding query_servers on_iface first_decisive
    servers-decide iface [] rest go s h k = ap (λ r. r >>= conclude) (unanswered s go h) ∙ k s h
    servers-decide iface (server ∷ servers) rest go s h k =
        turn-decide (resolve server iface) _ go _ (some_address server iface)
          (λ e. servers-decide iface servers rest go _ refl k)

    groups-decide :
        (gs : List Group) (s : Tried)
        → s.ips ≡ []
        → (query_groups resolve gs s >>= conclude) ≡ first_decisive (all_servers gs) s.last
    unfolding query_groups all_servers next_group first_decisive
    groups-decide [] s h = concluded s h
    groups-decide (g ∷ gs) s h =
        servers-decide g.iface g.servers (all_servers gs) (query_groups resolve gs) s h
          (λ s' h'. groups-decide gs s' h')

    -- A flight asks the servers of its groups in order, and the first one that answers, or that says
    -- that the name has no address, decides; if none does, the last one's error is returned. Answers
    -- of `resolve` have an address.
    pub query-first_decisive :
        (gs : List Group) → query resolve gs ≡ first_decisive (all_servers gs) none
    unfolding query
    query-first_decisive gs = groups-decide gs _ refl
