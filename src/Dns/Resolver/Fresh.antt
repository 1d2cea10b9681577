-- ===== src/Dns/Resolver/Fresh.antt =====
-- Any interleaving of lookups, finished flights, refreshes and new configurations leaves in the cache
-- answers of the current routing only.
use utlsproxy.Common.{list_beq_iff}
use utlsproxy.Common.{◌∙◌, if◌then◌else◌, All-get_elem?}
use native.Mathlib.Nat.{le_refl}
use utlsproxy.Common.Best.{All-map}
use utlsproxy.Common.Int.{ℤ, pos, ltb_ℤ}
use utlsproxy.Common.{nat_eq, list_eq, ◌==◌, ◌%◌, get_elem?, ltb}
use utlsproxy.Dns.Resolver.{expiry, may_store, make_room, dns_beq}
use utlsproxy.Common.{
  ℕ, ◌+◌, ◌≤◌, ◌<◌, ◌^◌, false, List, [], ◌∷◌, Option, some, none, ◌≡◌, refl, All, arith, length,
  Bool-cases, inl, inr, subst, ap, get_elem?,
}
use utlsproxy.Common.Map.{All-erase, All-insert, All-lookup, All-erase_at, lookup, erase}
use utlsproxy.Common.Text.{Bytes, to_lower}
use utlsproxy.Config.{Dns}
use utlsproxy.Dns.Group.{Group, discovery_beq_iff}
use utlsproxy.Dns.Select.{select}
use utlsproxy.Dns.Resolver.{
  Resolver, Key, key_eq, Cached, Flight, Found, Answer, hit, start, no_group, set_config,
  apply_discovery, begin_lookup, use_cache, store_answer, is_changed, kept_discovery, unrefreshed,
}
use utlsproxy.Netip.{Addr}

-- The resolver and the flights that have started.
pub record Running : Type 0 where
  pub resolver : Resolver
  pub flights : List Flight

use_cache-hit :
    (now : ℕ) (f : Flight) (o : Option Cached) (r : Resolver) (ips : List Addr)
    → (use_cache now f o r).1 ≡ hit ips
    → (e : Cached) × (o ≡ some e) × (e.ips ≡ ips) × (now < e.expires)
unfolding use_cache
use_cache-hit now f none r ips h = absurd (ground arith)
use_cache-hit now f (some entry) r ips h = (entry, refl, ground arith, ground arith)

-- `Answers groups host ips until`: servers of these groups gave these addresses for the host, to be
-- used before that time.
module _ (Answers : List Group → Bytes → List Addr → ℕ → Type 0) where
  abbrev pub groups_now : Resolver → Bytes → List Group
  groups_now r host = select r.state.discovery.groups host

  abbrev pub EntryFresh : Resolver → Key × Cached → Type 0
  EntryFresh r (k, e) =
      k.generation ≡ r.state.generation → Answers (groups_now r k.host) k.host e.ips e.expires

  pub record FlightFresh (r : Resolver) (f : Flight) : Type 0 where
    pub old : f.key.generation ≤ r.state.generation
    pub current : f.key.generation ≡ r.state.generation → f.groups ≡ groups_now r f.key.host

  pub record IsFresh (s : Running) : Type 0 where
    pub cache : All (EntryFresh s.resolver) s.resolver.cache
    pub flights : All (FlightFresh s.resolver) s.flights

  -- what a lookup adds to the flights
  abbrev pub started : Answer → List Flight → List Flight
  started (start f) fs = f ∷ fs
  started _ fs = fs

  pub data Step : Running → Running → Type 0 where
    look :
        (s : Running) (fqdn : Bytes → Bytes) (now : ℕ) (name : Bytes)
        → Step s (record {
          resolver = (begin_lookup fqdn now name s.resolver).0;
          flights = started (begin_lookup fqdn now name s.resolver).1 s.flights;
        })
    land :
        (s : Running) (i : ℕ) (f : Flight) (ips : List Addr) (ttl query_started now victim : ℕ)
        → get_elem? s.flights i ≡ some f
        → Answers f.groups f.key.host ips (expiry ttl query_started)
        → Step s
            (record s { resolver = store_answer f ips ttl query_started now victim s.resolver })
    set_cfg : (s : Running) (c : Dns) → Step s (record s { resolver = set_config c s.resolver })
    apply :
        (s : Running) (c : Dns) (f : Found) (now : ℕ)
        → s.resolver.state.generation + 1 < 2 ^ 64
        → Step s (record s { resolver = apply_discovery c f now s.resolver })

  pub data Reach (s : Running) : Running → Type 0 where
    here : Reach s s
    next : {t u : Running} → Reach s t → Step t u → Reach s u

  make_room-All :
      (size : ℤ) (victim : ℕ) (r : Resolver)
      → All (EntryFresh r) r.cache
      → All (EntryFresh r) (make_room size victim r.cache)
  unfolding make_room
  make_room-All size victim r h = elim (Bool-cases (ltb_ℤ (pos (length r.cache)) size)) [
    | inl y ↦ rw y h
    | inr n ↦ rw n (All-erase_at (EntryFresh r) victim r.cache h)
  ]

  same_groups :
      (c : Dns) (f : Found) (r : Resolver)
      → is_changed c f r ≡ false
      → r.state.discovery.groups ≡ (kept_discovery f).groups
  unfolding is_changed
  same_groups c f r h = ground (arith, discovery_beq_iff (kept_discovery f) r.state.discovery)

  begin_or_none :
      (s : Running) (f : Flight) (r : Resolver)
      → IsFresh (record s { resolver = r })
      → FlightFresh r f
      → IsFresh (record {
        resolver = r;
        flights = started (if length f.groups == 0 then no_group else start f) s.flights;
      })
  begin_or_none s f r h ff = elim (Bool-cases (length f.groups == 0)) [
    | inl y ↦ rw y h
    | inr n ↦ rw n (record { cache = h.cache; flights = (ff, h.flights) })
  ]

  use_cache-IsFresh :
      (s : Running) (now : ℕ) (f : Flight) (o : Option Cached)
      → IsFresh s
      → FlightFresh s.resolver f
      → IsFresh (record {
        resolver = (use_cache now f o s.resolver).0;
        flights = started (use_cache now f o s.resolver).1 s.flights;
      })
  unfolding use_cache
  use_cache-IsFresh s now f none h ff = begin_or_none s f s.resolver h ff
  use_cache-IsFresh s now f (some entry) h ff = elim (Bool-cases (ltb now entry.expires)) [
    | inl y ↦ rw y h
    | inr n ↦ rw n (
        begin_or_none s f (record s.resolver { cache = erase f.key s.resolver.cache })
          (record {
            cache = All-erase (EntryFresh s.resolver) f.key s.resolver.cache h.cache;
            flights =
                All-map (FlightFresh s.resolver) _
                  (λ g k. record { old = k.old; current = k.current }) s.flights h.flights;
          })
          (record { old = ff.old; current = ff.current }))
  ]

  -- a new generation leaves no flight current
  outdated :
      (r r' : Resolver)
      → r.state.generation + 1 < 2 ^ 64
      → r'.state.generation ≡ (r.state.generation + 1) % 2 ^ 64
      → (f : Flight) → FlightFresh r f
      → FlightFresh r' f
  outdated r r' small e f h = record {
    old = omega (arith, h.old);
    current = λ c. absurd (omega (arith, h.old));
  }

  look-IsFresh :
      (s : Running) (fqdn : Bytes → Bytes) (now : ℕ) (name : Bytes)
      → IsFresh s
      → IsFresh (record {
        resolver = (begin_lookup fqdn now name s.resolver).0;
        flights = started (begin_lookup fqdn now name s.resolver).1 s.flights;
      })
  unfolding begin_lookup
  look-IsFresh s fqdn now name h = elim (Bool-cases (s.resolver.state.last_error == [])) [
    | inl fine ↦
        rw fine (use_cache-IsFresh s now _ _ h (record { old = le_refl _; current = λ e. refl }))
    | inr failed ↦ rw failed h
  ]

  land-IsFresh :
      (s : Running) (f : Flight) (ips : List Addr) (ttl query_started now victim : ℕ)
      → FlightFresh s.resolver f
      → Answers f.groups f.key.host ips (expiry ttl query_started)
      → IsFresh s
      → IsFresh (record s { resolver = store_answer f ips ttl query_started now victim s.resolver })
  unfolding store_answer
  land-IsFresh s f ips ttl query_started now victim ff a h =
      elim (Bool-cases (may_store f ttl query_started now s.resolver)) [
        | inl y ↦ rw y (record {
          cache =
              All-insert (EntryFresh s.resolver) f.key _ _
                (λ e.
                  subst (λ g. Answers g f.key.host ips (expiry ttl query_started)) (ff.current e) a)
                (make_room-All f.cfg.cache_size victim s.resolver h.cache);
          flights =
              All-map (FlightFresh s.resolver) _
                (λ g k. record { old = k.old; current = k.current }) s.flights h.flights;
        })
        | inr n ↦ rw n h
      ]

  apply-IsFresh :
      (s : Running) (c : Dns) (f : Found) (now : ℕ)
      → s.resolver.state.generation + 1 < 2 ^ 64
      → IsFresh s
      → IsFresh (record s { resolver = apply_discovery c f now s.resolver })
  unfolding apply_discovery
  apply-IsFresh s c f now small h = elim (Bool-cases (dns_beq c s.resolver.cfg)) [
    | inr stale ↦ rw stale h
    | inl same ↦ elim (Bool-cases (is_changed c f s.resolver)) [
      | inl changed ↦
          rw (same, changed)
            (record {
              cache = tt;
              flights =
                  All-map (FlightFresh s.resolver) _ (outdated s.resolver _ small refl) s.flights
                    h.flights;
            })
      | inr kept ↦
          rw (same, kept)
            let groups = same_groups c f s.resolver kept in
              record {
                cache =
                    All-map (EntryFresh s.resolver) _
                      (λ (k, e) fresh now'.
                        subst (λ gs. Answers (select gs k.host) k.host e.ips e.expires) groups
                          (fresh now'))
                      s.resolver.cache h.cache;
                flights =
                    All-map (FlightFresh s.resolver) _
                      (λ g k. record {
                        old = k.old;
                        current = λ now'. k.current now' ∙ ap (λ gs. select gs g.key.host) groups;
                      })
                      s.flights h.flights;
              }
    ]
  ]

  Step-IsFresh : {s t : Running} → Step s t → IsFresh s → IsFresh t
  unfolding set_config
  Step-IsFresh (look s fqdn now name) h = look-IsFresh s fqdn now name h
  Step-IsFresh (land s i f ips ttl q now victim e a) h =
      land-IsFresh s f ips ttl q now victim
        (All-get_elem? (FlightFresh s.resolver) s.flights i f h.flights e) a h
  Step-IsFresh (set_cfg s c) h = record {
    cache = tt;
    flights =
        All-map (FlightFresh s.resolver) _ (λ g k. record { old = k.old; current = k.current })
          s.flights h.flights;
  }
  Step-IsFresh (apply s c f now small) h = apply-IsFresh s c f now small h

  Reach-IsFresh : {s t : Running} → Reach s t → IsFresh s → IsFresh t
  Reach-IsFresh here h = h
  Reach-IsFresh (next r st) h = Step-IsFresh st (Reach-IsFresh r h)

  look_hit :
      (fqdn : Bytes → Bytes) (now : ℕ) (name : Bytes) (r : Resolver) (ips : List Addr)
      → (begin_lookup fqdn now name r).1 ≡ hit ips
      → (e : Cached) × (r.state.last_error ≡ [])
        × (lookup (record { generation = r.state.generation; host = to_lower (fqdn name) }) r.cache
            ≡ some e)
        × (e.ips ≡ ips)
        × (now < e.expires)
  unfolding begin_lookup
  look_hit fqdn now name r ips h = elim (Bool-cases (r.state.last_error == [])) [
    | inl fine ↦
        let (e, x, y, z) = use_cache-hit now _ _ r ips (rw fine at h) in
        (e, (list_beq_iff r.state.last_error []).0 fine, x, y, z)
    | inr failed ↦ cc (rw failed at h)
  ]

  -- However lookups, answers, refreshes and new configurations interleave after the start, an address
  -- that a lookup takes from the cache was given for that host, by servers of the groups that the
  -- current routing selects for it and with a time to live that has not run out, and it is not used
  -- after a failed refresh. Each answer comes from the groups of its flight; the generation counter
  -- does not wrap.
  pub cached_answer :
      (c : Dns) (s : Running)
      → Reach (record { resolver = unrefreshed c; flights = [] }) s
      → (fqdn : Bytes → Bytes) (now : ℕ) (name : Bytes) (ips : List Addr)
      → (begin_lookup fqdn now name s.resolver).1 ≡ hit ips
      → (s.resolver.state.last_error ≡ [])
        × ((until : ℕ) × Answers
              (groups_now s.resolver (to_lower (fqdn name)))
              (to_lower (fqdn name))
              ips
              until
            × (now < until))
  cached_answer c s r fqdn now name ips h =
      let fresh = Reach-IsFresh r (record { cache = tt; flights = tt }) in
      let (e, fine, found, same, unexpired) = look_hit fqdn now name s.resolver ips h in
      let key : Key = record {
        generation = s.resolver.state.generation;
        host = to_lower (fqdn name);
      } in
      (
        fine,
        (
          e.expires,
          subst (λ x. Answers (groups_now s.resolver key.host) key.host x e.expires) same
              (All-lookup (EntryFresh s.resolver) key e s.resolver.cache fresh.cache found refl),
          unexpired,
        ),
      )
