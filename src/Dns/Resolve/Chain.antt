-- ===== src/Dns/Resolve/Chain.antt =====
-- internal/dns/resolver.go: the addresses that `resolve` returns belong to the aliases of the name.
use native.Mathlib.Nat.{le_refl, le_trans}
use utlsproxy.Common.{Bool}
use utlsproxy.Dns.Resolve.{after_walk, after_ask, turn}
use mathlib.Core.List.{Memᴰ}
use utlsproxy.Common.{
  ℕ, suc, zero, ◌≤◌, ◌^◌, ◌-◌, Bool-cases, true, false, List, [], ◌∷◌, none, some, ◌≡◌, ◌≢◌, ◌⊎◌,
  inl, inr, refl, arith, All, All-append, length, ◌==◌, nat_eq, list_eq, list_beq_iff, not, ◌&&◌,
  ◌||◌, any, contains, ltb, subst, Bool,
}
use utlsproxy.Common.Best.{All-map}
use utlsproxy.Common.Outcome.{Result, ok, err, bind-eq-ok}
use utlsproxy.Common.Text.{Bytes, to_lower}
use utlsproxy.Dns.Resolve.{
  Rr, Rdata, a, cname, other, Msg, Net, ResolveError, Scan, Walk, found, failed, again, min,
  is_owned, scan_rdata, scan_rr, scan, equal_fold, step_walk, walk, ask, resolve_from, resolve,
}
use utlsproxy.Netip.{Addr, unmap}

-- The answer has an A record of the owner with this address, which lives at least this long.
pub record IsAddress (owner : Bytes) (answer : List Rr) (ttl : ℕ) (ip : Addr) : Type 0 where
  pub rr : Rr
  pub raw : Addr
  pub member : Memᴰ rr answer
  pub owned : is_owned owner rr ≡ true
  pub data_ : rr.rdata ≡ a (some raw)
  pub same : unmap raw ≡ ip
  pub lives : ttl ≤ rr.ttl

-- The answer has an alias of the owner to this name, which lives at least this long.
pub record IsAlias (owner : Bytes) (answer : List Rr) (ttl : ℕ) (next : Bytes) : Type 0 where
  pub rr : Rr
  pub target : Bytes
  pub member : Memᴰ rr answer
  pub owned : is_owned owner rr ≡ true
  pub data_ : rr.rdata ≡ cname target
  pub same : to_lower target ≡ next
  pub lives : ttl ≤ rr.ttl

IsAddress-sooner :
    {owner : Bytes} {answer : List Rr} (t t' : ℕ) (ip : Addr)
    → t' ≤ t
    → IsAddress owner answer t ip
    → IsAddress owner answer t' ip
IsAddress-sooner t t' ip le h = record {
  rr = h.rr;
  raw = h.raw;
  member = h.member;
  owned = h.owned;
  data_ = h.data_;
  same = h.same;
  lives = omega (arith, le, h.lives);
}

IsAlias-sooner :
    {owner : Bytes} {answer : List Rr} (t t' : ℕ) (next : Bytes)
    → t' ≤ t
    → IsAlias owner answer t next
    → IsAlias owner answer t' next
IsAlias-sooner t t' next le h = record {
  rr = h.rr;
  target = h.target;
  member = h.member;
  owned = h.owned;
  data_ = h.data_;
  same = h.same;
  lives = omega (arith, le, h.lives);
}

record Scanned (owner : Bytes) (answer : List Rr) (s : Scan) : Type 0 where
  addresses : All (IsAddress owner answer s.ttl) s.ips
  alias : (s.next ≡ []) ⊎ IsAlias owner answer s.ttl s.next

min_left : (x y : ℕ) → min x y ≤ x
min_left x y = ground arith

min_right : (x y : ℕ) → min x y ≤ y
min_right x y = ground arith

sooner_alias :
    {owner : Bytes} {answer : List Rr} (t t' : ℕ) (next : Bytes)
    → t' ≤ t
    → (next ≡ []) ⊎ IsAlias owner answer t next
    → (next ≡ []) ⊎ IsAlias owner answer t' next
sooner_alias t t' next le (inl e) = inl e
sooner_alias t t' next le (inr h) = inr (IsAlias-sooner t t' next le h)

ok_scan : (s s' : Scan) → ◌≡◌ {A = Result ResolveError Scan} (ok s) (ok s') → s ≡ s'
ok_scan s s' h = cc

scan_rdata-Scanned :
    (owner : Bytes) (answer : List Rr) (rr : Rr) (d : Rdata) (s s' : Scan)
    → Memᴰ rr answer
    → is_owned owner rr ≡ true
    → rr.rdata ≡ d
    → scan_rdata rr.ttl d s ≡ ok s'
    → Scanned owner answer s
    → Scanned owner answer s' × (s'.ttl ≤ s.ttl)
unfolding scan_rdata
scan_rdata-Scanned owner answer rr (a none) s s' m o e h k =
    subst (λ u. Scanned owner answer u × (u.ttl ≤ s.ttl)) (ok_scan s s' h) (k, le_refl s.ttl)
scan_rdata-Scanned owner answer rr (a (some ip)) s s' m o e h k =
    subst (λ u. Scanned owner answer u × (u.ttl ≤ s.ttl)) (ok_scan _ s' h)
      (
        record {
          addresses =
              All-append (IsAddress owner answer (min s.ttl rr.ttl)) s.ips (unmap ip ∷ [])
                (All-map _ _ (λ x. IsAddress-sooner s.ttl _ x (min_left s.ttl rr.ttl)) s.ips
                  k.addresses)
                (
                  record {
                    rr = rr;
                    raw = ip;
                    member = m;
                    owned = o;
                    data_ = e;
                    same = refl;
                    lives = min_right s.ttl rr.ttl;
                  },
                  tt,
                );
          alias = sooner_alias s.ttl _ s.next (min_left s.ttl rr.ttl) k.alias;
        },
        min_left s.ttl rr.ttl,
      )
scan_rdata-Scanned owner answer rr (cname target) s s' m o e h k =
    elim (Bool-cases (not (s.next == []) && not (s.next == to_lower target))) [
      | inl y ↦ cc (rw y at h)
      | inr n ↦
          subst (λ u. Scanned owner answer u × (u.ttl ≤ s.ttl)) (ok_scan _ s' (rw n at h))
            (
              record {
                addresses =
                    All-map _ _ (λ x. IsAddress-sooner s.ttl _ x (min_left s.ttl rr.ttl)) s.ips
                      k.addresses;
                alias = inr (record {
                  rr = rr;
                  target = target;
                  member = m;
                  owned = o;
                  data_ = e;
                  same = refl;
                  lives = min_right s.ttl rr.ttl;
                });
              },
              min_left s.ttl rr.ttl,
            )
    ]
scan_rdata-Scanned owner answer rr other s s' m o e h k =
    subst (λ u. Scanned owner answer u × (u.ttl ≤ s.ttl)) (ok_scan s s' h) (k, le_refl s.ttl)

scan_rr-Scanned :
    (owner : Bytes) (answer : List Rr) (rr : Rr) (s s' : Scan)
    → Memᴰ rr answer
    → scan_rr owner rr s ≡ ok s'
    → Scanned owner answer s
    → Scanned owner answer s' × (s'.ttl ≤ s.ttl)
unfolding scan_rr
scan_rr-Scanned owner answer rr s s' m h k = elim (Bool-cases (is_owned owner rr)) [
  | inl y ↦ scan_rdata-Scanned owner answer rr rr.rdata s s' m y refl (rw y at h) k
  | inr n ↦
      subst (λ u. Scanned owner answer u × (u.ttl ≤ s.ttl)) (ok_scan s s' (rw n at h))
        (k, le_refl s.ttl)
]

scan-Scanned :
    (owner : Bytes) (answer rrs : List Rr) (s s' : Scan)
    → All (λ rr. Memᴰ rr answer) rrs
    → scan owner rrs s ≡ ok s'
    → Scanned owner answer s
    → Scanned owner answer s' × (s'.ttl ≤ s.ttl)
unfolding scan
scan-Scanned owner answer [] s s' m h k =
    subst (λ u. Scanned owner answer u × (u.ttl ≤ s.ttl)) (ok_scan s s' h) (k, le_refl s.ttl)
scan-Scanned owner answer (rr ∷ rrs) s s' m h k =
    let (u, hu, h') = bind-eq-ok (scan_rr owner rr s) _ h in
    let (ku, le) = scan_rr-Scanned owner answer rr s u m.0 hu k in
    let (ks, le') = scan-Scanned owner answer rrs u s' m.1 h' ku in (ks, le_trans le' le)

whole_answer : (xs : List Rr) → All (λ x. Memᴰ x xs) xs
whole_answer [] = tt
whole_answer (x ∷ xs) = (Memᴰ.head refl, All-map _ _ (λ y m. Memᴰ.tail m) xs (whole_answer xs))

answer-Scanned :
    (owner : Bytes) (answer : List Rr) (ttl : ℕ) (s : Scan)
    → scan owner answer (record { ips = []; next = []; ttl = ttl }) ≡ ok s
    → Scanned owner answer s × (s.ttl ≤ ttl)
answer-Scanned owner answer ttl s h =
    scan-Scanned owner answer answer _ s (whole_answer answer) h
      (record { addresses = tt; alias = inl refl })

module _ (exchange : Net → ℕ → Bytes → Result Bytes Msg) (new_id : Bytes → ℕ) where
  -- The name leads to another by aliases of accepted answers, each living at least this long.
  pub data Leads (name : Bytes) (ttl : ℕ) : Bytes → Type 0 where
    here : Leads name ttl name
    via :
        {owner : Bytes} (asked : Bytes) (m : Msg) (next : Bytes)
        → Leads name ttl owner
        → ask exchange new_id asked ≡ ok m
        → IsAlias owner m.answer ttl next
        → Leads name ttl next

  Leads-sooner :
      {name : Bytes} {t : ℕ} {owner : Bytes}
      → Leads name t owner
      → (t' : ℕ) → t' ≤ t
      → Leads name t' owner
  Leads-sooner here t' le = here
  Leads-sooner {t} (via asked m next l e x) t' le =
      via asked m next (Leads-sooner l t' le) e (IsAlias-sooner t t' next le x)

  -- What a walk over an answer establishes, by its outcome.
  abbrev Walked : Bytes → Msg → Walk → Type 0
  Walked start m (found ips t) =
      (owner : Bytes) × Leads start t owner × All (IsAddress owner m.answer t) ips × (ips ≢ [])
  Walked start m (failed e) = Unit
  Walked start m (again next seen t) = Leads start t next

  Leads-next :
      (start owner asked : Bytes) (m : Msg) (s : Scan)
      → ask exchange new_id asked ≡ ok m
      → Leads start s.ttl owner
      → (s.next ≡ []) ⊎ IsAlias owner m.answer s.ttl s.next
      → (s.next == []) ≡ false
      → Leads start s.ttl s.next
  Leads-next start owner asked m s e l (inl empty) n =
      absurd (ground (arith, list_beq_iff s.next []))
  Leads-next start owner asked m s e l (inr alias) n = via asked m s.next l e alias

  step_walk-Walked :
      (start name owner asked : Bytes) (m : Msg) (seen : List Bytes) (s : Scan) (rest : Walk)
      → ask exchange new_id asked ≡ ok m
      → Leads start s.ttl owner
      → Scanned owner m.answer s
      → (Leads start s.ttl s.next → Walked start m rest)
      → Walked start m (step_walk name owner m.answer seen s rest)
  unfolding step_walk
  step_walk-Walked start name owner asked m seen s rest e l k go =
      elim (Bool-cases (length s.ips == 0)) [
        | inl none_ ↦ elim (Bool-cases (s.next == [])) [
          | inl end ↦ elim (Bool-cases (owner == name)) [
            | inl same ↦ rw (none_, end, same) tt
            | inr other_ ↦ rw (none_, end, other_) (l)
          ]
          | inr more ↦
              let next = Leads-next start owner asked m s e l k.alias more in
              elim (Bool-cases (contains seen s.next || ltb 8 (length seen))) [
                | inl full ↦ rw (none_, more, full) tt
                | inr room ↦
                    elim (Bool-cases (any (λ (rr : Rr). equal_fold rr.name s.next) m.answer)) [
                      | inl here_ ↦ rw (none_, more, room, here_) (go next)
                      | inr away ↦ rw (none_, more, room, away) next
                    ]
              ]
        ]
        | inr some_ ↦ elim (Bool-cases (s.next == [])) [
          | inl end ↦
              rw (some_, end)
                (owner, l, k.addresses, λ empty. absurd (ground (arith, empty, some_)))
          | inr more ↦ rw (some_, more) tt
        ]
      ]

  turn-Walked :
      (start name owner asked : Bytes) (m : Msg) (seen : List Bytes) (ttl : ℕ) (rest : Scan → Walk)
      (r : Result ResolveError Scan)
      → ask exchange new_id asked ≡ ok m
      → Leads start ttl owner
      → scan owner m.answer (record { ips = []; next = []; ttl = ttl }) ≡ r
      → ((s : Scan) → Leads start s.ttl s.next → Walked start m (rest s))
      → Walked start m
          (elim r [ err e ↦ failed e | ok s ↦ step_walk name owner m.answer seen s (rest s) ])
  turn-Walked start name owner asked m seen ttl rest (err _) e l h go = tt
  turn-Walked start name owner asked m seen ttl rest (ok s) e l h go =
      let (k, le) = answer-Scanned owner m.answer ttl s h in
      step_walk-Walked start name owner asked m seen s _ e (Leads-sooner l s.ttl le) k (go s)

  walk-Walked :
      (fuel : ℕ) (start name owner asked : Bytes) (m : Msg) (seen : List Bytes) (ttl : ℕ)
      → ask exchange new_id asked ≡ ok m
      → Leads start ttl owner
      → Walked start m (walk fuel name owner m.answer seen ttl)
  unfolding walk
  walk-Walked zero start name owner asked m seen ttl e l = tt
  walk-Walked (suc fuel) start name owner asked m seen ttl e l =
      turn-Walked start name owner asked m seen ttl _ _ e l refl
        (λ s next. walk-Walked fuel start name s.next asked m (s.next ∷ seen) s.ttl e next)

  -- What a result of the outer loop establishes.
  abbrev Resolved : Bytes → Result ResolveError (List Addr × ℕ) → Type 0
  Resolved start (err e) = Unit
  Resolved start (ok (ips, t)) =
      (asked owner : Bytes) × (m : Msg) × (ask exchange new_id asked ≡ ok m)
      × Leads start t owner
      × All (IsAddress owner m.answer t) ips
      × (ips ≢ [])

  ended-Resolved :
      (start asked : Bytes) (m : Msg) (w : Walk)
      (rest : Bytes → List Bytes → ℕ → Result ResolveError (List Addr × ℕ))
      → ask exchange new_id asked ≡ ok m
      → Walked start m w
      → ((next : Bytes) (seen : List Bytes) (t : ℕ)
          → Leads start t next
          → Resolved start (rest next seen t))
      → Resolved start (after_walk w rest)
  ended-Resolved start asked m (found ips t) rest e (owner, l, h, n) go =
      (asked, owner, m, e, l, h, n)
  ended-Resolved start asked m (failed _) rest e w go = tt
  ended-Resolved start asked m (again next seen t) rest e l go = go next seen t l

  asked-Resolved :
      (start name : Bytes) (seen : List Bytes) (ttl : ℕ) (r : Result ResolveError Msg)
      (rest : Bytes → List Bytes → ℕ → Result ResolveError (List Addr × ℕ))
      → ask exchange new_id name ≡ r
      → Leads start ttl name
      → ((next : Bytes) (seen : List Bytes) (t : ℕ)
          → Leads start t next
          → Resolved start (rest next seen t))
      → Resolved start (after_ask r (λ m. walk 10 name name m.answer (name ∷ seen) ttl) rest)
  asked-Resolved start name seen ttl (err _) rest e l go = tt
  asked-Resolved start name seen ttl (ok m) rest e l go =
      ended-Resolved start name m _ rest e
        (walk-Walked 10 start name name name m (name ∷ seen) ttl e l) go

  first-Resolved :
      (start : Bytes) (b : Bool) (r : Result ResolveError Msg) (walks : Msg → Walk)
      (go : Bytes → List Bytes → ℕ → Result ResolveError (List Addr × ℕ))
      → Resolved start (after_ask r walks go)
      → Resolved start (turn b r walks go)
  first-Resolved start true r walks go h = tt
  first-Resolved start false r walks go h = h

  resolve_from-Resolved :
      (hops : ℕ) (start name : Bytes) (seen : List Bytes) (ttl : ℕ)
      → Leads start ttl name
      → Resolved start (resolve_from exchange new_id hops name seen ttl)
  unfolding resolve_from
  resolve_from-Resolved zero start name seen ttl l = tt
  resolve_from-Resolved (suc hops) start name seen ttl l =
      first-Resolved start (contains seen name) _ _ _ (
        asked-Resolved start name seen ttl _ _ refl l
          (λ next seen' t. resolve_from-Resolved hops start next seen' t))

  -- Addresses that `resolve` returns are those of A records in an accepted answer, owned by a name
  -- that the queried one leads to by aliases of accepted answers. There is at least one, and each of
  -- these records lives at least as long as the time to live returned.
  pub resolve-ok :
      (name : Bytes) (ips : List Addr) (t : ℕ)
      → resolve exchange new_id name ≡ ok (ips, t)
      → (asked owner : Bytes) × (m : Msg) × (ask exchange new_id asked ≡ ok m)
        × Leads name t owner
        × All (IsAddress owner m.answer t) ips
        × (ips ≢ [])
  unfolding resolve
  resolve-ok name ips t h =
      subst (Resolved name) h (resolve_from-Resolved 9 name name [] (2 ^ 32 - 1) here)
