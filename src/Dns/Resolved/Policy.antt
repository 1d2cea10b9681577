-- ===== src/Dns/Resolved/Policy.antt =====
-- internal/dns/discovery_linux.go: what a discovery from systemd-resolved says of the links.
use utlsproxy.Common.{
  Bool, true, false, List, [], ◌∷◌, Option, none, some, if◌then◌else◌, list_eq, contains, ◌≡◌, refl,
  ◌⊎◌, inl, inr, All, Bool-cases, arith, beq_refl, subst,
}
use utlsproxy.Common.Best.{All-map}
use utlsproxy.Common.Map.{Map}
use utlsproxy.Common.Outcome.{Result, ok, err, bind-eq-ok, ◌>>=◌}
use utlsproxy.Common.Text.{Bytes}
use utlsproxy.Dns.Discovery.{DiscoveryError, mandatory_dns_over_tls}
use utlsproxy.Dns.Group.{Group, Discovery, group_eq}
use utlsproxy.Dns.Resolved.{
  Decoding, Bus, Link, CallError, no_such_link, other, stored, is_mandatory, manager_group,
  link_group, has_content, put_group, put_found, read_properties, named, visit_path, visit_link,
  visit_links, interfaces_of, resolved_discovery,
}

-- A group with content is among these.
abbrev pub Listed : List Group → Group → Type 0
Listed gs g = has_content g ≡ true → contains gs g ≡ true

put_group-Listed : (g : Group) (gs : List Group) → Listed (put_group g gs) g
unfolding contains
put_group-Listed g gs h = rw h (rw (beq_refl g) refl)

put_group-keeps : (g h : Group) (gs : List Group) → Listed gs h → Listed (put_group g gs) h
unfolding contains
put_group-keeps g h gs l c = ground (arith, l c)

put_group-content :
    (g : Group) (gs : List Group)
    → All (λ h. has_content h ≡ true) gs
    → All (λ h. has_content h ≡ true) (put_group g gs)
put_group-content g gs a = elim (Bool-cases (has_content g)) [
  | inl y ↦ rw y (y, a)
  | inr n ↦ rw n a
]

not_mandatory :
    {A : Type 0} (b : Bool) (r : Result DiscoveryError A) {a : A}
    → (if b then err mandatory_dns_over_tls else r) ≡ ok a
    → (b ≡ false) × (r ≡ ok a)
not_mandatory true r h = cc
not_mandatory false r h = (refl, h)

stored-ok : {A : Type 0} (r : Result Bytes A) {a : A} → stored r ≡ ok a → r ≡ ok a
stored-ok (err e) h = cc
stored-ok (ok a) h = cc

interfaces_of-ok :
    (r : Result Bytes (List Link)) {ls : List Link} → interfaces_of r ≡ ok ls → r ≡ ok ls
interfaces_of-ok (err e) h = cc
interfaces_of-ok (ok a) h = cc

module _ {V : Type 0} (D : Decoding V) (B : Bus V) where
  -- A link's own properties were read, demand no DNS-over-TLS, and make a group.
  abbrev pub Tracked : Link → Group → Type 0
  Tracked l g =
      (path : Bytes) × (props : Map Bytes V) × (B.link_path l.index ≡ ok path)
      × (B.link_properties path ≡ ok props)
      × (is_mandatory D props ≡ false)
      × (link_group D props l.index ≡ ok g)

  -- Either the system does not track the link, or its group is among these.
  abbrev pub Answered : List Group → Link → Type 0
  Answered gs l =
      (B.link_path l.index ≡ err no_such_link) ⊎ ((g : Group) × Tracked l g × Listed gs g)

  abbrev Visited : Link → Option Group → Type 0
  Visited l none = B.link_path l.index ≡ err no_such_link
  Visited l (some g) = Tracked l g

  link_group-permitted :
      (props : Map Bytes V) (l : Link) (g : Group)
      → link_group D props l.index ≡ ok g
      → is_mandatory D props ≡ false
  unfolding link_group
  link_group-permitted props l g h = (not_mandatory (is_mandatory D props) _ h).0

  visited :
      (l : Link) (path : Bytes) (o : Option Group) (r : Result Bytes (Map Bytes V))
      → B.link_path l.index ≡ ok path
      → B.link_properties path ≡ r
      → (read_properties D B l r >>= λ g. ok (some g)) ≡ ok o
      → Visited l o
  visited l path o (err e) p q k = cc
  visited l path o (ok props) p q k = at (link_group D props l.index) refl k
    where
      at :
          (r : Result DiscoveryError Group)
          → link_group D props l.index ≡ r
          → (named l.name r >>= λ g. ok (some g)) ≡ ok o
          → Visited l o
      at (err e) r m = cc
      at (ok g) r m =
          let e : some g ≡ o = cc in
          subst (Visited l) e (path, props, p, q, link_group-permitted props l g r, r)

  visit_link-Visited : (l : Link) (o : Option Group) → visit_link D B l ≡ ok o → Visited l o
  unfolding visit_link
  visit_link-Visited l o h = at (B.link_path l.index) refl h
    where
      at :
          (r : Result CallError Bytes)
          → B.link_path l.index ≡ r
          → visit_path D B l r ≡ ok o
          → Visited l o
      at (err no_such_link) p k =
          let e : ◌≡◌ {A = Option Group} none o = cc in subst (Visited l) e p
      at (err (other e)) p k = cc
      at (ok path) p k = visited l path o (B.link_properties path) p refl k

  -- the rest of the groups may grow by one group
  Answered-later :
      (l : Link) (o : Option Group) (gs : List Group) → Answered gs l → Answered (put_found o gs) l
  Answered-later l none gs a = a
  Answered-later l (some g) gs (inl n) = inl n
  Answered-later l (some g) gs (inr (h, t, m)) = inr (h, t, put_group-keeps g h gs m)

  Answered-here :
      (l : Link) (o : Option Group) (gs : List Group) → Visited l o → Answered (put_found o gs) l
  Answered-here l none gs v = inl v
  Answered-here l (some g) gs v = inr (g, v, put_group-Listed g gs)

  found-content :
      (o : Option Group) (gs : List Group)
      → All (λ h. has_content h ≡ true) gs
      → All (λ h. has_content h ≡ true) (put_found o gs)
  found-content none gs a = a
  found-content (some g) gs a = put_group-content g gs a

  -- each link is answered for, and each group has content
  abbrev Covers : List Link → List Group → Type 0
  Covers ls gs = All (Answered gs) ls × All (λ h. has_content h ≡ true) gs

  Covers-more :
      (l : Link) (ls : List Link) (o : Option Group) (gs : List Group)
      → Visited l o
      → Covers ls gs
      → Covers (l ∷ ls) (put_found o gs)
  Covers-more l ls o gs v (a, c) = (
    (
      Answered-here l o gs v,
      All-map (Answered gs) (Answered (put_found o gs)) (λ m. Answered-later m o gs) ls a,
    ),
    found-content o gs c,
  )

  visit_links-Covers :
      (ls : List Link) (gs : List Group) → visit_links D B ls ≡ ok gs → Covers ls gs
  unfolding visit_links
  visit_links-Covers [] gs h =
      let e : ◌≡◌ {A = List Group} [] gs = cc in subst (Covers []) e (tt, tt)
  visit_links-Covers (l ∷ ls) gs h =
      let (o, v, k) = bind-eq-ok (visit_link D B l) _ h in
      let (rest, r, m) = bind-eq-ok (visit_links D B ls) (λ gs'. ok (put_found o gs')) k in
      let e : put_found o rest ≡ gs = cc in
      subst (Covers (l ∷ ls)) e
        (Covers-more l ls o rest (visit_link-Visited l o v) (visit_links-Covers ls rest r))

  Covers-manager :
      (g : Group) (ls : List Link) (gs : List Group) → Covers ls gs → Covers ls (put_group g gs)
  Covers-manager g ls gs (a, c) = (
    All-map (Answered gs) (Answered (put_group g gs)) (λ l. Answered-later l (some g) gs) ls a,
    put_group-content g gs c,
  )

  -- Where a discovery from systemd-resolved succeeds, neither the manager nor any link that the
  -- system tracks demands DNS-over-TLS. Each tracked link's properties were read, and its group is
  -- among the groups unless it is empty; so is the manager's. No group is empty.
  pub resolved_discovery-permitted :
      (d : Discovery)
      → resolved_discovery D B ≡ ok d
      → (props : Map Bytes V) × (links : List Link) × (g : Group) × (B.manager ≡ ok props)
        × (is_mandatory D props ≡ false)
        × (manager_group D props ≡ ok g)
        × Listed d.groups g
        × (B.interfaces ≡ ok links)
        × All (Answered d.groups) links
        × All (λ h. has_content h ≡ true) d.groups
  unfolding resolved_discovery
  resolved_discovery-permitted d h =
      let (props, p, k) = bind-eq-ok (stored B.manager) _ h in
      let (free, k1) = not_mandatory (is_mandatory D props) _ k in
      let (g, m, k2) = bind-eq-ok (manager_group D props) _ k1 in
      let (links, i, k3) = bind-eq-ok (interfaces_of B.interfaces) _ k2 in
      let (gs, v, k4) = bind-eq-ok (visit_links D B links) _ k3 in
      let (a, c) = Covers-manager g links gs (visit_links-Covers links gs v) in
      let e : put_group g gs ≡ d.groups = cc in
      (
        props,
        links,
        g,
        stored-ok B.manager p,
        free,
        m,
        subst (λ x. Listed x g) e (put_group-Listed g gs),
        interfaces_of-ok B.interfaces i,
        subst (λ x. All (Answered x) links) e a,
        subst (λ x. All (λ h. has_content h ≡ true) x) e c,
      )
