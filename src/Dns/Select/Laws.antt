-- ===== src/Dns/Select/Laws.antt =====
-- What `Select` returns, against a description with no loop state.
use utlsproxy.Common.{
  Bool, true, false, ◌&&◌, ◌||◌, not, List, [], ◌∷◌, if◌then◌else◌, ◌==◌, ◌≡◌, arith, refl, nat_eq,
  filter, any, all, All, Bool-cases, inl, inr, ◌∙◌, ap,
}
use utlsproxy.Common.Int.{ℤ, pos, negsuc, ltb_ℤ, max_int, int_eq, int_beq, int_beq_iff, ◌≤ℤ◌}
use utlsproxy.Common.Text.{Bytes}
use utlsproxy.Common.Best.{
  IsStrict, keep_best, keep_best-best_of, best_of_bound, unbeaten, any-filter, All-filter, All-map,
}
use utlsproxy.Dns.Group.{Group}
use utlsproxy.Dns.Select.{
  score_of, route, Choice, route_all, fall_back, fall_back_all, start, query_name, select,
}

-- A score and a priority: the higher score wins, then the lower priority.
pub record Rank : Type 0 where
  pub score : ℤ
  pub priority : ℤ

unfoldable pub beats : Rank → Rank → Bool
beats a b = ltb_ℤ b.score a.score || (a.score == b.score && ltb_ℤ a.priority b.priority)

rank_beq : Rank → Rank → Bool
rank_beq a b = a.score == b.score && a.priority == b.priority

beats-IsStrict : IsStrict beats rank_beq
unfolding beats rank_beq
beats-IsStrict = record {
  irrefl = λ a. ground arith;
  trans = λ a b c h k. ground arith;
  eq = λ a b. ground arith;
  total = λ a b h k. ground arith;
}

module _ (name : Bytes) where
  unfoldable pub rank : Group → Rank
  rank g = record { score = score_of name g; priority = g.priority }

  unfoldable pub is_routed : Group → Bool
  is_routed g = not (ltb_ℤ (score_of name g) (pos 0))

  route_skip : (g : Group) (c : Choice) → is_routed g ≡ false → route (score_of name g) g c ≡ c
  unfolding route is_routed
  route_skip g c h = ground arith

  route-keep_best :
      (g : Group) (c : Choice) (gs : List Group)
      → is_routed g ≡ true
      → keep_best rank beats rank_beq
          (record {
            score = (route (score_of name g) g c).best;
            priority = (route (score_of name g) g c).priority;
          })
          (route (score_of name g) g c).matched
          gs
        ≡ keep_best rank beats rank_beq
            (record { score = c.best; priority = c.priority })
            c.matched
            (g ∷ gs)
  unfolding route keep_best beats rank_beq rank is_routed
  route-keep_best g c gs h =
      ground (arith, int_beq_iff (score_of name g) c.best, int_beq_iff g.priority c.priority)

  route_all-keep_best :
      (gs : List Group) (c : Choice)
      → (route_all name gs c).matched
        ≡ keep_best rank beats rank_beq
            (record { score = c.best; priority = c.priority })
            c.matched
            (filter is_routed gs)
  unfolding route_all filter
  route_all-keep_best [] c = unfold keep_best in refl
  route_all-keep_best (g ∷ gs) c = elim (Bool-cases (is_routed g)) [
    | inl y ↦ rw y (route_all-keep_best gs (route (score_of name g) g c) ∙ route-keep_best g c _ y)
    | inr n ↦
        rw n (ap (λ d. (route_all name gs d).matched) (route_skip g c n) ∙ route_all-keep_best gs c)
  ]

  route-best :
      (g : Group) (c : Choice)
      → ltb_ℤ (route (score_of name g) g c).best (pos 0) ≡ ltb_ℤ c.best (pos 0) && not (is_routed g)
  unfolding route is_routed
  route-best g c = ground arith

  route_all-best :
      (gs : List Group) (c : Choice)
      → ltb_ℤ (route_all name gs c).best (pos 0) ≡ ltb_ℤ c.best (pos 0) && not (any is_routed gs)
  unfolding route_all any
  route_all-best [] c = ground arith
  route_all-best (g ∷ gs) c =
      ground (arith, route_all-best gs (route (score_of name g) g c), route-best g c)

  route_all_skip :
      (gs : List Group) (c : Choice) → any is_routed gs ≡ false → route_all name gs c ≡ c
  unfolding route_all any
  route_all_skip [] c h = refl
  route_all_skip (g ∷ gs) c h =
      rw (route_skip g c (ground arith)) (route_all_skip gs c (ground arith))

unfoldable pub is_default : Group → Bool
is_default g = g.default

unfoldable pub precedes : ℤ → ℤ → Bool
precedes a b = ltb_ℤ a b

precedes-IsStrict : IsStrict precedes int_beq
unfolding precedes
precedes-IsStrict = record {
  irrefl = λ a. ground arith;
  trans = λ a b c h k. ground arith;
  eq = λ a b. int_beq_iff a b;
  total = λ a b h k. ground arith;
}

fall_back-keep_best :
    (g : Group) (c : Choice) (gs : List Group)
    → g.default ≡ true
    → keep_best
        (λ (h : Group). h.priority)
        precedes
        int_beq
        (fall_back g c).priority
        (fall_back g c).matched
        gs
      ≡ keep_best (λ (h : Group). h.priority) precedes int_beq c.priority c.matched (g ∷ gs)
unfolding fall_back keep_best precedes
fall_back-keep_best g c gs h = ground (arith, int_beq_iff g.priority c.priority)

fall_back_skip : (g : Group) (c : Choice) → g.default ≡ false → fall_back g c ≡ c
unfolding fall_back
fall_back_skip g c h = rw h

fall_back_all-keep_best :
    (gs : List Group) (c : Choice)
    → (fall_back_all gs c).matched
      ≡ keep_best
          (λ (h : Group). h.priority)
          precedes
          int_beq
          c.priority
          c.matched
          (filter is_default gs)
unfolding fall_back_all filter is_default
fall_back_all-keep_best [] c = unfold keep_best in refl
fall_back_all-keep_best (g ∷ gs) c = elim (Bool-cases g.default) [
  | inl y ↦ simp y (fall_back_all-keep_best gs (fall_back g c) ∙ fall_back-keep_best g c _ y)
  | inr n ↦
      simp n (
        ap (λ d. (fall_back_all gs d).matched) (fall_back_skip g c n)
        ∙ fall_back_all-keep_best gs c)
]

routed-beats :
    (name : Bytes) (g : Group)
    → is_routed name g ≡ true
    → beats (rank name g) (record { score = negsuc 0; priority = max_int }) ≡ true
unfolding beats rank is_routed
routed-beats name g h = ground arith

-- The groups of a list that no other outranks, in their order.
abbrev pub best_routed : Bytes → List Group → List Group
best_routed name gs =
    let routed = filter (is_routed name) gs in
    filter (λ g. all (λ h. not (beats (rank name h) (rank name g))) routed) routed

abbrev pub first_defaults : List Group → List Group
first_defaults gs =
    let defaults = filter is_default gs in
    filter (λ g. all (λ (h : Group). not (ltb_ℤ h.priority g.priority)) defaults) defaults

route_all-best_routed :
    (name : Bytes) (gs : List Group)
    → any (is_routed name) gs ≡ true
    → (route_all name gs start).matched ≡ best_routed name gs
unfolding unbeaten
route_all-best_routed name gs h =
    route_all-keep_best name gs start
    ∙ keep_best-best_of (rank name) _ _ beats-IsStrict _ _ _
    ∙ rw (
        any-filter (λ y. beats (rank name y) (record { score = negsuc 0; priority = max_int }))
          (is_routed name) (routed-beats name) gs h)

fall_back_all-first_defaults :
    (gs : List Group)
    → All (λ (g : Group). ◌≤ℤ◌ g.priority max_int) gs
    → (fall_back_all gs start).matched ≡ first_defaults gs
unfolding unbeaten precedes
fall_back_all-first_defaults gs h =
    fall_back_all-keep_best gs start
    ∙ keep_best-best_of _ _ _ precedes-IsStrict _ _ _
    ∙ best_of_bound _ _ _ precedes-IsStrict max_int (filter is_default gs) (
        All-filter (λ (g : Group). precedes max_int g.priority ≡ false) is_default gs
          (All-map (λ (g : Group). ◌≤ℤ◌ g.priority max_int)
            (λ (g : Group). precedes max_int g.priority ≡ false) (λ g b. ground arith) gs h))

-- `Select` returns, in their order, the groups with a routing domain for the name that no other
-- such group outranks (by the labels of the best matching domain, then by the lower priority);
-- where no group has one, the default groups of the lowest priority. Priorities are at most the
-- greatest `int`.
pub select_lem :
    (gs : List Group) (name : Bytes)
    → All (λ (g : Group). ◌≤ℤ◌ g.priority max_int) gs
    → select gs name ≡ (
        if any (is_routed (query_name name)) gs
        then best_routed (query_name name) gs
        else first_defaults gs)
unfolding select
select_lem gs name h = elim (Bool-cases (any (is_routed (query_name name)) gs)) [
  | inl y ↦
      rw (y, route_all-best (query_name name) gs start, y)
        (route_all-best_routed (query_name name) gs y)
  | inr n ↦
      rw (n, route_all-best (query_name name) gs start, n)
        (rw (route_all_skip (query_name name) gs start n) (fall_back_all-first_defaults gs h))
]
