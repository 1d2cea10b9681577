-- ===== src/Dns/Select/Matching.antt =====
-- internal/dns/discovery.go: the score of a group for a name.
use mathlib.Core.List.{Memᴰ}
use utlsproxy.Common.{
  ℕ, suc, Bool, Bool-cases, true, false, ◌||◌, List, [], ◌∷◌, ◌++◌, ◌≡◌, refl, ap, ◌∙◌, ◌↔◌, ◌⊎◌,
  inl, inr, arith, ◌==◌, list_eq, list_beq, list_beq_iff, nat_eq, length, filter, All,
  if◌then◌else◌, subst,
}
use utlsproxy.Common.Int.{ℤ, pos, negsuc, ◌≤ℤ◌, max_ℤ, ltb_ℤ}
use utlsproxy.Common.Text.{Bytes, split, split_onto}
use utlsproxy.Common.Text.Laws.{has_suffix_iff}
use utlsproxy.Dns.Group.{Group}
use utlsproxy.Dns.Select.{matches, routing_domain, score_domain, score_from, score_of}

-- The name is the domain or ends in a dot and the domain; every name is under the root.
abbrev pub IsUnder : Bytes → Bytes → Type 0
IsUnder name [] = Unit
IsUnder name (c ∷ d) = (name ≡ c ∷ d) ⊎ ((r : Bytes) × (name ≡ r ++ b'.' ∷ c ∷ d))

-- one more than the dots of a domain, and none of the root
abbrev pub labels : Bytes → ℕ
labels [] = 0
labels (c ∷ d) = suc (length (filter (λ x. x == b'.') (c ∷ d)))

-- No domain that the name is under has more labels than the score, which one of them has; the score
-- is -1 where there is none.
abbrev pub IsScore : Bytes → List Bytes → ℤ → Type 0
IsScore name domains s =
    All (λ d. (¬ IsUnder name (routing_domain d)) ⊎ (◌≤ℤ◌ (pos (labels (routing_domain d))) s))
      domains
    × ((s ≡ negsuc 0)
        ⊎ ((d : Bytes) × Memᴰ d domains
            × IsUnder name (routing_domain d)
            × (s ≡ pos (labels (routing_domain d)))))

or_true : (b : Bool) → b || true ≡ true
or_true b = ground arith

matches_iff :
    (name domain : Bytes)
    → (matches name domain ≡ true) ↔ ((name ≡ domain) ⊎ ((r : Bytes) × (name ≡ r ++ b'.' ∷ domain)))
unfolding matches
matches_iff name domain = (
  λ h. elim (Bool-cases (name == domain)) [
    | inl same ↦ inl ((list_beq_iff name domain).0 same)
    | inr other ↦ inr ((has_suffix_iff name (b'.' ∷ domain)).0 (rw other at h))
  ],
  elim [
    | inl e ↦ rw ((list_beq_iff name domain).1 e)
    | inr w ↦ rw ((has_suffix_iff name (b'.' ∷ domain)).1 w) (or_true (name == domain))
  ],
)

length-split_onto :
    (cur s : Bytes) (sep : ℕ)
    → length (split_onto cur sep s) ≡ suc (length (filter (λ x. x == sep) s))
unfolding split_onto filter
length-split_onto cur [] sep = refl
length-split_onto cur (c ∷ s) sep =
    at (c == sep) (length-split_onto [] s sep) (length-split_onto (cur ++ c ∷ []) s sep)
  where
    at :
        (b : Bool)
        → length (split_onto [] sep s) ≡ suc (length (filter (λ x. x == sep) s))
        → length (split_onto (cur ++ c ∷ []) sep s) ≡ suc (length (filter (λ x. x == sep) s))
        → length
            (elim b [ true ↦ cur ∷ split_onto [] sep s | false ↦ split_onto (cur ++ c ∷ []) sep s ])
          ≡ suc (length (if b then c ∷ filter (λ x. x == sep) s else filter (λ x. x == sep) s))
    at true h k = ap suc h
    at false h k = k

length-split : (c : ℕ) (d : Bytes) → length (split (c ∷ d) b'.') ≡ labels (c ∷ d)
unfolding split
length-split c d = length-split_onto [] (c ∷ d) b'.'

max_bounds : (a b t : ℤ) → ◌≤ℤ◌ (max_ℤ a b) t → (◌≤ℤ◌ a t) × (◌≤ℤ◌ b t)
max_bounds a b t h = ground (arith, h)

max_either : (a b : ℤ) → (max_ℤ a b ≡ a) ⊎ (max_ℤ a b ≡ b)
max_either a b = elim (Bool-cases (ltb_ℤ a b)) [ inl y ↦ inr (rw y refl) | inr n ↦ inl (rw n refl) ]

module _ (name : Bytes) where
  -- what one domain does to the score
  abbrev Scored : ℤ → Bytes → ℤ → Type 0
  Scored s d t = (IsUnder name d × (t ≡ max_ℤ s (pos (labels d)))) ⊎ ((¬ IsUnder name d) × (t ≡ s))

  domain-Scored :
      (s : ℤ) (d : Bytes)
      → Scored s d (
          if d == []
          then max_ℤ s (pos 0)
          else if matches name d
          then max_ℤ s (pos (length (split d b'.')))
          else s)
  unfolding list_beq
  domain-Scored s [] = inl (tt, refl)
  domain-Scored s (c ∷ d) = elim (Bool-cases (matches name (c ∷ d))) [
    | inl y ↦
        inl ((matches_iff name (c ∷ d)).0 y, rw y (ap (λ n. max_ℤ s (pos n)) (length-split c d)))
    | inr n ↦ inr (λ u. ground (arith, n, (matches_iff name (c ∷ d)).1 u), rw n refl)
  ]

  score_domain-Scored : (s : ℤ) (d : Bytes) → Scored s (routing_domain d) (score_domain name s d)
  unfolding score_domain
  score_domain-Scored s d = domain-Scored s (routing_domain d)

  -- one domain and a score that is at least what it gives
  abbrev Bounded : ℤ → Bytes → Type 0
  Bounded t d = (¬ IsUnder name (routing_domain d)) ⊎ (◌≤ℤ◌ (pos (labels (routing_domain d))) t)

  abbrev Attained : List Bytes → ℤ → Type 0
  Attained domains t =
      (d : Bytes) × Memᴰ d domains
      × IsUnder name (routing_domain d)
      × (t ≡ pos (labels (routing_domain d)))

  -- what the loop makes of the score from its next domain on
  abbrev Reaches : ℤ → List Bytes → ℤ → Type 0
  Reaches s domains t = (◌≤ℤ◌ s t) × All (Bounded t) domains × ((t ≡ s) ⊎ Attained domains t)

  next-Reaches :
      (s u t : ℤ) (d : Bytes) (ds : List Bytes)
      → Scored s (routing_domain d) u
      → Reaches u ds t
      → Reaches s (d ∷ ds) t
  next-Reaches s u t d ds (inl (under, e)) (up, bounded, end) =
      let (low, high) =
        max_bounds s (pos (labels (routing_domain d))) t (subst (λ x. ◌≤ℤ◌ x t) e up) in
      (
        low,
        (inr high, bounded),
        elim end [
          | inl z ↦ elim (max_either s (pos (labels (routing_domain d)))) [
            | inl a ↦ inl (z ∙ e ∙ a)
            | inr b ↦ inr (d, Memᴰ.head refl, under, z ∙ e ∙ b)
          ]
          | inr (d', m, w, k) ↦ inr (d', Memᴰ.tail m, w, k)
        ],
      )
  next-Reaches s u t d ds (inr (not_under, e)) (up, bounded, end) = (
    subst (λ x. ◌≤ℤ◌ x t) e up,
    (inl not_under, bounded),
    elim end [ inl z ↦ inl (z ∙ e) | inr (d', m, w, k) ↦ inr (d', Memᴰ.tail m, w, k) ],
  )

  score_from-Reaches :
      (s : ℤ) (domains : List Bytes) → Reaches s domains (score_from name s domains)
  unfolding score_from
  score_from-Reaches s [] = (omega arith, tt, inl refl)
  score_from-Reaches s (d ∷ ds) =
      next-Reaches s (score_domain name s d) _ d ds (score_domain-Scored s d)
        (score_from-Reaches (score_domain name s d) ds)

-- The score of a group is the number of labels of the longest of its routing domains that the name is
-- under, 0 if that is the root alone, and -1 where the name is under none of them.
pub score_of-IsScore : (name : Bytes) (g : Group) → IsScore name g.domains (score_of name g)
unfolding score_of
score_of-IsScore name g =
    let (_, bounded, end) = score_from-Reaches name (negsuc 0) g.domains in (bounded, end)
