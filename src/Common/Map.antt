-- ===== src/Common/Map.antt =====
-- Go's maps as association lists with distinct keys. The order of entries is no part of a map.
use utlsproxy.Common.{◌<◌}
use utlsproxy.Common.{
  ℕ, suc, ◌+◌, ◌≤◌, List, [], ◌∷◌, Option, none, some, if◌then◌else◌, ◌==◌, Eq, length, ◌≡◌, refl,
  arith, Bool-cases, inl, inr, All, subst,
}

abbrev pub Map : Type 0 → Type 0 → Type 0
Map K V = List (K × V)

module _ {K V : Type 0} ⦃e : Eq K⦄ where
  unfoldable pub lookup : K → Map K V → Option V
  lookup k [] = none
  lookup k ((j, v) ∷ m) = if j == k then some v else lookup k m

  -- `delete(m, k)`
  unfoldable pub erase : K → Map K V → Map K V
  erase k [] = []
  erase k ((j, v) ∷ m) = let rest = erase k m in if j == k then rest else (j, v) ∷ rest

  -- `m[k] = v`
  unfoldable pub insert : K → V → Map K V → Map K V
  insert k v m = (k, v) ∷ erase k m

  abbrev pub DistinctKeys : Map K V → Type 0
  DistinctKeys [] = Unit
  DistinctKeys ((k, v) ∷ m) = (lookup k m ≡ none) × DistinctKeys m

  pub lookup-erase :
      (k j : K) (m : Map K V) → lookup j (erase k m) ≡ (if k == j then none else lookup j m)
  unfolding lookup erase
  lookup-erase k j [] = ground arith
  lookup-erase k j ((i, v) ∷ m) =
      ground (arith, lookup-erase k j m, e.beq_iff i k, e.beq_iff i j, e.beq_iff k j)

  pub lookup-insert :
      (k j : K) (v : V) (m : Map K V)
      → lookup j (insert k v m) ≡ (if k == j then some v else lookup j m)
  unfolding insert lookup
  lookup-insert k j v m = ground (arith, lookup-erase k j m)

  pub length-erase-le : (k : K) (m : Map K V) → length (erase k m) ≤ length m
  unfolding erase
  length-erase-le k [] = omega arith
  length-erase-le k ((j, v) ∷ m) = ground (arith, length-erase-le k m)

  pub length-erase_present :
      (k : K) (v : V) (m : Map K V) → lookup k m ≡ some v → length (erase k m) < length m
  unfolding lookup erase
  length-erase_present k v [] h = cc
  length-erase_present k v ((j, w) ∷ m) h = elim (Bool-cases (j == k)) [
    | inl y ↦ rw y (omega (arith, length-erase-le k m))
    | inr n ↦ rw n (omega (arith, length-erase_present k v m (rw n at h)))
  ]

  pub length-insert-le : (k : K) (v : V) (m : Map K V) → length (insert k v m) ≤ length m + 1
  unfolding insert
  length-insert-le k v m = omega (arith, length-erase-le k m)

  pub length-insert_present :
      (k : K) (v w : V) (m : Map K V) → lookup k m ≡ some v → length (insert k w m) ≤ length m
  unfolding insert
  length-insert_present k v w m h = omega (arith, length-erase_present k v m h)

  pub erase_absent : (k : K) (m : Map K V) → lookup k m ≡ none → erase k m ≡ m
  unfolding lookup erase
  erase_absent k [] h = refl
  erase_absent k ((j, v) ∷ m) h = ground (arith, erase_absent k m)

  pub length-insert_absent :
      (k : K) (v : V) (m : Map K V) → lookup k m ≡ none → length (insert k v m) ≡ length m + 1
  unfolding insert
  length-insert_absent k v m h = rw (erase_absent k m h) (omega arith)

  pub erase-DistinctKeys : (k : K) (m : Map K V) → DistinctKeys m → DistinctKeys (erase k m)
  unfolding erase
  erase-DistinctKeys k [] h = tt
  erase-DistinctKeys k ((j, v) ∷ m) (fresh, h) = elim (Bool-cases (j == k)) [
    | inl y ↦ rw y (erase-DistinctKeys k m h)
    | inr n ↦ rw n (ground (arith, lookup-erase k j m), erase-DistinctKeys k m h)
  ]

  pub insert-DistinctKeys :
      (k : K) (v : V) (m : Map K V) → DistinctKeys m → DistinctKeys (insert k v m)
  unfolding insert
  insert-DistinctKeys k v m h =
      (ground (arith, lookup-erase k k m, e.beq_iff k k), erase-DistinctKeys k m h)

module _ {K V : Type 0} where
  -- An entry that the runtime picks, as the first step of a `range` loop does, is deleted.
  unfoldable pub erase_at : ℕ → Map K V → Map K V
  erase_at i [] = []
  erase_at Prim.Native.Nat.zero (x ∷ m) = m
  erase_at (suc i) (x ∷ m) = x ∷ erase_at i m

  pub length-erase_at-le : (i : ℕ) (m : Map K V) → length (erase_at i m) ≤ length m
  unfolding erase_at
  length-erase_at-le i [] = omega arith
  length-erase_at-le Prim.Native.Nat.zero (x ∷ m) = omega arith
  length-erase_at-le (suc i) (x ∷ m) = omega (arith, length-erase_at-le i m)

-- A property of every entry.
module _ {K V : Type 0} ⦃e : Eq K⦄ (P : K × V → Type 0) where
  pub All-erase : (k : K) (m : Map K V) → All P m → All P (erase k m)
  unfolding erase
  All-erase k [] h = tt
  All-erase k ((j, v) ∷ m) (p, h) = elim (Bool-cases (j == k)) [
    | inl y ↦ rw y (All-erase k m h)
    | inr n ↦ rw n (p, All-erase k m h)
  ]

  pub All-insert : (k : K) (v : V) (m : Map K V) → P (k, v) → All P m → All P (insert k v m)
  unfolding insert
  All-insert k v m p h = (p, All-erase k m h)

  pub All-lookup : (k : K) (v : V) (m : Map K V) → All P m → lookup k m ≡ some v → P (k, v)
  unfolding lookup
  All-lookup k v [] h x = cc
  All-lookup k v ((j, w) ∷ m) (p, h) x = elim (Bool-cases (j == k)) [
    | inl y ↦
        let same : w ≡ v = ground (arith, x, y) in
        subst (λ u. P (k, u)) same (subst (λ i. P (i, w)) ((e.beq_iff j k).0 y) p)
    | inr n ↦ All-lookup k v m h (rw n at x)
  ]

module _ {K V : Type 0} (P : K × V → Type 0) where
  pub All-erase_at : (i : ℕ) (m : Map K V) → All P m → All P (erase_at i m)
  unfolding erase_at
  All-erase_at i [] h = tt
  All-erase_at Prim.Native.Nat.zero (x ∷ m) h = h.1
  All-erase_at (suc i) (x ∷ m) h = (h.0, All-erase_at i m h.1)
