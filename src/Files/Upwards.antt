-- ===== src/Files/Upwards.antt =====
-- internal/fsutil/fsutil.go: which directories the loops of `RootOwned` visit.
use utlsproxy.Common.{
  list_beq, nat_beq_iff, ℕ, ap, sym, ◌∙◌, list_beq_iff, Bool-cases, true, List, [], ◌∷◌, ◌++◌,
  if◌then◌else◌, ◌==◌, nat_eq, list_eq, ◌≡◌, ◌≢◌, refl, inl, inr, All, arith, subst,
}
use utlsproxy.Disk.{FilePath}
use utlsproxy.Files.{ancestors, ancestors_onto}

-- a directory by its path up to a separator; the root is what is in front of the first
abbrev pub directory_of : FilePath → FilePath
directory_of [] = b'/' ∷ []
directory_of (c ∷ d) = c ∷ d

abbrev head_of : FilePath → ℕ
head_of [] = 0
head_of (c ∷ d) = c

abbrev tail_of : FilePath → FilePath
tail_of [] = []
tail_of (c ∷ d) = d

-- The predicate holds of the path, and of each directory on the way to it from the root.
abbrev pub Upwards : (FilePath → Type 0) → FilePath → Type 0
Upwards P p = P p × ((d rest : FilePath) → p ≡ d ++ b'/' ∷ rest → P (directory_of d))

snoc_append : (d : FilePath) (c : ℕ) (e : FilePath) → (d ++ c ∷ []) ++ e ≡ d ++ c ∷ e
snoc_append [] c e = refl
snoc_append (x ∷ d) c e = ap (λ r. x ∷ r) (snoc_append d c e)

append_nil : (d : FilePath) → d ++ [] ≡ d
append_nil [] = refl
append_nil (x ∷ d) = ap (λ r. x ∷ r) (append_nil d)

module _ (P : FilePath → Type 0) where
  -- the separator puts this in front
  abbrev upper : FilePath → FilePath
  upper cur = if cur == [] then b'/' ∷ [] else cur

  onto_above :
      (above : List FilePath) (cur rest : FilePath)
      → All P (ancestors_onto above cur rest)
      → All P above
  unfolding ancestors_onto
  onto_above above cur [] h = elim (Bool-cases (cur == b'/' ∷ [])) [
    | inl y ↦ rw y at h
    | inr n ↦ (rw n at h).1
  ]
  onto_above above cur (c ∷ rest) h = elim (Bool-cases (c == b'/')) [
    | inl y ↦ (onto_above (upper cur ∷ above) (cur ++ c ∷ []) rest (rw y at h)).1
    | inr n ↦ onto_above above (cur ++ c ∷ []) rest (rw n at h)
  ]

  onto_whole :
      (above : List FilePath) (cur rest : FilePath)
      → All P (ancestors_onto above cur rest)
      → cur ++ rest ≢ b'/' ∷ []
      → P (cur ++ rest)
  unfolding ancestors_onto
  onto_whole above cur [] h other = elim (Bool-cases (cur == b'/' ∷ [])) [
    | inl y ↦ absurd (other (append_nil cur ∙ (list_beq_iff cur (b'/' ∷ [])).0 y))
    | inr n ↦ subst P (sym (append_nil cur)) ((rw n at h).0)
  ]
  onto_whole above cur (c ∷ rest) h other = subst P (snoc_append cur c rest) (
      onto_whole (if c == b'/' then upper cur ∷ above else above) (cur ++ c ∷ []) rest h
        (λ e. other (sym (snoc_append cur c rest) ∙ e)))

  upper-directory_of : (cur : FilePath) → P (upper cur) → P (directory_of (cur ++ []))
  unfolding list_beq
  upper-directory_of [] h = h
  upper-directory_of (c ∷ cur) h = subst P (sym (append_nil (c ∷ cur))) h

  onto_directories :
      (above : List FilePath) (cur rest : FilePath)
      → All P (ancestors_onto above cur rest)
      → (d r : FilePath) → rest ≡ d ++ b'/' ∷ r
      → P (directory_of (cur ++ d))
  unfolding ancestors_onto
  onto_directories above cur [] h [] r e = cc
  onto_directories above cur [] h (x ∷ d) r e = cc
  onto_directories above cur (c ∷ rest) h [] r e =
      let sep : (c == b'/') ≡ true = (nat_beq_iff c b'/').1 (ap head_of e) in
      upper-directory_of cur (onto_above (upper cur ∷ above) (cur ++ c ∷ []) rest (rw sep at h)).0
  onto_directories above cur (c ∷ rest) h (x ∷ d) r e =
      subst (λ t. P (directory_of t)) (snoc_append cur c d ∙ ap (λ y. cur ++ y ∷ d) (ap head_of e))
        (onto_directories (if c == b'/' then upper cur ∷ above else above) (cur ++ c ∷ []) rest h d
          r (ap tail_of e))

  pub ancestors-Upwards : (p : FilePath) → All P (ancestors p) → Upwards P p
  unfolding ancestors
  ancestors-Upwards p h = (
    elim (Bool-cases (p == b'/' ∷ [])) [
      | inl y ↦
          let root : p ≡ b'/' ∷ [] = (list_beq_iff p (b'/' ∷ [])).0 y in
          subst P (sym root) (onto_directories [] [] p h [] [] root)
      | inr n ↦ onto_whole [] [] p h (λ e. ground (arith, (list_beq_iff p (b'/' ∷ [])).1 e, n))
    ],
    onto_directories [] [] p h,
  )
