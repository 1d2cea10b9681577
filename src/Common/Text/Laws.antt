-- ===== src/Common/Text/Laws.antt =====
-- What the tests for a prefix and a suffix decide.
use mathlib.Core.List.{reverse-append, reverse-reverse, reverse-cons}
use utlsproxy.Common.{
  inl, inr, if◌then◌else◌, true, [], ◌∷◌, ◌++◌, ◌≡◌, ◌↔◌, refl, sym, ap, ◌∙◌, arith, nat_eq,
  reverse, ℕ, false, Bool, Bool-cases,
}
use utlsproxy.Common.Text.{Bytes, has_prefix, has_suffix, trim_left, trim_space, is_space}

has_prefix→append : (s p : Bytes) → has_prefix s p ≡ true → (r : Bytes) × (s ≡ p ++ r)
unfolding has_prefix
has_prefix→append s [] h = (s, refl)
has_prefix→append [] (c ∷ p) h = cc
has_prefix→append (d ∷ s) (c ∷ p) h =
    let (r, e) = has_prefix→append s p (ground arith) in (r, ground arith)

append→has_prefix : (p r : Bytes) → has_prefix (p ++ r) p ≡ true
unfolding has_prefix
append→has_prefix [] r = refl
append→has_prefix (c ∷ p) r = ground (arith, append→has_prefix p r)

pub has_prefix_iff : (s p : Bytes) → (has_prefix s p ≡ true) ↔ ((r : Bytes) × (s ≡ p ++ r))
has_prefix_iff s p = (has_prefix→append s p, λ (r, e). rw e (append→has_prefix p r))

pub has_suffix_iff : (s p : Bytes) → (has_suffix s p ≡ true) ↔ ((r : Bytes) × (s ≡ r ++ p))
unfolding has_suffix
has_suffix_iff s p = (
  λ h.
      let (r, e) = has_prefix→append (reverse s) (reverse p) h in
      (
        reverse r,
        sym (reverse-reverse s)
            ∙ ap reverse e
            ∙ reverse-append (reverse p) r
            ∙ ap (λ q. reverse r ++ q) (reverse-reverse p),
      ),
  λ (r, e). rw (e, reverse-append r p) (append→has_prefix (reverse p) (reverse r)),
)

trim_left-snoc :
    (xs : Bytes) (a : ℕ)
    → is_space a ≡ false
    → (t : Bytes) × (trim_left (xs ++ a ∷ []) ≡ t ++ a ∷ [])
unfolding trim_left
trim_left-snoc [] a h = ([], rw h refl)
trim_left-snoc (x ∷ xs) a h =
    let (t, e) = trim_left-snoc xs a h in
    elim (Bool-cases (is_space x)) [ inl y ↦ (t, rw y e) | inr n ↦ (x ∷ xs, rw n refl) ]

-- A text that starts with no space still starts with that byte once it is trimmed.
pub trim_space-first :
    (a : ℕ) (s : Bytes) → is_space a ≡ false → (t : Bytes) × (trim_space (a ∷ s) ≡ a ∷ t)
unfolding trim_space
trim_space-first a s h =
    let (t, e) = trim_left-snoc (reverse s) a h in
    (
      reverse t,
      ap (λ x. reverse (trim_left (reverse x))) (kept (is_space a) h)
          ∙ ap (λ x. reverse (trim_left x)) (reverse-cons a s)
          ∙ ap reverse e
          ∙ reverse-append t (a ∷ []),
    )
  where
    kept : (b : Bool) → b ≡ false → (if b then trim_left s else a ∷ s) ≡ a ∷ s
    kept b k = rw k refl
