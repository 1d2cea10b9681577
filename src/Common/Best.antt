-- ===== src/Common/Best.antt =====
-- A loop that keeps the best elements met so far keeps the elements that nothing beats.
use utlsproxy.Common.{
  Bool, true, false, not, List, [], ◌∷◌, ◌++◌, ◌≡◌, refl, ap, ◌∙◌, ◌↔◌, inl, inr, arith,
  if◌then◌else◌, Bool-cases, filter, any, all, All, sym, subst, append-nil, append_assoc,
}

module _ {ℓ} {A : Type ℓ} where
  pub filter_congr :
      (p q : A → Bool) (xs : List A) → All (λ x. p x ≡ q x) xs → filter p xs ≡ filter q xs
  unfolding filter
  filter_congr p q [] h = refl
  filter_congr p q (x ∷ xs) h = ground (arith, filter_congr p q xs h.1)

  pub of_element : {P : A → Type 0} (f : (x : A) → P x) (xs : List A) → All P xs
  of_element f [] = tt
  of_element f (x ∷ xs) = (f x, of_element f xs)

  pub any-filter :
      (p q : A → Bool)
      → ((x : A) → q x ≡ true → p x ≡ true)
      → (xs : List A) → any q xs ≡ true
      → any p (filter q xs) ≡ true
  unfolding any filter
  any-filter p q f [] h = cc
  any-filter p q f (x ∷ xs) h = ground (arith, any-filter p q f xs, f x)

  pub All-filter : (P : A → Type 0) (q : A → Bool) (xs : List A) → All P xs → All P (filter q xs)
  unfolding filter
  All-filter P q [] h = tt
  All-filter P q (x ∷ xs) (hx, h) = elim (Bool-cases (q x)) [
    | inl y ↦ rw y (hx, All-filter P q xs h)
    | inr n ↦ rw n (All-filter P q xs h)
  ]

  pub All-map : (P Q : A → Type 0) (f : (x : A) → P x → Q x) (xs : List A) → All P xs → All Q xs
  All-map P Q f [] h = tt
  All-map P Q f (x ∷ xs) h = (f x h.0, All-map P Q f xs h.1)

  pub absent_in : (p : A → Bool) (xs : List A) → any p xs ≡ false → All (λ x. p x ≡ false) xs
  unfolding any
  absent_in p [] h = tt
  absent_in p (x ∷ xs) h = (ground arith, absent_in p xs (ground arith))

-- An order in which `beats` is strict and two keys that do not beat one another are equal.
pub record IsStrict {K : Type 0} (beats eqb : K → K → Bool) : Type 0 where
  pub irrefl : (a : K) → beats a a ≡ false
  pub trans : (a b c : K) → beats a b ≡ true → beats b c ≡ true → beats a c ≡ true
  pub eq : (a b : K) → (eqb a b ≡ true) ↔ (a ≡ b)
  pub total : (a b : K) → beats a b ≡ false → beats b a ≡ false → a ≡ b

module _ {A K : Type 0} (key : A → K) (beats eqb : K → K → Bool) where
  unfoldable pub unbeaten : List A → A → Bool
  unbeaten xs x = all (λ y. not (beats (key y) (key x))) xs

  unfoldable pub keep_best : K → List A → List A → List A
  keep_best k m [] = m
  keep_best k m (x ∷ xs) = elim (beats (key x) k) [
    | true ↦ keep_best (key x) (x ∷ []) xs
    | false ↦ keep_best k (if eqb (key x) k then m ++ x ∷ [] else m) xs
  ]

  module _ (o : IsStrict beats eqb) where
    beats_lower : (a b k : K) → beats a k ≡ true → beats b k ≡ false → beats a b ≡ true
    beats_lower a b k h n = elim (Bool-cases (beats a b)) [
      | inl y ↦ y
      | inr m ↦ elim (Bool-cases (beats b a)) [
        | inl y ↦ cc (o.trans b a k y h)
        | inr m' ↦ cc (o.total a b m m')
      ]
    ]

    unbeaten_above :
        (xs : List A) (k b : K) (z : A)
        → any (λ y. beats (key y) k) xs ≡ true
        → beats b k ≡ false
        → unbeaten xs z ≡ true
        → beats b (key z) ≡ false
    unfolding any all unbeaten
    unbeaten_above [] k b z h n u = cc
    unbeaten_above (y ∷ xs) k b z h n u = elim (Bool-cases (beats b (key z))) [
      | inr m ↦ m
      | inl bz ↦ elim (Bool-cases (beats (key y) k)) [
        | inl yk ↦ ground (arith, o.trans (key y) b (key z) (beats_lower (key y) b k yk n) bz)
        | inr nk ↦ unbeaten_above xs k b z (ground arith) n (ground arith)
      ]
    ]

    -- a first element that is beaten later makes no difference
    unbeaten_skip :
        (xs zs : List A) (x : A) (k : K)
        → any (λ y. beats (key y) k) xs ≡ true
        → beats (key x) k ≡ false
        → All (λ z. unbeaten (x ∷ xs) z ≡ unbeaten xs z) zs
    unfolding unbeaten all
    unbeaten_skip xs zs x k h n = of_element (λ z. at z) zs
      where
        at : (z : A) → unbeaten (x ∷ xs) z ≡ unbeaten xs z
        at z = elim (Bool-cases (unbeaten xs z)) [
          | inl u ↦ ground (arith, u, unbeaten_above xs k (key x) z h n u)
          | inr b ↦ ground (arith, b)
        ]

    unbeaten_first :
        (xs : List A) (z : A) → any (λ y. beats (key y) (key z)) xs ≡ false → unbeaten xs z ≡ true
    unfolding unbeaten all any
    unbeaten_first [] z h = refl
    unbeaten_first (y ∷ xs) z h = ground (arith, unbeaten_first xs z)

    unbeaten_beaten :
        (xs : List A) (z : A) → any (λ y. beats (key y) (key z)) xs ≡ true → unbeaten xs z ≡ false
    unfolding unbeaten all any
    unbeaten_beaten [] z h = cc
    unbeaten_beaten (y ∷ xs) z h = ground (arith, unbeaten_beaten xs z)

    any_lower :
        (xs : List A) (k b : K)
        → any (λ y. beats (key y) k) xs ≡ true
        → beats b k ≡ false
        → any (λ y. beats (key y) b) xs ≡ true
    unfolding any
    any_lower [] k b h n = cc
    any_lower (y ∷ xs) k b h n = elim (Bool-cases (beats (key y) k)) [
      | inl yk ↦ rw (beats_lower (key y) b k yk n)
      | inr nk ↦ ground (arith, any_lower xs k b)
    ]

    unbeaten_eq_at :
        (xs : List A) (x z : A)
        → any (λ y. beats (key y) (key x)) xs ≡ false
        → beats (key z) (key x) ≡ false
        → unbeaten (x ∷ xs) z ≡ eqb (key z) (key x)
    unfolding unbeaten all any
    unbeaten_eq_at xs x z h nz = elim (Bool-cases (eqb (key z) (key x))) [
      | inl same ↦
          let e = (o.eq (key z) (key x)).0 same in
          let none_beats : any (λ y. beats (key y) (key x)) (x ∷ xs) ≡ false =
            ground (arith, o.irrefl (key x)) in
          cc (
            same,
            unbeaten_first (x ∷ xs) z
                (subst (λ b. any (λ y. beats (key y) b) (x ∷ xs) ≡ false) (sym e) none_beats),
          )
      | inr other ↦ elim (Bool-cases (beats (key x) (key z))) [
        | inl y ↦ rw (y, other)
        | inr m ↦ cc (other, (o.eq (key z) (key x)).1 (o.total (key z) (key x) nz m))
      ]
    ]

    unbeaten_eq :
        (xs zs : List A) (x : A)
        → any (λ y. beats (key y) (key x)) xs ≡ false
        → All (λ z. beats (key z) (key x) ≡ false) zs
        → All (λ z. unbeaten (x ∷ xs) z ≡ eqb (key z) (key x)) zs
    unbeaten_eq xs [] x h n = tt
    unbeaten_eq xs (z ∷ zs) x h (nz, n) = (unbeaten_eq_at xs x z h nz, unbeaten_eq xs zs x h n)

    -- the result, by whether an element beats the key that the loop starts from
    abbrev best_of : K → List A → List A → List A
    best_of k m xs =
        if any (λ y. beats (key y) k) xs
        then filter (unbeaten xs) xs
        else m ++ filter (λ y. eqb (key y) k) xs

    drop_first :
        (x : A) (xs : List A)
        → any (λ y. beats (key y) (key x)) xs ≡ true
        → unbeaten (x ∷ xs) x ≡ false
    unfolding any
    drop_first x xs h = unbeaten_beaten (x ∷ xs) x (ground arith)

    keep_first :
        (x : A) (xs : List A)
        → any (λ y. beats (key y) (key x)) xs ≡ false
        → unbeaten (x ∷ xs) x ≡ true
    unfolding any
    keep_first x xs h = unbeaten_first (x ∷ xs) x (ground (arith, o.irrefl (key x)))

    best_of_new :
        (k : K) (m : List A) (x : A) (xs : List A)
        → beats (key x) k ≡ true
        → best_of (key x) (x ∷ []) xs ≡ best_of k m (x ∷ xs)
    unfolding any filter
    best_of_new k m x xs h = elim (Bool-cases (any (λ y. beats (key y) (key x)) xs)) [
      | inl later ↦
          rw (later, h, drop_first x xs later)
            (sym (filter_congr _ _ xs (unbeaten_skip xs xs x (key x) later (o.irrefl (key x)))))
      | inr best ↦
          rw (best, h, keep_first x xs best)
            (ap (λ ys. x ∷ ys)
              (sym (filter_congr _ _ xs (unbeaten_eq xs xs x best (absent_in _ xs best)))))
    ]

    best_of_kept :
        (k : K) (m : List A) (x : A) (xs : List A)
        → beats (key x) k ≡ false
        → best_of k (if eqb (key x) k then m ++ x ∷ [] else m) xs ≡ best_of k m (x ∷ xs)
    unfolding any filter
    best_of_kept k m x xs h = elim (Bool-cases (any (λ y. beats (key y) k) xs)) [
      | inl later ↦
          rw (later, h, drop_first x xs (any_lower xs k (key x) later h))
            (sym (filter_congr _ _ xs (unbeaten_skip xs xs x k later h)))
      | inr best ↦ elim (Bool-cases (eqb (key x) k)) [
        | inl e ↦ rw (best, h, e) (append_assoc m (x ∷ []) _)
        | inr e ↦ rw (best, h, e)
      ]
    ]

    pub keep_best-best_of : (k : K) (m xs : List A) → keep_best k m xs ≡ best_of k m xs
    unfolding keep_best
    keep_best-best_of k m [] = unfold any filter in sym (append-nil m)
    keep_best-best_of k m (x ∷ xs) = elim (Bool-cases (beats (key x) k)) [
      | inl y ↦ rw (y, keep_best) (keep_best-best_of (key x) (x ∷ []) xs ∙ best_of_new k m x xs y)
      | inr n ↦ rw (n, keep_best) (keep_best-best_of k _ xs ∙ best_of_kept k m x xs n)
    ]

    ties_at :
        (xs : List A) (k : K) (z : A)
        → any (λ y. beats (key y) k) xs ≡ false
        → key z ≡ k
        → eqb (key z) k ≡ unbeaten xs z
    ties_at xs k z n e = cc (
      (o.eq (key z) k).1 e,
      unbeaten_first xs z (subst (λ b. any (λ y. beats (key y) b) xs ≡ false) (sym e) n),
    )

    ties :
        (xs : List A) (k : K) (zs : List A)
        → any (λ y. beats (key y) k) xs ≡ false
        → All (λ y. beats k (key y) ≡ false) zs
        → All (λ y. beats (key y) k ≡ false) zs
        → All (λ z. eqb (key z) k ≡ unbeaten xs z) zs
    ties xs k [] n a b = tt
    ties xs k (z ∷ zs) n a b =
        (ties_at xs k z n (o.total (key z) k b.0 a.0), ties xs k zs n a.1 b.1)

    -- Where the starting key is a bound that no element passes, the elements equal to it are unbeaten.
    pub best_of_bound :
        (k : K) (xs : List A)
        → All (λ y. beats k (key y) ≡ false) xs
        → best_of k [] xs ≡ filter (unbeaten xs) xs
    best_of_bound k xs h = elim (Bool-cases (any (λ y. beats (key y) k) xs)) [
      | inl y ↦ rw y
      | inr n ↦ rw n (filter_congr _ _ xs (ties xs k xs n h (absent_in _ xs n)))
    ]
