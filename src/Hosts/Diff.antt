-- ===== src/Hosts/Diff.antt =====
-- internal/hosts/hosts.go: what `lineDiff` reports of two texts.
use mathlib.Core.List.{reverse-append, reverse-reverse, reverse-cons}
use utlsproxy.Common.{
  ℕ, ◌-◌, Bool, true, false, List, [], ◌∷◌, ◌++◌, ◌==◌, nat_eq, list_eq, list_beq_iff, length, take,
  drop, reverse, ◌≡◌, refl, sym, ap, ◌∙◌, arith, length-append,
}
use utlsproxy.Common.Text.{Bytes}
use utlsproxy.Hosts.{hunk, common_prefix}

-- the lines that two texts start with, and what follows in each
pub record Split (a b : List Bytes) : Type 0 where
  pub both : List Bytes
  pub rest_a : List Bytes
  pub rest_b : List Bytes
  pub parts_a : a ≡ both ++ rest_a
  pub parts_b : b ≡ both ++ rest_b
  pub size : length both ≡ common_prefix a b

Split-of : (a b : List Bytes) → Split a b
unfolding common_prefix
Split-of [] b = record {
  both = [];
  rest_a = [];
  rest_b = b;
  parts_a = refl;
  parts_b = refl;
  size = refl;
}
Split-of (x ∷ xs) [] = record {
  both = [];
  rest_a = x ∷ xs;
  rest_b = [];
  parts_a = refl;
  parts_b = refl;
  size = refl;
}
Split-of (x ∷ xs) (y ∷ ys) = at (x == y) refl (Split-of xs ys)
  where
    at : (t : Bool) → (x == y) ≡ t → Split xs ys → Split (x ∷ xs) (y ∷ ys)
    at true e s = record {
      both = x ∷ s.both;
      rest_a = s.rest_a;
      rest_b = s.rest_b;
      parts_a = ap (λ l. x ∷ l) s.parts_a;
      parts_b = (λ i. sym ((list_beq_iff x y).0 e) i ∷ s.parts_b i);
      size = rw e (omega (arith, s.size));
    }
    at false e s = record {
      both = [];
      rest_a = x ∷ xs;
      rest_b = y ∷ ys;
      parts_a = refl;
      parts_b = refl;
      size = rw e refl;
    }

take-append : (p r : List Bytes) → take (length p) (p ++ r) ≡ p
take-append [] r = refl
take-append (x ∷ p) r = ap (λ l. x ∷ l) (take-append p r)

drop-append : (p r : List Bytes) → drop (length p) (p ++ r) ≡ r
drop-append [] r = refl
drop-append (x ∷ p) r = drop-append p r

-- the rest behind the common lines
drop-common : (a p r : List Bytes) (n : ℕ) → a ≡ p ++ r → length p ≡ n → drop n a ≡ r
drop-common a p r n e k = (λ i. drop (sym k i) (e i)) ∙ drop-append p r

-- a list whose reverse starts with these lines ends in their reverse
reversed : (x r u : List Bytes) → reverse x ≡ r ++ u → x ≡ reverse u ++ reverse r
reversed x r u e = sym (reverse-reverse x) ∙ ap reverse e ∙ reverse-append r u

length-reverse : (r : List Bytes) → length (reverse r) ≡ length r
length-reverse [] = refl
length-reverse (x ∷ r) =
    ap length (reverse-cons x r)
    ∙ length-append (reverse r) (x ∷ [])
    ∙ omega (arith, length-reverse r)

take-front : (x u s : List Bytes) (m : ℕ) → x ≡ u ++ s → length s ≡ m → take (length x - m) x ≡ u
take-front x u s m e k =
    let n : length x - m ≡ length u = omega (arith, ap length e, length-append u s, k) in
    (λ i. take (n i) (e i)) ∙ take-append u s

-- `lineDiff` cuts both texts at the same lines: in front of the reported ones and behind them the
-- texts have the same lines, as many as it counts.
pub hunk_lem :
    (a b : List Bytes)
    → (p s : List Bytes) × (a ≡ p ++ ((hunk a b).gone ++ s))
      × (b ≡ p ++ ((hunk a b).new ++ s))
      × (length p ≡ (hunk a b).same_before)
      × (length s ≡ (hunk a b).same_after)
unfolding hunk
hunk_lem a b =
    let f = Split-of a b in
    let x : List Bytes = drop (common_prefix a b) a in
    let y : List Bytes = drop (common_prefix a b) b in
    let ex : x ≡ f.rest_a = drop-common a f.both f.rest_a (common_prefix a b) f.parts_a f.size in
    let ey : y ≡ f.rest_b = drop-common b f.both f.rest_b (common_prefix a b) f.parts_b f.size in
    let g = Split-of (reverse x) (reverse y) in
    let s : List Bytes = reverse g.both in
    let m : ℕ = common_prefix (reverse x) (reverse y) in
    let k : length s ≡ m = length-reverse g.both ∙ g.size in
    let px : x ≡ reverse g.rest_a ++ s = reversed x g.both g.rest_a g.parts_a in
    let py : y ≡ reverse g.rest_b ++ s = reversed y g.both g.rest_b g.parts_b in
    (
      f.both,
      s,
      f.parts_a
          ∙ ap (λ l. f.both ++ l)
              (sym ex ∙ px ∙ ap (λ l. l ++ s) (sym (take-front x (reverse g.rest_a) s m px k))),
      f.parts_b
          ∙ ap (λ l. f.both ++ l)
              (sym ey ∙ py ∙ ap (λ l. l ++ s) (sym (take-front y (reverse g.rest_b) s m py k))),
      f.size,
      k,
    )
