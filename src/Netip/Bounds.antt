-- ===== src/Netip/Bounds.antt =====
-- The IPv4 addresses that `ParseAddr` reads have 32 bits.
use mathlib.Core.Option.{some-injective}
use utlsproxy.Common.{
  ℕ, ◌≤◌, ◌<◌, Bool, true, false, ◌&&◌, not, List, [], ◌∷◌, Option, none, some, leb, if◌then◌else◌,
  ◌==◌, nat_eq, ◌≡◌, refl, arith, ap, length,
}
use utlsproxy.Common.Text.{Bytes, split}
use utlsproxy.Netip.{
  Addr, v4, v6, ◌>>=◌, when, decimal, leading_zero, octet, parse_octets, parse_by_first, parse_addr,
}

bind_some :
    {A B : Type 0} (o : Option A) (f : A → Option B) (b : B)
    → (o >>= f) ≡ some b
    → (a : A) × (o ≡ some a) × (f a ≡ some b)
bind_some none f b h = cc
bind_some (some a) f b h = (a, refl, h)

octet_small : (s : Bytes) (n : ℕ) → octet s ≡ some n → n ≤ 255
unfolding octet
octet_small s n h =
    let (m, e, k) = bind_some (decimal s) _ n h in
    kept m (not (leading_zero s)) (leb (length s) 3) k
  where
    kept : (m : ℕ) (b c : Bool) → when (leb m 255 && b && c) m ≡ some n → n ≤ 255
    kept m b c k = at (leb m 255 && b && c) refl k
      where
        at : (t : Bool) → (leb m 255 && b && c) ≡ t → when t m ≡ some n → n ≤ 255
        at true e k' = ground (arith, e, some-injective m n k')
        at false e k' = cc

parse_octets_small : (fs : List Bytes) (n : ℕ) → parse_octets fs ≡ some n → n < 4294967296
unfolding parse_octets
parse_octets_small (a ∷ b ∷ c ∷ d ∷ []) n h =
    let (w, ew, h1) = bind_some (octet a) _ n h in
    let (x, ex, h2) = bind_some (octet b) _ n h1 in
    let (y, ey, h3) = bind_some (octet c) _ n h2 in
    let (z, ez, h4) = bind_some (octet d) _ n h3 in
    omega (
      arith,
      octet_small a w ew,
      octet_small b x ex,
      octet_small c y ey,
      octet_small d z ez,
      some-injective _ n h4,
    )
parse_octets_small _ n h = cc

v4_of : Addr → ℕ
v4_of (v4 n) = n
v4_of (v6 n) = 0

module _ (parse_v6 : Bytes → Option ℕ) where
  abbrev IsSmall : Option Addr → Type 0
  IsSmall o = (n : ℕ) → o ≡ some (v4 n) → n < 4294967296

  read_v4-IsSmall : (fs : List Bytes) → IsSmall (parse_octets fs >>= λ n. some (v4 n))
  unfolding v4_of
  read_v4-IsSmall fs n h =
      let (m, e, k) = bind_some (parse_octets fs) (λ m. some (v4 m)) (v4 n) h in
      parse_octets_small fs n (rw (← ap v4_of (some-injective (v4 m) (v4 n) k)) e)

  read_v6-IsSmall : (o : Option ℕ) → IsSmall (o >>= λ n. some (v6 n))
  read_v6-IsSmall none n h = cc
  read_v6-IsSmall (some m) n h = cc

  if-IsSmall : (b : Bool) (x y : Option Addr) → IsSmall x → IsSmall y → IsSmall (if b then x else y)
  if-IsSmall true x y h k = h
  if-IsSmall false x y h k = k

  first-IsSmall : (s rest : Bytes) → IsSmall (parse_by_first parse_v6 s rest)
  unfolding parse_by_first
  first-IsSmall s [] = λ n h. cc
  first-IsSmall s (c ∷ rest) = if-IsSmall (c == b'.') _ _ (read_v4-IsSmall (split s b'.')) (
      if-IsSmall (c == b':') _ _ (read_v6-IsSmall (parse_v6 s))
        (if-IsSmall (c == b'%') _ _ (λ n h. cc) (first-IsSmall s rest)))

  pub parse_addr_small : (s : Bytes) (n : ℕ) → parse_addr parse_v6 s ≡ some (v4 n) → n < 4294967296
  unfolding parse_addr
  parse_addr_small s = first-IsSmall s s
