-- ===== src/Netip.antt =====
-- The part of Go's `net/netip` that the program uses. IPv6 texts are read by a parameter: the
-- program asks only whether an address is an IPv4 one.
pub mod Bounds
use utlsproxy.Common.{
  ℕ, ◌+◌, ◌-◌, ◌*◌, ◌/◌, ◌%◌, ◌^◌, Bool, true, false, ◌&&◌, not, List, [], ◌∷◌, Option, none, some,
  ◌++◌, ltb, if◌then◌else◌, ◌==◌, nat_eq, list_eq, leb, length, ◌≡◌, ◌↔◌, arith, Eq,
}
use utlsproxy.Common.Text.{Bytes, split, has_suffix, trim_suffix}

-- An address by its value: 32 bits or 128.
pub data Addr : Type 0 where
  v4 : ℕ → Addr
  v6 : ℕ → Addr

abbrev pub addr_beq : Addr → Addr → Bool
addr_beq (v4 a) (v4 b) = a == b
addr_beq (v6 a) (v6 b) = a == b
addr_beq _ _ = false

pub addr_beq_iff : (a b : Addr) → (addr_beq a b ≡ true) ↔ (a ≡ b)
addr_beq_iff (v4 a) (v4 b) = ground arith
addr_beq_iff (v6 a) (v6 b) = ground arith
addr_beq_iff _ _ = ground arith

instance abbrev pub addr_eq : Eq Addr
addr_eq = record { beq = addr_beq; beq_iff = addr_beq_iff }

unfoldable pub is_digit : ℕ → Bool
is_digit c = leb b'0' c && leb c b'9'

digits_from : ℕ → Bytes → Option ℕ
digits_from n [] = some n
digits_from n (c ∷ s) =
    let rest = digits_from (n * 10 + (c - b'0')) s in if is_digit c then rest else none

-- a text of one or more decimal digits
unfoldable pub decimal : Bytes → Option ℕ
unfolding digits_from is_digit
decimal [] = none
decimal (c ∷ s) = digits_from 0 (c ∷ s)

infixl 5 ◌>>=◌
abbrev pub ◌>>=◌ {ℓ κ} : {A : Type ℓ} {B : Type κ} → Option A → (A → Option B) → Option B
none >>= f = none
some a >>= f = f a

abbrev pub when {ℓ} : {A : Type ℓ} → Bool → A → Option A
when true a = some a
when false a = none

leading_zero : Bytes → Bool
leading_zero (c ∷ d ∷ s) = c == b'0'
leading_zero _ = false

-- One field of a dotted address: at most 255, with no leading zero.
unfoldable pub octet : Bytes → Option ℕ
unfolding decimal leading_zero
octet s = do n ← decimal s; when (leb n 255 && not (leading_zero s) && leb (length s) 3) n

unfoldable pub parse_octets : List Bytes → Option ℕ
unfolding octet
parse_octets (a ∷ b ∷ c ∷ d ∷ []) = do
  w ← octet a
  x ← octet b
  y ← octet c
  z ← octet d
  some (w * 2 ^ 24 + x * 2 ^ 16 + y * 2 ^ 8 + z)
parse_octets _ = none

-- The texts before and behind the last of a byte.
unfoldable pub cut_last : ℕ → Bytes → Option (Bytes × Bytes)
cut_last sep [] = none
cut_last sep (c ∷ s) = elim (cut_last sep s) [
  | some (a, b) ↦ some (c ∷ a, b)
  | none ↦ if c == sep then some ([], s) else none
]

only_v4 : Addr → Option Addr
only_v4 (v4 n) = some (v4 n)
only_v4 (v6 n) = none

only_v6 : Addr → Option Addr
only_v6 (v4 n) = none
only_v6 (v6 n) = some (v6 n)

abbrev pub width : Addr → ℕ
width (v4 _) = 32
width (v6 _) = 128

pub record Prefix : Type 0 where
  pub addr : Addr
  pub bits : ℕ

module _ (parse_v6 : Bytes → Option ℕ) where
  -- `netip.ParseAddr`: the first of `.`, `:` and `%` decides.
  parse_by_first : Bytes → Bytes → Option Addr
  parse_by_first s [] = none
  parse_by_first s (c ∷ rest) =
      let later = parse_by_first s rest in
      if c == b'.'
      then (parse_octets (split s b'.') >>= λ n. some (v4 n))
      else if c == b':'
      then (parse_v6 s >>= λ n. some (v6 n))
      else if c == b'%'
      then none
      else later

  unfoldable pub parse_addr : Bytes → Option Addr
  unfolding parse_by_first parse_octets split
  parse_addr s = parse_by_first s s

  -- the address of an address and port: IPv6 in brackets, IPv4 without
  unfoldable pub host_part : Bytes → Option Addr
  unfolding parse_addr only_v4 only_v6 has_suffix trim_suffix
  host_part [] = none
  host_part (c ∷ ip) =
      if c == b'['
      then (when (has_suffix ip (b']' ∷ [])) ip >>= λ t.
          parse_addr (trim_suffix t (b']' ∷ [])) >>= only_v6)
      else (parse_addr (c ∷ ip) >>= only_v4)

  -- `netip.ParseAddrPort`
  unfoldable pub parse_addr_port : Bytes → Option (Addr × ℕ)
  unfolding host_part cut_last decimal
  parse_addr_port s = do
    (ip, port) ← cut_last b':' s
    p ← decimal port
    q ← when (leb p 65535) p
    a ← host_part ip
    some (a, q)

  -- `netip.ParsePrefix`: the bits are a number with no leading zero, at most the address's width.
  unfoldable pub parse_prefix : Bytes → Option Prefix
  unfolding parse_addr cut_last decimal leading_zero
  parse_prefix s = do
    (ip, bits) ← cut_last b'/' s
    a ← parse_addr ip
    n ← decimal bits
    when (leb n (width a) && not (leading_zero bits)) (record { addr = a; bits = n })

abbrev pub is4 : Addr → Bool
is4 (v4 _) = true
is4 (v6 _) = false

unfoldable pub is_multicast : Addr → Bool
is_multicast (v4 n) = n / 2 ^ 28 == 14
is_multicast (v6 n) = n / 2 ^ 120 == 255

unfoldable pub is_unspecified : Addr → Bool
is_unspecified (v4 n) = n == 0
is_unspecified (v6 n) = n == 0

unfoldable pub is_loopback : Addr → Bool
is_loopback (v4 n) = n / 2 ^ 24 == 127
is_loopback (v6 n) = n == 1

-- 255.255.255.255
abbrev pub broadcast : Addr
broadcast = v4 4294967295

-- `Prefix.Contains`: the same family, and the same leading bits.
unfoldable pub in_prefix : Prefix → Addr → Addr → Bool
in_prefix p (v4 a) (v4 b) = a / 2 ^ (32 - p.bits) == b / 2 ^ (32 - p.bits)
in_prefix p (v6 a) (v6 b) = a / 2 ^ (128 - p.bits) == b / 2 ^ (128 - p.bits)
in_prefix p _ _ = false

unfoldable pub prefix_contains : Prefix → Addr → Bool
unfolding in_prefix
prefix_contains p a = in_prefix p p.addr a

-- `Addr.Unmap`: an IPv4-mapped IPv6 address as the IPv4 address.
unfoldable pub unmap : Addr → Addr
unmap (v4 n) = v4 n
unmap (v6 n) = if n / 2 ^ 32 == 65535 then v4 (n % 2 ^ 32) else v6 n

-- a number of at most three digits
unfoldable pub digits : ℕ → Bytes
digits n =
    if ltb n 10
    then (b'0' + n) ∷ []
    else if ltb n 100
    then (b'0' + n / 10) ∷ (b'0' + n % 10) ∷ []
    else (b'0' + n / 100) ∷ (b'0' + n / 10 % 10) ∷ (b'0' + n % 10) ∷ []

-- `Addr.String` of an IPv4 address
unfoldable pub addr_string : ℕ → Bytes
unfolding digits
addr_string n =
    digits (n / 2 ^ 24)
    ++ b'.' ∷ digits (n / 2 ^ 16 % 256)
    ++ b'.' ∷ digits (n / 2 ^ 8 % 256)
    ++ b'.' ∷ digits (n % 256)
