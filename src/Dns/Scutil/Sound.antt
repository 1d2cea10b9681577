-- ===== src/Dns/Scutil/Sound.antt =====
-- internal/dns/discovery.go: what the groups of `ParseScutil` are like.
use utlsproxy.Common.{
  ℕ, Bool, true, false, ◌||◌, not, List, [], ◌∷◌, ◌++◌, ◌-◌, Option, none, some, if◌then◌else◌,
  ◌==◌, nat_eq, list_eq, map, leb, ◌≡◌, refl, ◌≤◌, ◌<◌, All, All-append, arith, ap, ◌≢◌, length,
  subst, list_beq_iff,
}
use utlsproxy.Common.Int.{ℤ, pos, negsuc, max_int, ◌≤ℤ◌}
use utlsproxy.Common.Outcome.{Result, ok, err}
use utlsproxy.Common.Text.{Bytes, trim_space, cut, fields, split}
use utlsproxy.Dns.Discovery.{DiscoveryError, unrecognized, line_too_long}
use utlsproxy.Dns.Group.{group_eq, Group, Discovery}
use utlsproxy.Dns.Scutil.{
  Scan, Line, go, break, fail, flush, completed, with_ports, with_group, empty_group,
  add_nameserver, set_interface, set_interface_to, set_port, set_order, set_key, read_entry,
  in_group, read_line, read_lines, read_on, finish, parse_scutil, scutil_discovery, join_host_port,
  atoi, bounded_pos, bounded_neg, start,
}
use utlsproxy.Netip.{Addr, v4, v6, addr_string, decimal, parse_addr}
use utlsproxy.Netip.Bounds.{parse_addr_small}

-- an IPv4 address and a port in range
abbrev pub IsEndpoint : Bytes → Type 0
IsEndpoint s =
    (n port : ℕ) × (s ≡ join_host_port (addr_string n) port)
    × (n < 4294967296)
    × (1 ≤ port)
    × (port ≤ 65535)

-- a 64-bit `int`
abbrev pub IsInt : ℤ → Type 0
IsInt n = (◌≤ℤ◌ (negsuc 9223372036854775807) n) × (◌≤ℤ◌ n max_int)

-- an address of 32 bits, with no port yet
abbrev IsServer : Bytes → Type 0
IsServer s = (n : ℕ) × (s ≡ addr_string n) × (n < 4294967296)

abbrev pub IsSound : Group → Type 0
IsSound g = (g.default ≡ (g.domains == [])) × All IsEndpoint g.servers × IsInt g.priority

-- a group under construction, whose servers have no port yet
abbrev IsDraft : Group → Type 0
IsDraft g = All IsServer g.servers × IsInt g.priority

abbrev OrNone : Option Group → Type 0
OrNone none = Unit
OrNone (some g) = IsDraft g

abbrev Invariant : Scan → Type 0
Invariant s = (1 ≤ s.port) × (s.port ≤ 65535) × All IsSound s.groups × OrNone s.group

unfoldable OfLine : Line → Type 0
OfLine (go s) = Invariant s
OfLine break = Unit
OfLine (fail e) = Unit

either : {A : Type 0} (P : A → Type 0) (b : Bool) (x y : A) → P x → P y → P (if b then x else y)
either P true x y hx hy = hx
either P false x y hx hy = hy

abbrev InRange : Option ℤ → Type 0
InRange none = Unit
InRange (some n) = IsInt n

bounded_pos-InRange : (o : Option ℕ) → InRange (bounded_pos o)
bounded_pos-InRange none = tt
bounded_pos-InRange (some m) = at (leb m 9223372036854775807) (λ h. ground arith)
  where
    at :
        (b : Bool)
        → (b ≡ true → m ≤ 9223372036854775807)
        → InRange (if b then some (pos m) else none)
    at true h = (omega arith, omega (arith, h refl))
    at false h = tt

bounded_neg-InRange : (o : Option ℕ) → InRange (bounded_neg o)
bounded_neg-InRange none = tt
bounded_neg-InRange (some m) =
    either InRange (m == 0) (some (pos 0)) _ (omega arith, omega arith)
      (at (leb m 9223372036854775808) (λ h. ground arith))
  where
    at :
        (b : Bool)
        → (b ≡ true → m ≤ 9223372036854775808)
        → InRange (if b then some (negsuc (m - 1)) else none)
    at true h = (omega (arith, h refl), omega arith)
    at false h = tt

atoi-InRange : (b : Bytes) → InRange (atoi b)
unfolding atoi
atoi-InRange [] = tt
atoi-InRange (c ∷ s) = either InRange (c == b'-') _ _ (bounded_neg-InRange (decimal s)) (
    either InRange (c == b'+') _ _ (bounded_pos-InRange (decimal s))
      (bounded_pos-InRange (decimal (c ∷ s))))

with_port-IsEndpoint :
    (port : ℕ) (xs : List Bytes)
    → 1 ≤ port
    → port ≤ 65535
    → All IsServer xs
    → All IsEndpoint (map (λ s. join_host_port s port) xs)
with_port-IsEndpoint port [] lo hi h = tt
with_port-IsEndpoint port (x ∷ xs) lo hi ((n, e, small), h) = (
  (n, port, ap (λ s. join_host_port s port) e, small, lo, hi),
  with_port-IsEndpoint port xs lo hi h,
)

with_ports-IsSound :
    (port : ℕ) (g : Group) → 1 ≤ port → port ≤ 65535 → IsDraft g → IsSound (with_ports port g)
with_ports-IsSound port g lo hi (servers, priority) =
    (refl, with_port-IsEndpoint port g.servers lo hi servers, priority)

flush-Invariant : (s : Scan) → Invariant s → Invariant (flush s)
unfolding flush
flush-Invariant s (lo, hi, gs, g) = (omega arith, omega arith, at s.group g, tt)
  where
    pick :
        (b : Bool) (h : Group)
        → IsDraft h
        → All IsSound (if b then s.groups else s.groups ++ with_ports s.port h ∷ [])
    pick true h d = gs
    pick false h d =
        All-append IsSound s.groups (with_ports s.port h ∷ []) gs
          (with_ports-IsSound s.port h lo hi d, tt)

    at : (o : Option Group) → OrNone o → All IsSound (completed s o)
    at none d = gs
    at (some h) d = pick s.mdns h d

module _ (parse_v6 : Bytes → Option ℕ) (s : Scan) (g : Group) (inv : Invariant s)
    (d : IsDraft g) where
  with_group-OfLine : (h : Group) → IsDraft h → OfLine (with_group s g h)
  unfolding OfLine
  with_group-OfLine h e = (inv.0, inv.1, inv.2, e)

  same-OfLine : OfLine (go s)
  unfolding OfLine
  same-OfLine = inv

  with_mdns-OfLine : OfLine (go (record s { mdns = true }))
  unfolding OfLine
  with_mdns-OfLine = inv

  add_nameserver-OfLine :
      (o : Option Addr)
      → ((n : ℕ) → o ≡ some (v4 n) → n < 4294967296)
      → OfLine (add_nameserver s g o)
  unfolding OfLine
  add_nameserver-OfLine none small = inv
  add_nameserver-OfLine (some (v6 n)) small = inv
  add_nameserver-OfLine (some (v4 n)) small = (
    inv.0,
    inv.1,
    inv.2,
    (All-append IsServer g.servers (addr_string n ∷ []) d.0 ((n, refl, small n refl), tt), d.1),
  )

  set_interface-OfLine : (ps : List Bytes) → OfLine (set_interface s g ps)
  unfolding OfLine
  set_interface-OfLine [] = tt
  set_interface-OfLine (p ∷ ps) = at (atoi p)
    where
      at : (o : Option ℤ) → OfLine (set_interface_to s g o)
      at none = tt
      at (some n) = (inv.0, inv.1, inv.2, d)

  set_port-OfLine : (o : Option ℤ) → OfLine (set_port s g o)
  unfolding OfLine
  set_port-OfLine none = tt
  set_port-OfLine (some (negsuc n)) = tt
  set_port-OfLine (some (pos n)) = ground (arith, inv)

  set_order-OfLine : (o : Option ℤ) → InRange o → OfLine (set_order s g o)
  unfolding OfLine
  set_order-OfLine none b = tt
  set_order-OfLine (some n) b = (inv.0, inv.1, inv.2, (d.0, b))

  set_key-OfLine : (key value : Bytes) → OfLine (set_key parse_v6 s g key value)
  unfolding set_key
  set_key-OfLine key value =
      either OfLine _ _ _
        (add_nameserver-OfLine (parse_addr parse_v6 value) (parse_addr_small parse_v6 value))
        (either OfLine _ _ _ (with_group-OfLine _ d) (
          either OfLine _ _ _ (set_interface-OfLine (fields value)) (
            either OfLine _ _ _ (set_port-OfLine (atoi value)) (
              either OfLine _ _ _ (set_order-OfLine (atoi value) (atoi-InRange value))
                (either OfLine _ _ _ (with_mdns-OfLine) (same-OfLine))))))

module _ (parse_v6 : Bytes → Option ℕ) where
  read_entry-OfLine :
      (s : Scan) (g : Group) (o : Option (Bytes × Bytes))
      → Invariant s
      → IsDraft g
      → OfLine (read_entry parse_v6 s g o)
  unfolding OfLine
  read_entry-OfLine s g none inv d = inv
  read_entry-OfLine s g (some (key, value)) inv d =
      set_key-OfLine parse_v6 s g inv d (trim_space key) (trim_space value)

  in_group-OfLine :
      (s : Scan) (o : Option Group) (line : Bytes)
      → Invariant s
      → OrNone o
      → OfLine (in_group parse_v6 s o line)
  unfolding OfLine
  in_group-OfLine s none line inv d = inv
  in_group-OfLine s (some g) line inv d = read_entry-OfLine s g (cut line b':') inv d

  header-OfLine :
      (s : Scan)
      → Invariant (flush s)
      → OfLine (go (record (flush s) { group = some empty_group; seen_header = true }))
  unfolding OfLine
  header-OfLine s i = (i.0, i.1, i.2, (tt, (omega arith, omega arith)))

  break-OfLine : OfLine break
  unfolding OfLine
  break-OfLine = tt

  read_line-OfLine : (s : Scan) (line : Bytes) → Invariant s → OfLine (read_line parse_v6 s line)
  unfolding read_line
  read_line-OfLine s line inv = either OfLine _ _ _ break-OfLine (
      either OfLine _ _ _ (header-OfLine s (flush-Invariant s inv))
        (in_group-OfLine s s.group line inv inv.3))

  abbrev AllSound : Result DiscoveryError (List Group) → Type 0
  AllSound (err e) = Unit
  AllSound (ok gs) = All IsSound gs × (gs ≢ [])

  finish-AllSound : (s : Scan) → Invariant s → AllSound (finish parse_v6 s)
  finish-AllSound s inv = at (not s.seen_header) ((flush s).groups == []) refl
    where
      at :
          (a b : Bool)
          → ((flush s).groups == []) ≡ b
          → AllSound (if a || b then err unrecognized else ok (flush s).groups)
      at true b e = tt
      at false true e = tt
      at false false e =
          ((flush-Invariant s inv).2, λ n. ground (arith, (list_beq_iff (flush s).groups []).1 n))

  read_lines-AllSound :
      (ls : List Bytes) (s : Scan) → Invariant s → AllSound (read_lines parse_v6 s ls)
  unfolding read_lines OfLine
  read_lines-AllSound [] s inv = finish-AllSound s inv
  read_lines-AllSound (l ∷ ls) s inv =
      either AllSound (leb 1048576 (length l)) (err line_too_long) _ tt (
        at (λ t. read_lines-AllSound ls t) (read_line parse_v6 s (trim_space l))
          (read_line-OfLine s (trim_space l) inv))
    where
      at :
          ((t : Scan) → Invariant t → AllSound (read_lines parse_v6 t ls))
          → (r : Line) → OfLine r
          → AllSound (read_on parse_v6 s (λ t. read_lines parse_v6 t ls) r)
      at f (go t) h = f t h
      at f break h = finish-AllSound s inv
      at f (fail e) h = tt

  -- A discovery that `ParseScutil` returns has a group, and each of its groups has only servers that
  -- are an IPv4 address with a port from 1 to 65535, a priority within a 64-bit `int`, and is a
  -- default one exactly where it has no domain.
  pub parse_scutil-IsSound :
      (text : Bytes) (d : Discovery)
      → parse_scutil parse_v6 text ≡ ok d
      → All IsSound d.groups × (d.groups ≢ [])
  unfolding parse_scutil
  parse_scutil-IsSound text d h =
      at (read_lines parse_v6 (start parse_v6) (split text b'\n'))
        (read_lines-AllSound (split text b'\n') (start parse_v6) (omega arith, omega arith, tt, tt))
        h
    where
      at :
          (r : Result DiscoveryError (List Group))
          → AllSound r
          → scutil_discovery parse_v6 r ≡ ok d
          → All IsSound d.groups × (d.groups ≢ [])
      at (err e) s k = cc
      at (ok gs) s k = subst (λ (xs : List Group). All IsSound xs × (xs ≢ [])) (cc) s
