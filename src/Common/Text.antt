-- ===== src/Common/Text.antt =====
-- The functions of Go's `strings` and `bytes` that the program calls, on texts as lists of bytes.
-- Case and white space are those of ASCII.
pub mod Laws
use Prim.Native.Char.{code}
use utlsproxy.Common.Tests.{leb, ltb, if◌then◌else◌}
use utlsproxy.Common.Lists.{length, take, drop}
use utlsproxy.Common.Equality.{◌==◌, nat_eq}
use Prim.Native.Nat.{ℕ, zero, suc, ◌+◌, ◌-◌, ◌/◌, ◌%◌}
use mathlib.Core.Option.{Option, none, some}
use Prim.Native.String.{String}
use mathlib.Core.Bool.{Bool, true, false, ◌&&◌, ◌||◌}
use mathlib.Core.List.{List, [], ◌∷◌, ◌++◌, map, reverse}

abbrev pub Bytes : Type 0
Bytes = List ℕ

-- The code points of a text: its bytes, where it is ASCII.
abbrev pub codes : String → Bytes
codes String.[] = []
codes (String.◌∷◌ c s) = code c ∷ codes s

-- `strings.HasPrefix`
unfoldable pub has_prefix : Bytes → Bytes → Bool
has_prefix s [] = true
has_prefix [] (p ∷ ps) = false
has_prefix (c ∷ s) (p ∷ ps) = c == p && has_prefix s ps

-- `strings.HasSuffix`
unfoldable pub has_suffix : Bytes → Bytes → Bool
unfolding has_prefix
has_suffix s suffix = has_prefix (reverse s) (reverse suffix)

-- `strings.TrimPrefix`
unfoldable pub trim_prefix : Bytes → Bytes → Bytes
unfolding has_prefix
trim_prefix s p = if has_prefix s p then drop (length p) s else s

-- `strings.TrimSuffix`
unfoldable pub trim_suffix : Bytes → Bytes → Bytes
unfolding has_suffix
trim_suffix s p = if has_suffix s p then take (length s - length p) s else s

-- `strings.ToLower` of one byte
unfoldable pub lower : ℕ → ℕ
lower c = if leb b'A' c && leb c b'Z' then c + 32 else c

-- `strings.ToLower`
unfoldable pub to_lower : Bytes → Bytes
unfolding lower
to_lower = map lower

unfoldable pub is_space : ℕ → Bool
is_space c = (leb 9 c && leb c 13) || c == 32

trim_left : Bytes → Bytes
trim_left [] = []
trim_left (c ∷ s) = let rest = trim_left s in if is_space c then rest else c ∷ s

-- `strings.TrimSpace`
unfoldable pub trim_space : Bytes → Bytes
unfolding trim_left is_space
trim_space s = reverse (trim_left (reverse (trim_left s)))

-- `strings.Split` by a separator of one byte
unfoldable pub split_onto : Bytes → ℕ → Bytes → List Bytes
split_onto cur sep [] = cur ∷ []
split_onto cur sep (c ∷ s) = elim (c == sep) [
  | true ↦ cur ∷ split_onto [] sep s
  | false ↦ split_onto (cur ++ c ∷ []) sep s
]

unfoldable pub split : Bytes → ℕ → List Bytes
unfolding split_onto
split s sep = split_onto [] sep s

-- `strings.Contains`
unfoldable pub contains_text : Bytes → Bytes → Bool
unfolding has_prefix
contains_text [] p = has_prefix [] p
contains_text (c ∷ s) p = has_prefix (c ∷ s) p || contains_text s p

-- `strings.Cut` at a separator of one byte, where it occurs
unfoldable pub cut : Bytes → ℕ → Option (Bytes × Bytes)
cut [] sep = none
cut (c ∷ s) sep = elim (c == sep) [
  | true ↦ some ([], s)
  | false ↦ elim (cut s sep) [ some (a, b) ↦ some (c ∷ a, b) | none ↦ none ]
]

abbrev nonempty_onto : Bytes → List Bytes → List Bytes
nonempty_onto [] rest = rest
nonempty_onto (c ∷ s) rest = (c ∷ s) ∷ rest

fields_onto : Bytes → Bytes → List Bytes
fields_onto cur [] = nonempty_onto cur []
fields_onto cur (c ∷ s) = elim (is_space c) [
  | true ↦ nonempty_onto cur (fields_onto [] s)
  | false ↦ fields_onto (cur ++ c ∷ []) s
]

-- `strings.Fields`
unfoldable pub fields : Bytes → List Bytes
unfolding fields_onto is_space
fields = fields_onto []

itoa_from : ℕ → ℕ → Bytes
itoa_from zero n = []
itoa_from (suc fuel) n = elim (ltb n 10) [
  | true ↦ (b'0' + n) ∷ []
  | false ↦ itoa_from fuel (n / 10) ++ (b'0' + n % 10) ∷ []
]

-- `strconv.Itoa` of a number of 64 bits, which has at most 20 digits
unfoldable pub itoa : ℕ → Bytes
unfolding itoa_from
itoa = itoa_from 20
