-- ===== src/Config/Domain/Labels.antt =====
-- internal/config/config.go: the labels that `Domain` accepts.
use utlsproxy.Common.{
  ℕ, true, List, [], ◌∷◌, ◌++◌, ◌≡◌, ◌≢◌, ◌≤◌, ◌⊎◌, refl, arith, ap, ◌∙◌, length, All,
}
use utlsproxy.Common.Text.{Bytes}
use utlsproxy.Config.Domain.{is_label_byte, label_bytes, last_byte, is_label, all_labels}

-- a lower-case letter, a digit or a dash
abbrev pub IsHostByte : ℕ → Type 0
IsHostByte c = ((b'a' ≤ c) × (c ≤ b'z')) ⊎ ((b'0' ≤ c) × (c ≤ b'9')) ⊎ (c ≡ b'-')

-- one to 63 of these, with no dash at either end
pub record IsHostLabel (l : Bytes) : Type 0 where
  pub nonempty : 1 ≤ length l
  pub short : length l ≤ 63
  pub bytes : All IsHostByte l
  pub first : (s : Bytes) → l ≢ b'-' ∷ s
  pub last : (s : Bytes) → l ≢ s ++ b'-' ∷ []

label_bytes-IsHostByte : (s : Bytes) → label_bytes s ≡ true → All IsHostByte s
unfolding label_bytes is_label_byte
label_bytes-IsHostByte [] h = tt
label_bytes-IsHostByte (c ∷ s) h = (ground (arith, h), label_bytes-IsHostByte s (ground (arith, h)))

last_byte-append : (c : ℕ) (s : Bytes) → last_byte c (s ++ b'-' ∷ []) ≡ b'-'
unfolding last_byte
last_byte-append c [] = refl
last_byte-append c (x ∷ s) = last_byte-append x s

last_of : Bytes → ℕ
last_of [] = 0
last_of (c ∷ s) = last_byte c s

last_of-append : (s : Bytes) → last_of (s ++ b'-' ∷ []) ≡ b'-'
unfolding last_of last_byte
last_of-append [] = refl
last_of-append (c ∷ s) = last_byte-append c s

first_of : Bytes → ℕ
first_of [] = 0
first_of (c ∷ s) = c

is_label-IsHostLabel : (l : Bytes) → is_label l ≡ true → IsHostLabel l
unfolding is_label last_of first_of
is_label-IsHostLabel [] h = cc
is_label-IsHostLabel (c ∷ s) h = record {
  nonempty = omega arith;
  short = ground (arith, h);
  bytes = label_bytes-IsHostByte (c ∷ s) (ground (arith, h));
  first = λ t e. ground (arith, h, ap first_of e);
  last = λ t e. ground (arith, h, ap last_of e ∙ last_of-append t);
}

pub all_labels-IsHostLabel : (ls : List Bytes) → all_labels ls ≡ true → All IsHostLabel ls
unfolding all_labels
all_labels-IsHostLabel [] h = tt
all_labels-IsHostLabel (l ∷ ls) h =
    (is_label-IsHostLabel l (ground (arith, h)), all_labels-IsHostLabel ls (ground (arith, h)))
