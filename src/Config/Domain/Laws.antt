-- ===== src/Config/Domain/Laws.antt =====
-- Accepted names are host names in their normal form.
use utlsproxy.Common.Text.Laws.{has_suffix_iff}
use utlsproxy.Common.{◌≤◌, length, none, All}
use utlsproxy.Common.{
  ℕ, true, ◌&&◌, [], ◌∷◌, ◌++◌, ◌==◌, nat_eq, list_eq, ◌≡◌, refl, arith, Bool-cases, inl, inr,
  false, Option, ap, some,
}
use utlsproxy.Common.Text.{Bytes, split_onto, lower, split, to_lower, trim_suffix, has_suffix}
use utlsproxy.Config.Domain.Labels.{IsHostLabel, all_labels-IsHostLabel}
use utlsproxy.Common.{All}
use utlsproxy.Config.Domain.{
  is_label_byte, label_bytes, is_label, all_labels, check_ascii, ok, parse_addr, domain,
}

label_bytes-append : (s t : Bytes) → label_bytes (s ++ t) ≡ label_bytes s && label_bytes t
unfolding label_bytes
label_bytes-append [] t = refl
label_bytes-append (c ∷ s) t = ground (arith, label_bytes-append s t)

is_label-label_bytes : (s : Bytes) → is_label s ≡ true → label_bytes s ≡ true
unfolding is_label
is_label-label_bytes [] h = cc
is_label-label_bytes (c ∷ s) h = ground arith

lower_label_byte : (c : ℕ) → is_label_byte c ≡ true → lower c ≡ c
unfolding lower is_label_byte
lower_label_byte c h = ground arith

-- the first label of the rest begins with what has been read
split_onto-label_bytes :
    (s cur : Bytes) → all_labels (split_onto cur b'.' s) ≡ true → label_bytes cur ≡ true
unfolding split_onto all_labels
split_onto-label_bytes [] cur h = is_label-label_bytes cur (ground arith)
split_onto-label_bytes (c ∷ s) cur h = elim (Bool-cases (c == b'.')) [
  | inl y ↦ is_label-label_bytes cur (ground (arith, h))
  | inr n ↦ ground (
    arith,
    label_bytes-append cur (c ∷ []),
    split_onto-label_bytes s (cur ++ c ∷ []) (ground (arith, h)),
  )
]

-- a byte behind a read prefix is a label byte
last_of_prefix : (cur : Bytes) (c : ℕ) → label_bytes (cur ++ c ∷ []) ≡ true → is_label_byte c ≡ true
unfolding label_bytes
last_of_prefix cur c h = ground (arith, label_bytes-append cur (c ∷ []))

split_onto-lower : (s cur : Bytes) → all_labels (split_onto cur b'.' s) ≡ true → to_lower s ≡ s
unfolding split_onto all_labels to_lower
split_onto-lower [] cur h = refl
split_onto-lower (c ∷ s) cur h = elim (Bool-cases (c == b'.')) [
  | inl y ↦
      let e : c ≡ b'.' = ground arith in
      rw e (ap (λ t. b'.' ∷ t) (split_onto-lower s [] (ground (arith, h))))
  | inr n ↦
      let rest : all_labels (split_onto (cur ++ c ∷ []) b'.' s) ≡ true = ground (arith, h) in
      let byte = last_of_prefix cur c (split_onto-label_bytes s (cur ++ c ∷ []) rest) in
      cc (lower_label_byte c byte, split_onto-lower s (cur ++ c ∷ []) rest)
]

all_labels-dot : (r cur : Bytes) → all_labels (split_onto cur b'.' (r ++ b'.' ∷ [])) ≡ false
unfolding split_onto all_labels is_label
all_labels-dot [] cur = ground arith
all_labels-dot (c ∷ r) cur = ground (arith, all_labels-dot r [], all_labels-dot r (cur ++ c ∷ []))

trim_suffix-labels : (a : Bytes) → all_labels (split a b'.') ≡ true → trim_suffix a (b'.' ∷ []) ≡ a
unfolding split
trim_suffix-labels a h = elim (Bool-cases (has_suffix a (b'.' ∷ []))) [
  | inl y ↦ let (r, e) = (has_suffix_iff a (b'.' ∷ [])).0 y in cc (all_labels-dot r [], rw e at h)
  | inr n ↦ unfold trim_suffix in rw n
]

-- What `Domain` accepts.
pub record IsHostname (parse_v6 : Bytes → Option ℕ) (a : Bytes) : Type 0 where
  pub nonempty : 1 ≤ length a
  pub short : length a ≤ 253
  pub not_address : parse_addr parse_v6 a ≡ none
  pub labels : all_labels (split a b'.') ≡ true
  pub each : All IsHostLabel (split a b'.')

module _ (to_ascii : Bytes → Option Bytes) (parse_v6 : Bytes → Option ℕ) where
  check_ascii-tests :
      (s a : Bytes) (o : Option Bytes)
      → check_ascii to_ascii parse_v6 s o ≡ ok a
      → (o ≡ some a)
        × (1 ≤ length a)
        × (length a ≤ 253)
        × (parse_addr parse_v6 a ≡ none)
        × (all_labels (split a b'.') ≡ true)
  unfolding check_ascii
  check_ascii-tests s a none h = cc
  check_ascii-tests s a (some b) h = ground arith

  check_ascii-IsHostname :
      (s a : Bytes) (o : Option Bytes)
      → check_ascii to_ascii parse_v6 s o ≡ ok a
      → (o ≡ some a) × IsHostname parse_v6 a
  check_ascii-IsHostname s a o h =
      let (e, low, high, address, good) = check_ascii-tests s a o h in
      (
        e,
        record {
          nonempty = low;
          short = high;
          not_address = address;
          labels = good;
          each = all_labels-IsHostLabel (split a b'.') good;
        },
      )

  check_ascii-accepts :
      (s a : Bytes) → IsHostname parse_v6 a → check_ascii to_ascii parse_v6 s (some a) ≡ ok a
  unfolding check_ascii
  check_ascii-accepts s a h = ground (arith, h.nonempty, h.short, h.not_address, h.labels)

  domain-normal :
      (s a : Bytes)
      → IsHostname parse_v6 a
      → to_ascii a ≡ some a
      → domain to_ascii parse_v6 a ≡ ok a
  unfolding domain
  domain-normal s a h e =
      rw (split_onto-lower a [] (unfold split in h.labels), trim_suffix-labels a h.labels, e)
        (check_ascii-accepts a a h)

  -- What `Domain` returns is a host name: 1 to 253 bytes, not an IP address, in labels of 1 to 63
  -- lower-case letters, digits and inner dashes. It is in normal form: `Domain` returns it unchanged,
  -- if the conversion to ASCII leaves its own results unchanged.
  pub domain-IsHostname :
      ((s a : Bytes) → to_ascii s ≡ some a → to_ascii a ≡ some a)
      → (s a : Bytes) → domain to_ascii parse_v6 s ≡ ok a
      → IsHostname parse_v6 a × (domain to_ascii parse_v6 a ≡ ok a)
  domain-IsHostname stable s a h =
      let t = trim_suffix (to_lower s) (b'.' ∷ []) in
      let (e, w) = check_ascii-IsHostname t a (to_ascii t) (unfold domain in h) in
      (w, domain-normal s a w (stable t a e))
