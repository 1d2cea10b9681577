-- ===== src/Hosts/Block.antt =====
-- internal/hosts/hosts.go: where `block` finds a block that was put behind a text.
use utlsproxy.Common.{
  ℕ, ◌+◌, true, false, List, [], ◌∷◌, ◌++◌, Option, none, some, ◌==◌, nat_eq, list_eq, length, ◌≡◌,
  refl, sym, ap, ◌∙◌, arith, append-nil, Bool-cases, inl, inr, contains,
}
use utlsproxy.Common.Outcome.{Result, ok, err, ◌>>=◌, bind-eq-ok}
use utlsproxy.Common.Text.{Bytes, has_prefix, trim_space}
use utlsproxy.Hosts.{
  HostsError, Marks, unmarked, split_after, onto_first, mark_line, mark_lines, bounds, block,
  is_marker, lacks_newline,
}

-- the number of bytes in the lines
abbrev pub total : List Bytes → ℕ
total [] = 0
total (l ∷ ls) = length l + total ls

total-onto_first : (c : ℕ) (ls : List Bytes) → total (onto_first c ls) ≡ 1 + total ls
total-onto_first c [] = refl
total-onto_first c (l ∷ ls) = omega arith

total-split_after : (s : Bytes) (sep : ℕ) → total (split_after s sep) ≡ length s
unfolding split_after
total-split_after [] sep = refl
total-split_after (c ∷ s) sep = elim (Bool-cases (c == sep)) [
  | inl y ↦ rw y (omega (arith, total-split_after s sep))
  | inr n ↦ rw n (omega (arith, total-split_after s sep, total-onto_first c (split_after s sep)))
]

split_after-newline :
    (c : ℕ) (s : Bytes)
    → (c == b'\n') ≡ true
    → split_after (c ∷ s) b'\n' ≡ (c ∷ []) ∷ split_after s b'\n'
unfolding split_after
split_after-newline c s h = rw h refl

split_after-other :
    (c : ℕ) (s : Bytes)
    → (c == b'\n') ≡ false
    → split_after (c ∷ s) b'\n' ≡ onto_first c (split_after s b'\n')
unfolding split_after
split_after-other c s h = rw h refl

-- A text that ends a line is split without regard to what stands behind it.
split_after-append :
    (c : ℕ) (s : Bytes)
    → lacks_newline (c ∷ s) ≡ false
    → (l : Bytes) × (ls : List Bytes) × ((g : Bytes)
        → split_after ((c ∷ s) ++ g) b'\n' ≡ (l ∷ ls) ++ split_after g b'\n')
unfolding lacks_newline
split_after-append c [] h = (c ∷ [], [], λ g. split_after-newline c g (ground arith))
split_after-append c (d ∷ s) h =
    let (l, ls, e) = split_after-append d s h in
    elim (Bool-cases (c == b'\n')) [
      | inl y ↦ (
        c ∷ [],
        l ∷ ls,
        λ g. split_after-newline c ((d ∷ s) ++ g) y ∙ ap (λ t. (c ∷ []) ∷ t) (e g),
      )
      | inr n ↦ (c ∷ l, ls, λ g. split_after-other c ((d ∷ s) ++ g) n ∙ ap (onto_first c) (e g))
    ]

-- A line without a line feed inside is split off whole.
split_after-line :
    (x g : Bytes)
    → contains x b'\n' ≡ false
    → split_after (x ++ b'\n' ∷ g) b'\n' ≡ (x ++ b'\n' ∷ []) ∷ split_after g b'\n'
unfolding contains
split_after-line [] g h = split_after-newline b'\n' g refl
split_after-line (c ∷ x) g h =
    split_after-other c (x ++ b'\n' ∷ g) (ground (arith, h))
    ∙ ap (onto_first c) (split_after-line x g (ground (arith, h)))

mark_lines-append :
    (m : Marks) (offset : ℕ) (xs ys : List Bytes)
    → mark_lines m offset (xs ++ ys)
      ≡ (mark_lines m offset xs >>= λ m'. mark_lines m' (offset + total xs) ys)
unfolding mark_lines
mark_lines-append m offset [] ys = ap (λ n. mark_lines m n ys) (omega arith)
mark_lines-append m offset (x ∷ xs) ys = at (mark_line m offset x) (λ m'.
    mark_lines-append m' (offset + length x) xs ys
    ∙ ap (λ n. mark_lines m' (offset + length x) xs >>= λ m2. mark_lines m2 n ys) (omega arith))
  where
    at :
        (r : Result HostsError Marks)
        → ((m' : Marks)
            → mark_lines m' (offset + length x) (xs ++ ys) ≡ (
                mark_lines m' (offset + length x) xs >>= λ m2.
                mark_lines m2 (offset + (length x + total xs)) ys))
        → (r >>= λ m'. mark_lines m' (offset + length x) (xs ++ ys)) ≡ (
            r >>= (λ m'. mark_lines m' (offset + length x) xs) >>= λ m2.
            mark_lines m2 (offset + (length x + total xs)) ys)
    at (err e) f = refl
    at (ok m') f = f m'

-- `block`'s loop over the lines of a text
abbrev pub marked : Marks → ℕ → Bytes → Result HostsError Marks
marked m offset s = mark_lines m offset (split_after s b'\n')

pub marked-line :
    (m : Marks) (offset : ℕ) (x g : Bytes)
    → contains x b'\n' ≡ false
    → marked m offset (x ++ b'\n' ∷ g) ≡ (
        mark_line m offset (x ++ b'\n' ∷ []) >>= λ m'.
        marked m' (offset + length (x ++ b'\n' ∷ [])) g)
unfolding mark_lines
marked-line m offset x g h = ap (mark_lines m offset) (split_after-line x g h)

-- the empty line at the end is no marker
pub marked-end : (m : Marks) (offset : ℕ) → marked m offset [] ≡ ok m
unfolding mark_lines split_after mark_line trim_space is_marker has_prefix
marked-end m offset = refl

-- A line that is not a marker changes nothing.
pub mark_line-quiet :
    (m : Marks) (offset : ℕ) (l : Bytes)
    → is_marker (trim_space l) ≡ false
    → mark_line m offset l ≡ ok m
unfolding mark_line
mark_line-quiet m offset l h = rw h refl

total-append : (xs ys : List Bytes) → total (xs ++ ys) ≡ total xs + total ys
total-append [] ys = omega arith
total-append (x ∷ xs) ys = omega (arith, total-append xs ys)

bounds-none : (m : Marks) → bounds m ≡ ok none → m ≡ unmarked
bounds-none m h = at m.first m.last h
  where
    at :
        (s e : Option ℕ)
        → bounds (record { first = s; last = e }) ≡ ok none
        → ◌≡◌ {A = Marks} (record { first = s; last = e }) unmarked
    at none none k = refl
    at (some s) (some e) k = cc
    at none (some e) k = cc
    at (some s) none k = cc

-- the loop over whole lines that hold no block
lines-quiet :
    (c : ℕ) (s l : Bytes) (ls : List Bytes)
    → block (c ∷ s) ≡ ok none
    → split_after ((c ∷ s) ++ []) b'\n' ≡ (l ∷ ls) ++ split_after [] b'\n'
    → (mark_lines unmarked 0 (l ∷ ls) ≡ ok unmarked) × (total (l ∷ ls) ≡ length (c ∷ s))
unfolding block
lines-quiet c s l ls h e =
    let e' : split_after (c ∷ s) b'\n' ≡ (l ∷ ls) ++ split_after [] b'\n' =
      ap (λ t. split_after t b'\n') (sym (append-nil (c ∷ s))) ∙ e in
    let (m, p, q) = bind-eq-ok (marked unmarked 0 (c ∷ s)) bounds h in
    let (m1, p1, q1) =
      bind-eq-ok (mark_lines unmarked 0 (l ∷ ls)) (λ m'. marked m' (0 + total (l ∷ ls)) [])
        (sym (
            ap (mark_lines unmarked 0) e'
            ∙ mark_lines-append unmarked 0 (l ∷ ls) (split_after [] b'\n'))
          ∙ p) in
    let same : m1 ≡ unmarked =
      (let f : ◌≡◌ {A = Result HostsError Marks} (ok m1) (ok m) =
          sym (marked-end m1 (0 + total (l ∷ ls))) ∙ q1 in
        let g : m1 ≡ m = cc in g ∙ bounds-none m q) in
    (
      p1 ∙ ap ok same,
      counted (total-split_after (c ∷ s) b'\n')
          (ap total e' ∙ total-append (l ∷ ls) (split_after [] b'\n')) (total-split_after [] b'\n'),
    )
  where
    counted : {a b n t : ℕ} → t ≡ n → t ≡ a + b → b ≡ 0 → a ≡ n
    counted x y z = omega (arith, x, y, z)

-- What stands behind a text of whole lines with no block is marked from its end on.
pub marked-behind :
    (b g : Bytes)
    → block b ≡ ok none
    → lacks_newline b ≡ false
    → marked unmarked 0 (b ++ g) ≡ marked unmarked (length b) g
marked-behind [] g h k = refl
marked-behind (c ∷ s) g h k =
    let (l, ls, e) = split_after-append c s k in
    let (p, q) = lines-quiet c s l ls h (e []) in
    ap (mark_lines unmarked 0) (e g)
    ∙ mark_lines-append unmarked 0 (l ∷ ls) (split_after g b'\n')
    ∙ ap (λ r. r >>= λ m'. marked m' (0 + total (l ∷ ls)) g) p
    ∙ ap (λ n. marked unmarked n g) (omega (arith, q))
