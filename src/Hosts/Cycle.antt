-- ===== src/Hosts/Cycle.antt =====
-- internal/hosts/hosts.go: installing the block, again, and removing it.
use utlsproxy.Common.{
  ℕ, ◌+◌, Bool, true, false, ◌&&◌, not, List, [], ◌∷◌, ◌++◌, Option, none, some, if◌then◌else◌,
  ◌==◌, nat_eq, list_eq, length, take, drop, ◌≡◌, refl, sym, ap, ◌∙◌, arith, length-append,
  append_assoc, append-nil, contains, All, subst, ltb, beq_refl, list_beq,
}
use utlsproxy.Common.Outcome.{Result, ok, err, ◌>>=◌}
use utlsproxy.Common.Text.{Bytes, has_prefix, trim_space, is_space, split}
use utlsproxy.Common.Text.Laws.{trim_space-first}
use utlsproxy.Hosts.{
  HostsError, Marks, unmarked, mark_line, bounds, block, is_marker, entry, entries, generated,
  begin, end, mark, lacks_newline, terminated, installed, plan, proposed, remaining, prepare, Plan,
  conflicts,
}
use utlsproxy.Hosts.Block.{marked, marked-line, marked-end, mark_line-quiet, marked-behind}

contains-append :
    (x y : Bytes) (v : ℕ)
    → contains x v ≡ false
    → contains y v ≡ false
    → contains (x ++ y) v ≡ false
unfolding contains
contains-append [] y v h k = k
contains-append (c ∷ x) y v h k = ground (arith, contains-append x y v, h, k)

abbrev opened : ℕ → Marks
opened n = record { first = some n; last = none }

abbrev pub OneLine : Bytes → Type 0
OneLine d = contains d b'\n' ≡ false

space-OneLine : OneLine (b' ' ∷ [])
unfolding contains
space-OneLine = refl

mark_line-begin : (n : ℕ) → mark_line unmarked n (begin ++ b'\n' ∷ []) ≡ ok (opened n)
unfolding mark_line mark is_marker trim_space has_prefix list_beq begin end
mark_line-begin n = refl

mark_line-end :
    (n k : ℕ)
    → mark_line (opened n) k (end ++ b'\n' ∷ [])
      ≡ ok (record { first = some n; last = some (k + length (end ++ b'\n' ∷ [])) })
unfolding mark_line mark is_marker trim_space has_prefix list_beq begin end
mark_line-end n k = refl

-- An address in one line that is no comment.
pub record IsPlain (address : Bytes) : Type 0 where
  pub head : ℕ
  pub tail : Bytes
  pub parts : address ≡ head ∷ tail
  pub visible : is_space head ≡ false
  pub entry : (head == b'#') ≡ false
  pub one_line : contains address b'\n' ≡ false

not_marker : (a : ℕ) (t : Bytes) → (a == b'#') ≡ false → is_marker (a ∷ t) ≡ false
unfolding is_marker has_prefix
not_marker a t h = rw h refl

entry-quiet :
    (address d : Bytes) → IsPlain address → is_marker (trim_space (entry address d)) ≡ false
entry-quiet address d h =
    subst (λ x. is_marker (trim_space (entry x d)) ≡ false) (sym h.parts)
      (let (t, e) = trim_space-first h.head ((h.tail ++ b' ' ∷ d) ++ b'\n' ∷ []) h.visible in
        ap is_marker e ∙ not_marker h.head t h.entry)

marked-entries :
    (m : Marks) (n : ℕ) (address : Bytes) (ds : List Bytes) (g : Bytes)
    → IsPlain address
    → All OneLine ds
    → marked m n (entries address ds ++ g) ≡ marked m (n + length (entries address ds)) g
unfolding entries
marked-entries m n address [] g p h = ap (λ k. marked m k g) (omega arith)
marked-entries m n address (d ∷ ds) g p (h, hs) =
    let x : Bytes = address ++ b' ' ∷ d in
    ap (marked m n) (
      append_assoc (x ++ b'\n' ∷ []) (entries address ds) g
      ∙ append_assoc x (b'\n' ∷ []) (entries address ds ++ g))
    ∙ marked-line m n x (entries address ds ++ g) (
        contains-append address (b' ' ∷ d) b'\n' p.one_line
          (contains-append (b' ' ∷ []) d b'\n' space-OneLine h))
    ∙ ap (λ r. r >>= λ m'. marked m' (n + length (entry address d)) (entries address ds ++ g))
        (mark_line-quiet m n (entry address d) (entry-quiet address d p))
    ∙ marked-entries m (n + length (entry address d)) address ds g p hs
    ∙ ap (λ k. marked m k g) (omega (arith, length-append (entry address d) (entries address ds)))

begin-OneLine : OneLine begin
unfolding begin contains
begin-OneLine = refl

end-OneLine : OneLine end
unfolding end contains
end-OneLine = refl

marked-generated :
    (n : ℕ) (address : Bytes) (ds : List Bytes)
    → IsPlain address
    → All OneLine ds
    → marked unmarked n (generated address ds)
      ≡ ok (record { first = some n; last = some (n + length (generated address ds)) })
unfolding generated
marked-generated n address ds p h =
    let es : Bytes = entries address ds in
    let tail : Bytes = end ++ b'\n' ∷ [] in
    let lb : ℕ = length (begin ++ b'\n' ∷ []) in
    marked-line unmarked n begin (es ++ tail) begin-OneLine
    ∙ ap (λ r. r >>= λ m'. marked m' (n + lb) (es ++ tail)) (mark_line-begin n)
    ∙ marked-entries (opened n) (n + lb) address ds tail p h
    ∙ marked-line (opened n) (n + lb + length es) end [] end-OneLine
    ∙ ap (λ r. r >>= λ m'. marked m' (n + lb + length es + length tail) [])
        (mark_line-end n (n + lb + length es))
    ∙ marked-end (record { first = some n; last = some (n + lb + length es + length tail) })
        (n + lb + length es + length tail)
    ∙ ap (λ k. ok (record { first = some n; last = some k }))
        (omega (
          arith,
          length-append begin (b'\n' ∷ []),
          length-append begin (b'\n' ∷ (es ++ tail)),
          length-append es tail,
        ))

-- The file with the block behind it has the block there.
block-installed :
    (b address : Bytes) (ds : List Bytes)
    → block b ≡ ok none
    → lacks_newline b ≡ false
    → IsPlain address
    → All OneLine ds
    → block (b ++ generated address ds) ≡ ok (some (length b, length (b ++ generated address ds)))
unfolding block
block-installed b address ds h k p o =
    let g : Bytes = generated address ds in
    ap (λ r. r >>= bounds) (marked-behind b g h k ∙ marked-generated (length b) address ds p o)
    ∙ ap (λ n. ok (some (length b, n))) (sym (length-append b g))

take-append : (b g : Bytes) → take (length b) (b ++ g) ≡ b
take-append [] g = refl
take-append (c ∷ b) g = ap (λ t. c ∷ t) (take-append b g)

drop-all : (b : Bytes) → drop (length b) b ≡ []
drop-all [] = refl
drop-all (c ∷ b) = drop-all b

terminated-same : (b : Bytes) → lacks_newline b ≡ false → terminated b ≡ b
unfolding terminated
terminated-same b h = rw h refl

guard-ok :
    {E A : Type 0} (c : Bool) (e : E) (r : Result E A) (a : A)
    → (if c then err e else r) ≡ ok a
    → (c ≡ false) × (r ≡ ok a)
guard-ok true e r a h = cc
guard-ok false e r a h = (refl, h)

guarded :
    {E A : Type 0} (c : Bool) (e : E) (r : Result E A) → c ≡ false → (if c then err e else r) ≡ r
guarded c e r h = rw h refl

abbrev pub IsSmall : Bytes → Type 0
IsSmall b = ltb 4194304 (length b) ≡ false

-- no entry outside the block clashes with the domains
abbrev Clear : Bytes → List Bytes → Type 0
Clear b ds = (conflicts ds (split b b'\n') == []) ≡ true

prepare-ok :
    (path b : Bytes) (ds : List Bytes) (address : Bytes) (remove : Bool) (found : Option (ℕ × ℕ))
    → IsSmall b
    → block b ≡ ok found
    → (not remove && not (conflicts ds (split (remaining b found) b'\n') == [])) ≡ false
    → prepare path b ds address remove ≡ ok (proposed path b ds address remove found)
unfolding prepare plan
prepare-ok path b ds address remove found s f h =
    guarded (ltb 4194304 (length b)) _ _ s
    ∙ ap (λ r. r >>= plan path b ds address remove) f
    ∙ guarded _ _ _ h

module _ (path b address : Bytes) (ds : List Bytes) (empty : block b ≡ ok none)
    (ends : lacks_newline b ≡ false) where
  abbrev whole : Bytes
  whole = b ++ generated address ds

  abbrev place : Option (ℕ × ℕ)
  place = some (length b, length whole)

  -- what an installation into a file without a block has written
  planned :
      (p : Plan) → prepare path b ds address false ≡ ok p → (p.after ≡ whole) × Clear (b ++ []) ds
  unfolding prepare plan
  planned p e =
      let (small, e1) = guard-ok (ltb 4194304 (length b)) _ _ p e in
      let (clear, e2) =
        guard-ok (not ((proposed path b ds address false none).conflicts == [])) _
          (ok (proposed path b ds address false none)) p
          (ap (λ r. r >>= plan path b ds address false) (sym empty) ∙ e1) in
      (
        sym (ap after_of e2) ∙ ap (λ t. t ++ generated address ds) (terminated-same b ends),
        ground (arith, clear),
      )
    where
      after_of : Result HostsError Plan → Bytes
      after_of (err e) = []
      after_of (ok q) = q.after

  remaining-whole : remaining whole place ≡ b ++ []
  remaining-whole = λ i. take-append b (generated address ds) i ++ drop-all whole i

  -- Installing the block in a file of whole lines that has none, and then removing it, gives the file
  -- back byte by byte; installing it again changes nothing. The address is one visible word and the
  -- domains stand in one line each, as in an accepted configuration, and the file with the block is
  -- within 4 MiB.
  pub prepare-cycle :
      (p : Plan)
      → IsPlain address
      → All OneLine ds
      → prepare path b ds address false ≡ ok p
      → IsSmall p.after
      → ((others : List Bytes) (other : Bytes)
          → (q : Plan) × (prepare path p.after others other true ≡ ok q) × (q.after ≡ b))
        × ((q : Plan) × (prepare path p.after ds address false ≡ ok q)
            × (q.changed ≡ false)
            × (q.after ≡ p.after))
  prepare-cycle p plain lines e small =
      let (w, clear) = planned p e in
      subst Cycle (sym w) (
        λ others other. (
          proposed path whole others other true place,
          prepare-ok path whole others other true place (subst IsSmall w small)
              (block-installed b address ds empty ends plain lines) refl,
          remaining-whole ∙ append-nil b,
        ),
        (
          proposed path whole ds address false place,
          prepare-ok path whole ds address false place (subst IsSmall w small)
              (block-installed b address ds empty ends plain lines) (still_clear clear),
          ap (λ t. not (whole == t)) same ∙ ap not (beq_refl whole),
          same,
        ),
      )
    where
      Cycle : Bytes → Type 0
      Cycle x =
          ((others : List Bytes) (other : Bytes)
            → (q : Plan) × (prepare path x others other true ≡ ok q) × (q.after ≡ b))
          × ((q : Plan) × (prepare path x ds address false ≡ ok q)
              × (q.changed ≡ false)
              × (q.after ≡ x))

      same : installed whole place (generated address ds) ≡ whole
      same =
          (λ i.
            (take-append b (generated address ds) i ++ generated address ds) ++ drop-all whole i)
          ∙ append-nil whole

      still_clear :
          Clear (b ++ []) ds
          → (not false && not (conflicts ds (split (remaining whole place) b'\n') == [])) ≡ false
      still_clear c = ap (λ t. not (conflicts ds (split t b'\n') == [])) remaining-whole ∙ ap not c
