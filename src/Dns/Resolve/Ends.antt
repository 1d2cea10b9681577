-- ===== src/Dns/Resolve/Ends.antt =====
-- internal/dns/resolver.go: how `resolve` ends: its loops end, and a chain of aliases with no address.
use utlsproxy.Common.{beq_refl, ap, ◌∙◌, list_beq}
use utlsproxy.Common.{
  ℕ, suc, zero, ◌+◌, ◌≤◌, ◌^◌, ◌-◌, Bool, true, false, List, [], ◌∷◌, none, some, ◌≡◌, ◌≢◌, refl,
  arith, Bool-cases, inl, inr, length, ◌==◌, nat_eq, list_eq, not, if◌then◌else◌, ◌&&◌, ◌||◌, any,
  contains, ltb, subst,
}
use utlsproxy.Common.Outcome.{Result, ok, err, ◌>>=◌, ◌>>◌, ensure}
use utlsproxy.Common.Text.{Bytes, to_lower}
use utlsproxy.Dns.Resolve.{after_walk, after_ask, turn}
use utlsproxy.Dns.Resolve.{
  Rr, Rdata, a, cname, other, Msg, Net, ResolveError, Scan, Walk, found, failed, again, is_owned,
  scan_rdata, scan_rr, scan, equal_fold, step_walk, walk, ask, resolve_from, resolve, out_of_fuel,
  cname_cycle, reached, resent, udp4, malformed_response, tcp4, nxdomain, server_error,
}
use utlsproxy.Netip.{Addr}

-- an error that the source can return
abbrev IsReal : ResolveError → Type 0
IsReal out_of_fuel = ⊥
IsReal _ = Unit

abbrev Ends : {A : Type 0} → Result ResolveError A → Type 0
Ends (ok x) = Unit
Ends (err e) = IsReal e

abbrev WalkEnds : Walk → Type 0
WalkEnds (failed e) = IsReal e
WalkEnds _ = Unit

bind-Ends :
    {A B : Type 0} (m : Result ResolveError A) (f : A → Result ResolveError B)
    → Ends m
    → ((x : A) → Ends (f x))
    → Ends (m >>= f)
bind-Ends (ok x) f h k = k x
bind-Ends (err e) f h k = h

then-Ends :
    {B : Type 0} (test : Bool) (e : ResolveError) (m : Result ResolveError B)
    → IsReal e
    → Ends m
    → Ends (ensure test e >> m)
then-Ends true e m r h = h
then-Ends false e m r h = r

scan_rdata-Ends : (ttl : ℕ) (d : Rdata) (s : Scan) → Ends (scan_rdata ttl d s)
unfolding scan_rdata
scan_rdata-Ends ttl (a none) s = tt
scan_rdata-Ends ttl (a (some ip)) s = tt
scan_rdata-Ends ttl (cname target) s =
    elim (Bool-cases (not (s.next == []) && not (s.next == to_lower target))) [
      | inl y ↦ rw y tt
      | inr n ↦ rw n tt
    ]
scan_rdata-Ends ttl other s = tt

scan_rr-Ends : (owner : Bytes) (rr : Rr) (s : Scan) → Ends (scan_rr owner rr s)
unfolding scan_rr
scan_rr-Ends owner rr s = elim (Bool-cases (is_owned owner rr)) [
  | inl y ↦ rw y (scan_rdata-Ends rr.ttl rr.rdata s)
  | inr n ↦ rw n tt
]

scan-Ends : (owner : Bytes) (rrs : List Rr) (s : Scan) → Ends (scan owner rrs s)
unfolding scan
scan-Ends owner [] s = tt
scan-Ends owner (rr ∷ rrs) s =
    bind-Ends (scan_rr owner rr s) _ (scan_rr-Ends owner rr s) (λ s'. scan-Ends owner rrs s')

step_walk-WalkEnds :
    (name owner : Bytes) (answer : List Rr) (seen : List Bytes) (s : Scan) (rest : Walk)
    → (length seen ≤ 8 → WalkEnds rest)
    → WalkEnds (step_walk name owner answer seen s rest)
unfolding step_walk
step_walk-WalkEnds name owner answer seen s rest h = elim (Bool-cases (length s.ips == 0)) [
  | inl none_ ↦ elim (Bool-cases (s.next == [])) [
    | inl end ↦ elim (Bool-cases (owner == name)) [
      | inl same ↦ rw (none_, end, same) tt
      | inr other_ ↦ rw (none_, end, other_) tt
    ]
    | inr more ↦ elim (Bool-cases (contains seen s.next || ltb 8 (length seen))) [
      | inl full ↦ rw (none_, more, full) tt
      | inr room ↦ elim (Bool-cases (any (λ (rr : Rr). equal_fold rr.name s.next) answer)) [
        | inl here_ ↦ rw (none_, more, room, here_) (h (ground (arith, room)))
        | inr away ↦ rw (none_, more, room, away) tt
      ]
    ]
  ]
  | inr some_ ↦ elim (Bool-cases (s.next == [])) [
    | inl end ↦ rw (some_, end) tt
    | inr more ↦ rw (some_, more) tt
  ]
]

turn-WalkEnds :
    (name owner : Bytes) (answer : List Rr) (seen : List Bytes) (rest : Scan → Walk)
    (r : Result ResolveError Scan)
    → Ends r
    → ((s : Scan) → length seen ≤ 8 → WalkEnds (rest s))
    → WalkEnds (elim r [ err e ↦ failed e | ok s ↦ step_walk name owner answer seen s (rest s) ])
turn-WalkEnds name owner answer seen rest (err e) h go = h
turn-WalkEnds name owner answer seen rest (ok s) h go =
    step_walk-WalkEnds name owner answer seen s (rest s) (go s)

walk-WalkEnds :
    (fuel : ℕ) (name owner : Bytes) (answer : List Rr) (seen : List Bytes) (ttl : ℕ)
    → 1 ≤ fuel
    → 10 ≤ fuel + length seen
    → WalkEnds (walk fuel name owner answer seen ttl)
unfolding walk
walk-WalkEnds zero name owner answer seen ttl h k = absurd (omega (arith, h))
walk-WalkEnds (suc fuel) name owner answer seen ttl h k =
    turn-WalkEnds name owner answer seen _ _ (scan-Ends owner answer _) (λ s room.
      walk-WalkEnds fuel name s.next answer (s.next ∷ seen) s.ttl (omega (arith, k, room))
        (omega (arith, k, room)))

contains-head : (x : Bytes) (xs : List Bytes) → contains (x ∷ xs) x ≡ true
unfolding contains
contains-head x xs = rw (beq_refl x) refl

walk_turn :
    (fuel : ℕ) (name owner : Bytes) (answer : List Rr) (seen : List Bytes) (ttl : ℕ) (s : Scan)
    → scan owner answer (record { ips = []; next = []; ttl = ttl }) ≡ ok s
    → walk (suc fuel) name owner answer seen ttl
      ≡ step_walk name owner answer seen s (walk fuel name s.next answer (s.next ∷ seen) s.ttl)
unfolding walk
walk_turn fuel name owner answer seen ttl s h =
    ap
      (λ (r : Result ResolveError Scan). elim r [
        | err e ↦ failed e
        | ok s ↦
            step_walk name owner answer seen s (walk fuel name s.next answer (s.next ∷ seen) s.ttl)
      ])
      h

-- an alias to a name that the answer has records of
alias_turn :
    (name target : Bytes) (answer : List Rr) (t : ℕ) (rest : Walk)
    → (target == []) ≡ false
    → (name == target) ≡ false
    → any (λ (rr : Rr). equal_fold rr.name target) answer ≡ true
    → step_walk name name answer (name ∷ []) (record { ips = []; next = target; ttl = t }) rest
      ≡ rest
unfolding step_walk contains
alias_turn name target answer t rest some_ apart known = rw (some_, apart, known) refl

-- a name other than the queried one with neither an address nor an alias
bare_turn :
    (name target : Bytes) (answer : List Rr) (seen : List Bytes) (t : ℕ) (rest : Walk)
    → (target == name) ≡ false
    → step_walk name target answer seen (record { ips = []; next = []; ttl = t }) rest
      ≡ again target seen t
unfolding step_walk list_beq
bare_turn name target answer seen t rest apart = rw apart refl

walk_dead_end :
    (name target : Bytes) (answer : List Rr) (t t' : ℕ)
    → scan name answer (record { ips = []; next = []; ttl = 2 ^ 32 - 1 })
      ≡ ok (record { ips = []; next = target; ttl = t })
    → (target == []) ≡ false
    → (name == target) ≡ false
    → (target == name) ≡ false
    → any (λ (rr : Rr). equal_fold rr.name target) answer ≡ true
    → scan target answer (record { ips = []; next = []; ttl = t })
      ≡ ok (record { ips = []; next = []; ttl = t' })
    → walk 10 name name answer (name ∷ []) (2 ^ 32 - 1) ≡ again target (target ∷ name ∷ []) t'
walk_dead_end name target answer t t' first some_ apart apart' known second =
    walk_turn 9 name name answer (name ∷ []) (2 ^ 32 - 1) _ first
    ∙ alias_turn name target answer t _ some_ apart known
    ∙ walk_turn 8 name target answer (target ∷ name ∷ []) t _ second
    ∙ bare_turn name target answer (target ∷ name ∷ []) t' _ apart'

module _ (exchange : Net → ℕ → Bytes → Result Bytes Msg) (new_id : Bytes → ℕ) where
  reached-Ends : (r : Result Bytes Msg) → Ends (reached r)
  unfolding reached
  reached-Ends (ok m) = tt
  reached-Ends (err e) = tt

  resent-Ends : (r : Result Bytes Msg) → Ends (resent r)
  unfolding resent
  resent-Ends (ok m) = tt
  resent-Ends (err e) = tt

  retried-Ends :
      (again_ : Bool) (r : Result Bytes Msg) (m : Msg)
      → Ends {A = Msg} (if again_ then resent r else ok m)
  retried-Ends true r m = resent-Ends r
  retried-Ends false r m = tt

  checked-Ends :
      (reply known fine : Bool) (name : Bytes) (m : Msg)
      → Ends {A = Msg} (
          ensure reply malformed_response
          >> (ensure known (nxdomain name) >> (ensure fine (server_error m.rcode) >> ok m)))
  checked-Ends reply known fine name m = then-Ends {B = Msg} reply malformed_response _ tt (
      then-Ends {B = Msg} known (nxdomain name) _ tt
        (then-Ends {B = Msg} fine (server_error m.rcode) (ok m) tt tt))

  ask-Ends : (name : Bytes) → Ends (ask exchange new_id name)
  unfolding ask
  ask-Ends name =
      bind-Ends (reached (exchange udp4 (new_id name) name)) _ (reached-Ends _) (λ first.
        bind-Ends (if first.truncated then resent (exchange tcp4 (new_id name) name) else ok first)
          _ (retried-Ends first.truncated _ first) (λ m. checked-Ends _ _ _ name m))

  ended-Ends :
      (w : Walk) (rest : Bytes → List Bytes → ℕ → Result ResolveError (List Addr × ℕ))
      → WalkEnds w
      → ((next : Bytes) (seen : List Bytes) (t : ℕ) → Ends (rest next seen t))
      → Ends {A = List Addr × ℕ} (after_walk w rest)
  ended-Ends (found ips t) rest h go = tt
  ended-Ends (failed e) rest h go = h
  ended-Ends (again next seen t) rest h go = go next seen t

  turn-Ends :
      (b : Bool) (name : Bytes) (seen : List Bytes) (ttl : ℕ) (r : Result ResolveError Msg)
      (rest : Bytes → List Bytes → ℕ → Result ResolveError (List Addr × ℕ))
      → Ends r
      → ((next : Bytes) (seen : List Bytes) (t : ℕ) → Ends (rest next seen t))
      → Ends {A = List Addr × ℕ} (turn b r (λ m. walk 10 name name m.answer (name ∷ seen) ttl) rest)
  turn-Ends true name seen ttl r rest h go = tt
  turn-Ends false name seen ttl (err e) rest h go = h
  turn-Ends false name seen ttl (ok m) rest h go =
      ended-Ends _ rest
        (walk-WalkEnds 10 name name m.answer (name ∷ seen) ttl (omega arith) (omega arith)) go

  resolve_from-Ends :
      (hops : ℕ) (name : Bytes) (seen : List Bytes) (ttl : ℕ)
      → Ends (resolve_from exchange new_id hops name seen ttl)
  unfolding resolve_from
  resolve_from-Ends zero name seen ttl = tt
  resolve_from-Ends (suc hops) name seen ttl =
      turn-Ends (contains seen name) name seen ttl _ _ (ask-Ends name)
        (λ next seen' t. resolve_from-Ends hops next seen' t)

  -- `resolve` ends: ten turns of its inner loop in each of the nine turns of its outer loop are
  -- enough for every server and name.
  pub resolve-ends : (name : Bytes) → resolve exchange new_id name ≢ err out_of_fuel
  unfolding resolve
  resolve-ends name h = subst Ends h (resolve_from-Ends 9 name [] (2 ^ 32 - 1))

  resolve_turn :
      (hops : ℕ) (name next : Bytes) (seen seen' : List Bytes) (ttl t : ℕ) (m : Msg)
      → contains seen name ≡ false
      → ask exchange new_id name ≡ ok m
      → walk 10 name name m.answer (name ∷ seen) ttl ≡ again next seen' t
      → resolve_from exchange new_id (suc hops) name seen ttl
        ≡ resolve_from exchange new_id hops next seen' t
  unfolding resolve_from
  resolve_turn hops name next seen seen' ttl t m fresh asked walked =
      let walks : Msg → Walk = λ m'. walk 10 name name m'.answer (name ∷ seen) ttl in
      let go = resolve_from exchange new_id hops in
      ap (λ b. turn b (ask exchange new_id name) walks go) fresh
      ∙ ap (λ r. after_ask r walks go) asked
      ∙ ap (λ w. after_walk w go) walked

  repeated :
      (hops : ℕ) (name : Bytes) (seen : List Bytes) (ttl : ℕ)
      → contains seen name ≡ true
      → resolve_from exchange new_id (suc hops) name seen ttl ≡ err cname_cycle
  unfolding resolve_from
  repeated hops name seen ttl h =
      ap
        (λ b.
          turn b (ask exchange new_id name) (λ m. walk 10 name name m.answer (name ∷ seen) ttl)
            (resolve_from exchange new_id hops))
        h

  -- Where an answer has an alias of the name but no address, and records of the alias's target, a
  -- different name, that are neither addresses nor aliases, the target is never queried: `resolve`
  -- reports a cycle.
  pub resolve-dead_end :
      (name target : Bytes) (m : Msg) (t t' : ℕ)
      → ask exchange new_id name ≡ ok m
      → scan name m.answer (record { ips = []; next = []; ttl = 2 ^ 32 - 1 })
        ≡ ok (record { ips = []; next = target; ttl = t })
      → (target == []) ≡ false
      → (name == target) ≡ false
      → (target == name) ≡ false
      → any (λ (rr : Rr). equal_fold rr.name target) m.answer ≡ true
      → scan target m.answer (record { ips = []; next = []; ttl = t })
        ≡ ok (record { ips = []; next = []; ttl = t' })
      → resolve exchange new_id name ≡ err cname_cycle
  unfolding resolve resolve_from walk step_walk contains
  resolve-dead_end name target m t t' asked first some_ apart apart' known second =
      resolve_turn 8 name target [] (target ∷ name ∷ []) (2 ^ 32 - 1) t' m refl asked
        (walk_dead_end name target m.answer t t' first some_ apart apart' known second)
      ∙ repeated 7 target (target ∷ name ∷ []) t' (contains-head target (name ∷ []))
