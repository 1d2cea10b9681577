-- ===== src/Proxy/Server/Invariant.antt =====
-- What holds of the server's state however accepted connections, their ends, reloads and the shutdown
-- interleave.
use utlsproxy.Proxy.Server.Steps.{
  most, IsBounded, kinds, IsKind, IsNumbered, IsConsistent, Step, Reach, accepts, begins,
  learns_sni, learns_upstream, relays, sends, receives, forgets, counts_error, reloads, resolves,
  stops, cuts_off, here, next,
}
use utlsproxy.Common.{if◌then◌else◌, subst, sym}
use utlsproxy.Common.Outcome.{bind-eq-ok, err}
use utlsproxy.Config.{restart_required}
use utlsproxy.Dns.Resolver.{configure, Resolver}
use utlsproxy.Proxy.Server.{new, restart_needed}
use utlsproxy.Common.{ap, list_beq, ◌∙◌, ◌&&◌, ◌||◌}
use utlsproxy.Common.Text.{contains_text, trim_suffix}
use utlsproxy.Common.Map.{length-insert_present}
use utlsproxy.Proxy.Category.{first_marker, markers}
use utlsproxy.Proxy.Server.{add64}
use utlsproxy.Common.{
  ℕ, suc, ◌+◌, ◌<◌, ◌^◌, Bool, true, false, List, [], ◌∷◌, String, Option, some, none, ◌≡◌, refl,
  All, arith, length, contains, list_eq, nat_eq, Bool-cases, inl, inr,
}
use utlsproxy.Common.Map.{
  Map, DistinctKeys, lookup, insert-DistinctKeys, erase-DistinctKeys, All-insert, All-erase,
  All-lookup, length-insert-le, length-erase-le,
}
use utlsproxy.Common.Best.{All-map}
use utlsproxy.Common.Text.{Bytes, codes}
use utlsproxy.Common.Outcome.{Result, ok}
use utlsproxy.Config.{Config}
use utlsproxy.Dns.Resolver.{Found}
use utlsproxy.Proxy.Category.{Error, category}
use utlsproxy.Proxy.Server.{
  Server, Snapshot, Active, failure, count_failure, is_full, is_denied, accept, fresh_connection,
  update, set_cancel, set_sni, set_upstream, set_relaying, count_sent, count_received, cut_off_all,
  cut_off, stop, force_stop, forget, count_error, ReloadError, reload,
}

first_marker-kind :
    (e : Error) (cs : List Bytes)
    → All (λ c. contains kinds (trim_suffix c (codes "_")) ≡ true) cs
    → contains kinds (first_marker e cs) ≡ true
unfolding first_marker contains list_beq
first_marker-kind e [] h = elim (Bool-cases e.is_timeout) [ inl y ↦ rw y | inr n ↦ rw n ]
first_marker-kind e (c ∷ cs) h = elim (Bool-cases (contains_text e.text c)) [
  | inl y ↦ rw y h.0
  | inr n ↦ rw n (first_marker-kind e cs h.1)
]

-- Whatever the error says, its category is one of the fixed kinds.
category-kind : (e : Error) → contains kinds (category e) ≡ true
unfolding category contains list_beq trim_suffix
category-kind e =
    first_marker-kind e markers (refl, (refl, (refl, (refl, (refl, (refl, (refl, (refl, tt))))))))

failure-IsConsistent :
    (kind : Bytes) (s : Server)
    → contains kinds kind ≡ true
    → IsConsistent s
    → IsConsistent (failure kind s)
unfolding failure
failure-IsConsistent kind s k h = record {
  distinct = h.distinct;
  numbered = h.numbered;
  counted = h.counted;
  fits = h.fits;
  limit = h.limit;
  failures = counted_kind (lookup kind s.failures);
}
  where
    counted_kind : (o : Option ℕ) → All IsKind (count_failure kind o s.failures)
    counted_kind none = All-insert IsKind kind 1 s.failures k h.failures
    counted_kind (some n) = All-insert IsKind kind _ s.failures k h.failures

room :
    (snap : Snapshot) (s : Server)
    → IsBounded snap
    → is_full snap s ≡ false
    → length s.connections < most
unfolding is_full
room snap s b h = ground arith

accept-IsConsistent :
    (parse_v6 : Bytes → Option ℕ) (snap : Snapshot) (client : Bytes) (started : ℕ) (s : Server)
    → IsBounded snap
    → s.next + 1 < 2 ^ 64
    → IsConsistent s
    → IsConsistent (accept parse_v6 snap client started s).0
unfolding accept fresh_connection contains list_beq
accept-IsConsistent parse_v6 snap client started s b small h =
    elim (Bool-cases (is_denied parse_v6 snap client)) [
      | inl y ↦ rw y (failure-IsConsistent (codes "client_denied") s refl h)
      | inr n ↦ elim (Bool-cases (is_full snap s)) [
        | inl full ↦ rw (n, full) (failure-IsConsistent (codes "connection_limit") s refl h)
        | inr free ↦
            rw (n, free)
              (record {
                distinct = insert-DistinctKeys _ _ s.connections h.distinct;
                numbered =
                    All-insert (IsNumbered _) _ _ s.connections (refl, omega arith, omega arith)
                      (All-map (IsNumbered s.next) _ (λ p q. (q.0, q.1, omega (arith, q.2)))
                        s.connections h.numbered);
                counted = omega (arith, h.counted);
                fits = omega (
                  arith,
                  room snap s b free,
                  length-insert-le (add64 s.next 1)
                      (fresh_connection (add64 s.next 1) client started snap) s.connections,
                );
                limit = h.limit;
                failures = h.failures;
              })
      ]
    ]

update-IsConsistent :
    (f : Active → Active) (id : ℕ) (s : Server)
    → ((a : Active) → (f a).record_.id ≡ a.record_.id)
    → IsConsistent s
    → IsConsistent (update f id (lookup id s.connections) s)
unfolding update
update-IsConsistent f id s same h = at (lookup id s.connections) refl
  where
    at : (o : Option Active) → lookup id s.connections ≡ o → IsConsistent (update f id o s)
    at none e = h
    at (some a) e =
        let p = All-lookup (IsNumbered s.next) id a s.connections h.numbered e in
        record {
          distinct = insert-DistinctKeys id (f a) s.connections h.distinct;
          numbered =
              All-insert (IsNumbered s.next) id (f a) s.connections (same a ∙ p.0, p.1, p.2)
                h.numbered;
          counted = h.counted;
          fits = omega (arith, h.fits, length-insert_present id a (f a) s.connections e);
          limit = h.limit;
          failures = h.failures;
        }

forget-IsConsistent :
    (id : ℕ) (o : Option Active) (s : Server) → IsConsistent s → IsConsistent (forget id o s)
unfolding forget
forget-IsConsistent id none s h = h
forget-IsConsistent id (some a) s h = record {
  distinct = erase-DistinctKeys id s.connections h.distinct;
  numbered = All-erase (IsNumbered s.next) id s.connections h.numbered;
  counted = h.counted;
  fits = omega (arith, h.fits, length-erase-le id s.connections);
  limit = h.limit;
  failures = h.failures;
}

count_error-IsConsistent :
    (stopping : Bool) (e : Option Error) (s : Server)
    → IsConsistent s
    → IsConsistent (count_error stopping e s)
unfolding count_error
count_error-IsConsistent stopping none s h = h
count_error-IsConsistent stopping (some e) s h =
    elim (Bool-cases (stopping && (e.is_closed || e.is_canceled))) [
      | inl y ↦ rw y h
      | inr n ↦ rw n (failure-IsConsistent (category e) s (category-kind e) h)
    ]

cut_off_all-IsNumbered :
    (n : ℕ) (m : Map ℕ Active) → All (IsNumbered n) m → All (IsNumbered n) (cut_off_all m)
unfolding cut_off_all cut_off
cut_off_all-IsNumbered n [] h = tt
cut_off_all-IsNumbered n ((id, a) ∷ m) h = (h.0, cut_off_all-IsNumbered n m h.1)

pub cut_off_all-none :
    (k : ℕ) (m : Map ℕ Active) → lookup k m ≡ none → lookup k (cut_off_all m) ≡ none
unfolding cut_off_all lookup
cut_off_all-none k [] h = refl
cut_off_all-none k ((id, a) ∷ m) h = ground (arith, cut_off_all-none k m)

cut_off_all-DistinctKeys : (m : Map ℕ Active) → DistinctKeys m → DistinctKeys (cut_off_all m)
unfolding cut_off_all
cut_off_all-DistinctKeys [] h = tt
cut_off_all-DistinctKeys ((id, a) ∷ m) h =
    (cut_off_all-none id m h.0, cut_off_all-DistinctKeys m h.1)

length-cut_off_all : (m : Map ℕ Active) → length (cut_off_all m) ≡ length m
unfolding cut_off_all
length-cut_off_all [] = refl
length-cut_off_all ((id, a) ∷ m) = ap suc (length-cut_off_all m)

server_of : Server → Result ReloadError Server → Server
server_of s (ok t) = t
server_of s (err _) = s

server_ok : (s t : Server) → ◌≡◌ {A = Result ReloadError Server} (ok s) (ok t) → s ≡ t
unfolding server_of
server_ok s t h = ap (server_of s) h

kept_settings :
    (old c : Config) (r : Result ReloadError ℕ) (a : ℕ)
    → (if restart_required old c then err restart_needed else r) ≡ ok a
    → (restart_required old c ≡ false) × (r ≡ ok a)
kept_settings old c r a h = ground arith

-- what a reload that succeeds makes of the server
pub reload-eq :
    (load : Result ReloadError Config) (ca_load : Config → Result ReloadError ℕ) (now : ℕ)
    (found : Found) (later : ℕ) (s t : Server)
    → reload load ca_load now found later s ≡ ok t
    → (c : Config) × (a : ℕ) × (load ≡ ok c)
      × (restart_required s.current.config c ≡ false)
      × (ca_load c ≡ ok a)
      × (record s {
        current = record { config = c; authority = a; generation = add64 s.current.generation 1 };
        resolver = configure c.dns now found later s.resolver;
        level = c.log.level;
      }
          ≡ t)
unfolding reload
reload-eq load ca_load now found later s t h =
    let (c, hc, h1) = bind-eq-ok load _ h in
    let (a, ha, h2) =
      bind-eq-ok (if restart_required s.current.config c then err restart_needed else ca_load c) _
        h1 in
    let (r, x) = kept_settings s.current.config c (ca_load c) a ha in
    (c, a, hc, r, x, server_ok _ t h2)

Step-IsConsistent :
    {parse_v6 : Bytes → Option ℕ} {s t : Server}
    → Step parse_v6 s t
    → IsConsistent s
    → IsConsistent t
unfolding set_cancel set_sni set_upstream set_relaying count_sent count_received stop force_stop
Step-IsConsistent (accepts s snap client started b small) h =
    accept-IsConsistent _ snap client started s b small h
Step-IsConsistent (begins s id) h = update-IsConsistent set_cancel id s (λ a. refl) h
Step-IsConsistent (learns_sni s id host) h = update-IsConsistent (set_sni host) id s (λ a. refl) h
Step-IsConsistent (learns_upstream s id ip mods version protocol) h =
    update-IsConsistent (set_upstream ip mods version protocol) id s (λ a. refl) h
Step-IsConsistent (relays s id version protocol) h =
    update-IsConsistent (set_relaying version protocol) id s (λ a. refl) h
Step-IsConsistent (sends s id n) h = update-IsConsistent (count_sent n) id s (λ a. ground arith) h
Step-IsConsistent (receives s id n) h =
    update-IsConsistent (count_received n) id s (λ a. ground arith) h
Step-IsConsistent (forgets s id) h = forget-IsConsistent id (lookup id s.connections) s h
Step-IsConsistent (counts_error s stopping e) h = count_error-IsConsistent stopping e s h
Step-IsConsistent (reloads s t load ca_load now found later e b) h =
    let (c, a, _, _, _, same) = reload-eq load ca_load now found later s t e in
    subst IsConsistent same (record {
      distinct = h.distinct;
      numbered = h.numbered;
      counted = h.counted;
      fits = h.fits;
      limit = subst (λ u. IsBounded u.current) (sym same) b;
      failures = h.failures;
    })
Step-IsConsistent (resolves s r) h = record {
  distinct = h.distinct;
  numbered = h.numbered;
  counted = h.counted;
  fits = h.fits;
  limit = h.limit;
  failures = h.failures;
}
Step-IsConsistent (stops s) h = record {
  distinct = h.distinct;
  numbered = h.numbered;
  counted = h.counted;
  fits = h.fits;
  limit = h.limit;
  failures = h.failures;
}
Step-IsConsistent (cuts_off s) h = record {
  distinct = cut_off_all-DistinctKeys s.connections h.distinct;
  numbered = cut_off_all-IsNumbered s.next s.connections h.numbered;
  counted = h.counted;
  fits = omega (arith, h.fits, length-cut_off_all s.connections);
  limit = h.limit;
  failures = h.failures;
}

-- However accepted connections, their progress and ends, reloads and the shutdown interleave after
-- the start, at most 65536 connections are open, each under a number of its own that has been given
-- out, the total counts the numbers given out, and the failure counters are of twelve kinds. The
-- configurations allow at most 65536 connections, as validated ones do, and the counter of
-- connections does not wrap.
pub Reach-IsConsistent :
    (parse_v6 : Bytes → Option ℕ) (c : Config) (authority : ℕ) (r : Resolver) (level : String)
    → IsBounded (new c authority r level).current
    → (s : Server) → Reach parse_v6 (new c authority r level) s
    → IsConsistent s
unfolding new
Reach-IsConsistent parse_v6 c authority r level b _ here = record {
  distinct = tt;
  numbered = tt;
  counted = refl;
  fits = omega arith;
  limit = b;
  failures = tt;
}
Reach-IsConsistent parse_v6 c authority r level b _ (next st x) =
    Step-IsConsistent x (Reach-IsConsistent parse_v6 c authority r level b _ st)
