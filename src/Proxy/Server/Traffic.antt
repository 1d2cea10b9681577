-- ===== src/Proxy/Server/Traffic.antt =====
-- The traffic that `Status` reports: the end of a connection moves its bytes and loses none.
use mathlib.Core.Option.{some-injective}
use utlsproxy.Common.{subst, nat_beq_iff}
use utlsproxy.Common.{
  ℕ, ◌+◌, ◌<◌, ◌%◌, ◌^◌, Bool, true, [], ◌∷◌, Option, some, none, ◌≡◌, refl, arith, nat_eq, ◌==◌,
  Bool-cases, inl, inr, sym, ◌∙◌, ap,
}
use utlsproxy.Common.Map.{Map, DistinctKeys, lookup, insert, erase, erase_absent}
use utlsproxy.Proxy.Category.{Error}
use utlsproxy.Proxy.Server.{
  Server, Active, add64, sum_sent, sum_received, status, finish, forget, count_error, failure,
  update, count_sent,
}

module _ (f : Active → ℕ) where
  sum_by : Map ℕ Active → ℕ
  sum_by [] = 0
  sum_by ((id, a) ∷ m) = f a + sum_by m

  first_entry :
      (id : ℕ) (a : Active) (j : ℕ) (b : Active) (m : Map ℕ Active)
      → DistinctKeys ((j, b) ∷ m)
      → (j == id) ≡ true
      → some b ≡ some a
      → f b + sum_by m ≡ f a + sum_by (erase id m)
  first_entry id a j b m d y h =
      let absent : lookup id m ≡ none =
        subst (λ k. lookup k m ≡ none) ((nat_beq_iff j id).0 y) d.0 in
      cc (ap sum_by (erase_absent id m absent), ap f (some-injective b a h))

  sum_by-erase :
      (id : ℕ) (a : Active) (m : Map ℕ Active)
      → DistinctKeys m
      → lookup id m ≡ some a
      → sum_by m ≡ f a + sum_by (erase id m)
  unfolding sum_by lookup erase
  sum_by-erase id a [] d h = cc
  sum_by-erase id a ((j, b) ∷ m) d h = elim (Bool-cases (j == id)) [
    | inl y ↦ rw y (first_entry id a j b m d y (rw y at h))
    | inr n ↦ rw n (omega (arith, sum_by-erase id a m d.1 (rw n at h)))
  ]

  sum_by-insert :
      (id : ℕ) (a b : Active) (m : Map ℕ Active)
      → DistinctKeys m
      → lookup id m ≡ some a
      → sum_by (insert id b m) + f a ≡ sum_by m + f b
  unfolding sum_by insert
  sum_by-insert id a b m d h = omega (arith, sum_by-erase id a m d h)

sum_sent-sum_by :
    (m : Map ℕ Active) (n : ℕ)
    → n < 2 ^ 64
    → sum_sent m n ≡ (n + sum_by (λ (a : Active). a.sent) m) % 2 ^ 64
unfolding sum_sent sum_by
sum_sent-sum_by [] n h = omega arith
sum_sent-sum_by ((id, a) ∷ m) n h = sum_sent-sum_by m (add64 n a.sent) (omega arith) ∙ omega arith

sum_received-sum_by :
    (m : Map ℕ Active) (n : ℕ)
    → n < 2 ^ 64
    → sum_received m n ≡ (n + sum_by (λ (a : Active). a.received) m) % 2 ^ 64
unfolding sum_received sum_by
sum_received-sum_by [] n h = omega arith
sum_received-sum_by ((id, a) ∷ m) n h =
    sum_received-sum_by m (add64 n a.received) (omega arith) ∙ omega arith

forget-traffic :
    (id : ℕ) (s : Server) (o : Option Active)
    → DistinctKeys s.connections
    → s.sent < 2 ^ 64
    → s.received < 2 ^ 64
    → lookup id s.connections ≡ o
    → ((status (forget id o s)).bytes_sent ≡ (status s).bytes_sent)
      × ((status (forget id o s)).bytes_received ≡ (status s).bytes_received)
unfolding status forget
forget-traffic id s none d h k e = (refl, refl)
forget-traffic id s (some a) d h k e = (
  sum_sent-sum_by (erase id s.connections) (add64 s.sent a.sent) (omega arith)
      ∙ omega (arith, sum_by-erase (λ (b : Active). b.sent) id a s.connections d e)
      ∙ sym (sum_sent-sum_by s.connections s.sent h),
  sum_received-sum_by (erase id s.connections) (add64 s.received a.received) (omega arith)
      ∙ omega (arith, sum_by-erase (λ (b : Active). b.received) id a s.connections d e)
      ∙ sym (sum_received-sum_by s.connections s.received k),
)

count_error-traffic :
    (stopping : Bool) (e : Option Error) (s : Server)
    → ((status (count_error stopping e s)).bytes_sent ≡ (status s).bytes_sent)
      × ((status (count_error stopping e s)).bytes_received ≡ (status s).bytes_received)
unfolding status count_error failure
count_error-traffic stopping none s = (refl, refl)
count_error-traffic stopping (some e) s = (ground arith, ground arith)

-- The end of a connection, with or without an error, changes neither of the byte counts that the
-- status reports. The counters are 64-bit values, and no two connections have one number.
pub finish-traffic :
    (id : ℕ) (e : Option Error) (s : Server)
    → DistinctKeys s.connections
    → s.sent < 2 ^ 64
    → s.received < 2 ^ 64
    → ((status (finish id e s)).bytes_sent ≡ (status s).bytes_sent)
      × ((status (finish id e s)).bytes_received ≡ (status s).bytes_received)
unfolding finish
finish-traffic id e s d h k =
    let (a, b) = count_error-traffic s.stopping e (forget id (lookup id s.connections) s) in
    let (x, y) = forget-traffic id s (lookup id s.connections) d h k refl in (a ∙ x, b ∙ y)

count_sent_counts :
    (n : ℕ) (a : Active)
    → ((count_sent n a).sent % 2 ^ 64 ≡ (a.sent + n) % 2 ^ 64)
      × ((count_sent n a).received ≡ a.received)
unfolding count_sent
count_sent_counts n a = (ground arith, ground arith)

-- Bytes that an open connection writes upstream are counted once, modulo 2^64, in the status, and
-- leave the other count alone.
pub update-traffic :
    (id n : ℕ) (a : Active) (s : Server)
    → DistinctKeys s.connections
    → s.sent < 2 ^ 64
    → s.received < 2 ^ 64
    → lookup id s.connections ≡ some a
    → ((status (update (count_sent n) id (lookup id s.connections) s)).bytes_sent
        ≡ add64 (status s).bytes_sent n)
      × ((status (update (count_sent n) id (lookup id s.connections) s)).bytes_received
          ≡ (status s).bytes_received)
unfolding status update
update-traffic id n a s d h k e =
    let b = count_sent n a in
    let (written, kept) = count_sent_counts n a in
    rw (e, update)
      (
        sum_sent-sum_by (insert id b s.connections) s.sent h
            ∙ omega (
              arith,
              sum_by-insert (λ (c : Active). c.sent) id a b s.connections d e,
              sum_sent-sum_by s.connections s.sent h,
              written,
            ),
        sum_received-sum_by (insert id b s.connections) s.received k
            ∙ omega (
              arith,
              sum_by-insert (λ (c : Active). c.received) id a b s.connections d e,
              sum_received-sum_by s.connections s.received k,
              kept,
            ),
      )
