-- ===== src/Trust/Triple.antt =====
-- Steps of the trust manager by what holds before and behind them, and the two conditions on a
-- certificate: its receipt is there, or the trust store is bare of it.
use utlsproxy.Common.{
  Bool, true, false, if◌then◌else◌, subst, some, ◌≡◌, sym, ◌∙◌, ◌⊎◌, inl, inr, list_eq, nat_eq,
}
use utlsproxy.Common.Outcome.{Result, ok, err}
use utlsproxy.Disk.{FilePath, Io, IoError, Node}
use utlsproxy.Trust.Rules.{Ends, after-Ends, Same, Steady}
use utlsproxy.Trust.World.{Act, Run, attempt, on_disk, raise, ◌>>=◌}

-- `m` started where `P` holds ends with `Q` or, where it fails, with `E`.
pub record Triple {W A : Type 0} (P : Run W → Type 0) (m : Act W A) (Q : A → Run W → Type 0)
    (E : Run W → Type 0) : Type 0 where
  pub ends : (r : Run W) → P r → Ends Q E (m r)

module _ {W A B : Type 0} (P : Run W → Type 0) (Q : A → Run W → Type 0) (R : B → Run W → Type 0)
    (E : Run W → Type 0) (m : Act W A) (f : A → Act W B) where
  pub bind-Triple : Triple P m Q E → ((a : A) → Triple (Q a) (f a) R E) → Triple P (m >>= f) R E
  unfolding ◌>>=◌
  bind-Triple h k = record {
    ends = λ r p. after-Ends Q R E (m r) f (h.ends r p) (λ a r' q. (k a).ends r' q);
  }

module _ {W A : Type 0} {P : Run W → Type 0} {m : Act W A} {Q : A → Run W → Type 0}
    {E : Run W → Type 0} where
  pub before-Triple :
      (P' : Run W → Type 0) → ((r : Run W) → P' r → P r) → Triple P m Q E → Triple P' m Q E
  before-Triple P' f h = record { ends = λ r p. h.ends r (f r p) }

  pub behind-Triple :
      (Q' : A → Run W → Type 0)
      → ((a : A) (r : Run W) → Q a r → Q' a r)
      → Triple P m Q E
      → Triple P m Q' E
  behind-Triple Q' f h = record { ends = λ r p. at (m r) (h.ends r p) }
    where
      at : (x : Result IoError A × Run W) → Ends Q E x → Ends Q' E x
      at (ok a, r) k = f a r k
      at (err e, r) k = k

module _ {W A : Type 0} (P I E : Run W → Type 0) where
  pub if-Triple :
      (Q : A → Run W → Type 0) (b : Bool) (m k : Act W A)
      → Triple P m Q E
      → Triple P k Q E
      → Triple P (if b then m else k) Q E
  if-Triple Q true m k h g = h
  if-Triple Q false m k h g = g

  -- what holds at either end of a step holds behind the attempt of it
  pub attempt-Triple : (m : Act W A) → Triple P m (λ _. I) I → Triple P (attempt m) (λ _. I) E
  unfolding attempt
  attempt-Triple m h = record { ends = λ r p. at (m r) (h.ends r p) }
    where
      at : (x : Result IoError A × Run W) → Ends (λ _. I) I x → I x.1
      at (ok a, r) k = k
      at (err e, r) k = k

pub raise-Triple :
    {W A : Type 0} (I : Run W → Type 0) (Q : A → Run W → Type 0) (e : IoError)
    → Triple {A = A} I (raise e) Q I
unfolding raise
raise-Triple I Q e = record { ends = λ r p. p }

module _ {W : Type 0} (q : FilePath) (IsBare : W → Type 0) where
  abbrev pub Present : Run W → Type 0
  Present r = (n : Node) × (r.disk.nodes q ≡ some n)

  -- The store is bare of the certificate, or its receipt is there.
  abbrev pub Safe : Run W → Type 0
  Safe r = IsBare r.store ⊎ Present r

  pub Present-Same : (r r' : Run W) → Same q r r' → Present r → Present r'
  Present-Same r r' (d, s) (n, e) = (n, d ∙ e)

  pub Safe-Same : (r r' : Run W) → Same q r r' → Safe r → Safe r'
  Safe-Same r r' (d, s) (inl b) = inl (subst IsBare (sym s) b)
  Safe-Same r r' s (inr p) = inr (Present-Same r r' s p)

  pub either :
      {A : Type 0} (I : Run W → Type 0) (E : Run W → Type 0) (x : Result IoError A × Run W)
      → ((r : Run W) → I r → E r)
      → I x.1
      → Ends (λ _. I) E x
  either I E (ok a, r) f h = h
  either I E (err e, r) f h = f r h

  pub Steady-Present :
      {A : Type 0} (m : Act W A) → Steady q m → Triple Present m (λ _. Present) Safe
  Steady-Present m h = record {
    ends = λ r p. either Present Safe (m r) (λ r' x. inr x) (Present-Same r (m r).1 (h.same r) p);
  }

  pub Steady-Safe : {A : Type 0} (m : Act W A) → Steady q m → Triple Safe m (λ _. Safe) Safe
  Steady-Safe m h = record {
    ends = λ r p. either Safe Safe (m r) (λ r' x. x) (Safe-Same r (m r).1 (h.same r) p);
  }

  -- the store alone is bare
  abbrev pub Bare : Run W → Type 0
  Bare r = IsBare r.store

  pub Steady-Kept :
      {A : Type 0} (m : Act W A) → Steady q m → Triple Present m (λ _. Present) Present
  Steady-Kept m h = record {
    ends = λ r p. either Present Present (m r) (λ r' x. x) (Present-Same r (m r).1 (h.same r) p);
  }

  pub Steady-Bare : {A : Type 0} (m : Act W A) → Steady q m → Triple Bare m (λ _. Bare) Safe
  Steady-Bare m h = record {
    ends = λ r p. either Bare Safe (m r) (λ r' x. inl x) (subst IsBare (sym (h.same r).1) p);
  }

  pub on_disk-Bare : {A : Type 0} (m : Io A) → Triple Bare (on_disk m) (λ _. Bare) Safe
  unfolding on_disk
  on_disk-Bare m = record { ends = λ r p. either Bare Safe (on_disk m r) (λ r' x. inl x) p }

  pub on_disk-Stays : {A : Type 0} (m : Io A) → Triple Bare (on_disk m) (λ _. Bare) Bare
  unfolding on_disk
  on_disk-Stays m = record { ends = λ r p. either Bare Bare (on_disk m r) (λ r' x. x) p }

  -- after steps that change neither the file nor the store
  pub quiet :
      {A B : Type 0} (I : Run W → Type 0) (R : B → Run W → Type 0) (m : Act W A) (f : A → Act W B)
      → Triple I m (λ _. I) Safe
      → ((a : A) → Triple I (f a) R Safe)
      → Triple I (m >>= f) R Safe
  quiet I R m f h k = bind-Triple I (λ _. I) R Safe m f h k
