-- ===== src/Trust/Rules.antt =====
-- What steps of the trust manager leave alone, with the rules for sequences of steps.
use utlsproxy.Common.{Bool, true, false, ◌≡◌, refl, ◌∙◌, if◌then◌else◌}
use utlsproxy.Common.Outcome.{Result, ok, err}
use utlsproxy.Disk.{FilePath, IoError, Disk, Io}
use utlsproxy.Disk.Frame.{Frames, Frames-end}
use utlsproxy.Trust.World.{
  Report, Run, Act, Look, pure, raise, after, ◌>>=◌, ◌>>◌, require, attempt, on_disk, observe, fill,
  get, given,
}

module _ {W : Type 0} where
  -- `P` holds where it succeeds, `Q` where it fails.
  abbrev pub Ends :
      {A : Type 0} → (A → Run W → Type 0) → (Run W → Type 0) → Result IoError A × Run W → Type 0
  Ends P Q (ok a, r) = P a r
  Ends P Q (err e, r) = Q r

  pub after-Ends :
      {A B : Type 0} (P : A → Run W → Type 0) (P' : B → Run W → Type 0) (Q : Run W → Type 0)
      (x : Result IoError A × Run W) (f : A → Act W B)
      → Ends P Q x
      → ((a : A) (r : Run W) → P a r → Ends P' Q (f a r))
      → Ends P' Q (after x f)
  after-Ends P P' Q (ok a, r) f h k = k a r h
  after-Ends P P' Q (err e, r) f h k = h

  -- an attempt ends well, with what held at either end
  pub attempt-Ends :
      {A : Type 0} (P : A → Run W → Type 0) (Q : Run W → Type 0) (m : Act W A) (r : Run W)
      → Ends P Q (m r)
      → Ends (λ (a : Result IoError A) r'. Ends P Q (a, r')) Q (attempt m r)
  unfolding attempt
  attempt-Ends P Q m r h = h

  -- the same ending, by the final state
  pub final-Ends :
      {A : Type 0} (P : Run W → Type 0) (x : Result IoError A × Run W) → P x.1 → Ends (λ _. P) P x
  final-Ends P (ok a, r) h = h
  final-Ends P (err e, r) h = h

  pub Ends-final :
      {A : Type 0} (P : Run W → Type 0) (x : Result IoError A × Run W) → Ends (λ _. P) P x → P x.1
  Ends-final P (ok a, r) h = h
  Ends-final P (err e, r) h = h

  module _ (q : FilePath) where
    -- the same file at the path, and the same trust store
    abbrev pub Same : Run W → Run W → Type 0
    Same r r' = (r'.disk.nodes q ≡ r.disk.nodes q) × (r'.store ≡ r.store)

    pub record Steady {A : Type 0} (m : Act W A) : Type 0 where
      pub same : (r : Run W) → Same r (m r).1

    pub bind-Steady :
        {A B : Type 0} (m : Act W A) (f : A → Act W B)
        → Steady m
        → ((a : A) → Steady (f a))
        → Steady (m >>= f)
    unfolding ◌>>=◌
    bind-Steady {A} {B} m f h k = record { same = λ r. at r (m r) (h.same r) }
      where
        at : (s : Run W) (x : Result IoError A × Run W) → Same s x.1 → Same s (after x f).1
        at o (err e, r') s = s
        at o (ok a, r') s = let (p, t) = (k a).same r' in (p ∙ s.0, t ∙ s.1)

    pub then-Steady :
        {A B : Type 0} (m : Act W A) (k : Act W B) → Steady m → Steady k → Steady (m >> k)
    unfolding ◌>>◌
    then-Steady m k h g = bind-Steady m (λ _. k) h (λ _. g)

    pub attempt-Steady : {A : Type 0} (m : Act W A) → Steady m → Steady (attempt m)
    unfolding attempt
    attempt-Steady m h = record { same = h.same }

    pub require-Steady : (b : Bool) (e : IoError) → Steady (require b e)
    unfolding require
    require-Steady true e = record { same = λ r. (refl, refl) }
    require-Steady false e = record { same = λ r. (refl, refl) }

    pub if-Steady :
        {A : Type 0} (b : Bool) (m k : Act W A) → Steady m → Steady k → Steady (if b then m else k)
    if-Steady true m k h g = h
    if-Steady false m k h g = g

    pub fill-Steady : (f : Report → Report) → Steady (fill f)
    unfolding fill
    fill-Steady f = record { same = λ r. (refl, refl) }

    pub get-Steady : Steady get
    unfolding get
    get-Steady = record { same = λ r. (refl, refl) }

    pub pure-Steady : {A : Type 0} (a : A) → Steady (pure a)
    unfolding pure
    pure-Steady a = record { same = λ r. (refl, refl) }

    pub raise-Steady : {A : Type 0} (e : IoError) → Steady {A = A} (raise e)
    unfolding raise
    raise-Steady e = record { same = λ r. (refl, refl) }

    pub given-Steady : {A : Type 0} (a : Result IoError A) → Steady (given a)
    unfolding given
    given-Steady a = record { same = λ r. (refl, refl) }

    pub on_disk-Steady :
        {A : Type 0} (m : Io A) → ((d : Disk) → Frames q (d.nodes q) (m d)) → Steady (on_disk m)
    unfolding on_disk
    on_disk-Steady m h = record {
      same = λ r. (Frames-end q (r.disk.nodes q) (m r.disk) (h r.disk), refl);
    }

    pub observe-Steady :
        (m : Look W)
        → ((d : Disk) (s : W) → ((m (d, s)).1.0.nodes q ≡ d.nodes q) × ((m (d, s)).1.1 ≡ s))
        → Steady (observe m)
    unfolding observe
    observe-Steady m h = record { same = λ r. h r.disk r.store }
