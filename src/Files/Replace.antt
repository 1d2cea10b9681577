-- ===== src/Files/Replace.antt =====
-- internal/fsutil/fsutil.go: `Atomic` replaces a file in one step or leaves it as it was.
use mathlib.Core.Option.{some-injective}
use utlsproxy.Common.{ℕ, false, ◌≡◌, refl, Option, none, some, ◌==◌, list_eq, nat_eq, ◌∙◌, ap, []}
use utlsproxy.Common.Outcome.{Result, ok, err}
use utlsproxy.Common.Text.{Bytes}
use utlsproxy.Disk.{
  FilePath, IoError, Disk, Io, Node, aged, after, ◌>>◌, attempt, finally, put, open_exclusive,
  write, sync, close, chmod, remoded, remove, rename, renamed, pure, recover,
}
use utlsproxy.Disk.Rules.{Ends, after-Ends, prim-Ends}
use utlsproxy.Disk.Frame.{
  At, Frames, Frames-end, bind-Frames, attempt-Frames, finally-Frames, open_exclusive-Frames,
  write-Frames, chmod-Frames, remove-Frames, rename-Frames, sync-Frames, close-Frames, put_other,
  beside,
}
use utlsproxy.Files.Whole.{written, put_self, open_exclusive-Ends, write-Ends}
use utlsproxy.Files.{atomic}

pub chmod-Ends :
    (p : FilePath) (mode : ℕ) (n : Node) (d : Disk)
    → d.nodes p ≡ some n
    → Ends (λ _ d'. d'.nodes p ≡ some (record n { mode = mode })) (λ _. Unit {0}) (chmod p mode d)
unfolding chmod
chmod-Ends p mode n d e = prim-Ends _ (λ _. Unit {0}) _ d tt (at (d.nodes p) e)
  where
    at :
        (o : Option Node)
        → o ≡ some n
        → (remoded p mode o (aged d)).nodes p ≡ some (record n { mode = mode })
    at none h = cc
    at (some m) h =
        put_self p _ (aged d)
        ∙ ap (λ (x : Node). some (record x { mode = mode })) (some-injective m n h)

module _ (tmp p : FilePath) (apart : (tmp == p) ≡ false) where
  rename-Ends :
      (n : Node) (d : Disk)
      → d.nodes tmp ≡ some n
      → Ends (λ _ d'. d'.nodes p ≡ some n) (λ d'. d'.nodes p ≡ d.nodes p) (rename tmp p d)
  unfolding rename
  rename-Ends n d e = prim-Ends _ _ _ d refl (at (d.nodes tmp) e)
    where
      at :
          (o : Option Node)
          → o ≡ some n
          → Ends
              (λ _ d'. d'.nodes p ≡ some n)
              (λ d'. d'.nodes p ≡ d.nodes p)
              (renamed tmp p o (aged d))
      at none h = cc
      at (some m) h =
          put_other tmp p none (put p (some m) (aged d)) apart ∙ put_self p (some m) (aged d) ∙ h

  -- the temporary file holds this and the target is untouched
  abbrev Ready : Node → Disk → Disk → Type 0
  Ready n d d' = (d'.nodes tmp ≡ some n) × (d'.nodes p ≡ d.nodes p)

  -- what follows the last write
  abbrev finish : Io (Unit {0})
  finish = rename tmp p >> (attempt sync >> pure tt)

  replaced :
      (n : Node) (d d1 : Disk)
      → Ready n d d1
      → Ends {A = Unit {0}} (λ _ d'. d'.nodes p ≡ some n) (At p (d.nodes p)) (finish d1)
  replaced n d d1 (e, k) =
      after-Ends (λ _. At p (some n)) (λ _. At p (some n)) (At p (d.nodes p)) (rename tmp p d1)
        (λ _. attempt sync >> pure tt) (weaken-failure (rename tmp p d1) (rename-Ends n d1 e))
        (λ _ d2 e2. synced d2 (sync d2) (sync-Frames p (some n) d2 e2))
    where
      weaken-failure :
          (r : Result IoError (Unit {0}) × Disk)
          → Ends (λ _ d'. d'.nodes p ≡ some n) (λ d'. d'.nodes p ≡ d1.nodes p) r
          → Ends (λ _ d'. d'.nodes p ≡ some n) (At p (d.nodes p)) r
      weaken-failure (ok u, d2) h = h
      weaken-failure (err x, d2) h = h ∙ k

      synced :
          (d2 : Disk) (r : Result IoError (Unit {0}) × Disk)
          → Frames p (some n) r
          → Ends {A = Unit {0}}
              (λ _. At p (some n))
              (At p (d.nodes p))
              (after (recover r) (λ _. pure tt))
      synced d2 (ok u, d3) h = h
      synced d2 (err x, d3) h = h

  abbrev body : Bytes → ℕ → Io (Unit {0})
  body b mode = chmod tmp mode >> (write tmp b >> (sync >> (close >> finish)))

  -- an operation on the temporary file, then the rest
  step :
      {A : Type 0} (n n' : Node) (d d1 : Disk) (m : Io A) (rest : Io (Unit {0})) (R : Disk → Type 0)
      → Ends (λ _ d'. d'.nodes tmp ≡ some n') (λ _. Unit {0}) (m d1)
      → Frames p (d.nodes p) (m d1)
      → ((d2 : Disk) → Ready n' d d2 → Ends (λ _. R) (At p (d.nodes p)) (rest d2))
      → Ends (λ _. R) (At p (d.nodes p)) ((m >> rest) d1)
  step {A} n n' d d1 m rest R h k f =
      after-Ends (λ _ d'. Ready n' d d') (λ _. R) (At p (d.nodes p)) (m d1) (λ _. rest)
        (beside p (d.nodes p) (λ _ d'. d'.nodes tmp ≡ some n') (m d1) h k) (λ _ d2 r. f d2 r)

  body-Ends :
      (b : Bytes) (mode : ℕ) (d d1 : Disk)
      → Ready (written d 384 []) d d1
      → Ends (λ _ d'. d'.nodes p ≡ some (written d mode b)) (At p (d.nodes p)) (body b mode d1)
  body-Ends b mode d d1 (e, k) =
      let new : Node = written d mode b in
      let x : Option Node = d.nodes p in
      step (written d 384 []) (written d mode []) d d1 (chmod tmp mode) _ (At p (some new))
        (chmod-Ends tmp mode (written d 384 []) d1 e) (chmod-Frames p x tmp d1 apart k mode)
        (λ d2 (e2, k2).
          step (written d mode []) new d d2 (write tmp b) _ (At p (some new))
            (write-Ends tmp b (written d mode []) d2 (λ _. Unit {0}) (λ _. tt) e2)
            (write-Frames p x tmp d2 apart k2 b)
            (λ d3 (e3, k3).
              step new new d d3 sync _ (At p (some new))
                (same-Ends new (sync d3) (sync-Frames tmp (some new) d3 e3)) (sync-Frames p x d3 k3)
                (λ d4 (e4, k4).
                  step new new d d4 close finish (At p (some new))
                    (same-Ends new (close d4) (close-Frames tmp (some new) d4 e4))
                    (close-Frames p x d4 k4) (λ d5 r. replaced new d d5 r))))
    where
      same-Ends :
          (n : Node) (r : Result IoError (Unit {0}) × Disk)
          → Frames tmp (some n) r
          → Ends (λ _ d'. d'.nodes tmp ≡ some n) (λ _. Unit {0}) r
      same-Ends n (ok u, d') h = h
      same-Ends n (err x, d') h = tt

  cleaned :
      (x y : Option Node) (m : Io (Unit {0})) (d : Disk)
      → Ends (λ _. At p x) (At p y) (m d)
      → Ends (λ _. At p x) (At p y) (finally (remove tmp) m d)
  cleaned x y m d h = at (m d) h
    where
      at :
          (r : Result IoError (Unit {0}) × Disk)
          → Ends (λ _. At p x) (At p y) r
          → Ends (λ _. At p x) (At p y) (let (s, d') = r in (s, (remove tmp d').1))
      at (ok u, d') k = Frames-end p x (remove tmp d') (remove-Frames p x tmp d' apart k)
      at (err e, d') k = Frames-end p y (remove tmp d') (remove-Frames p y tmp d' apart k)

  module _ (q : FilePath) (x : Option Node) (other : (tmp == q) ≡ false)
      (also : (p == q) ≡ false) where
    finish-Frames : (d : Disk) → At q x d → Frames q x (finish d)
    finish-Frames d k =
        bind-Frames q x (rename tmp p) (λ _. attempt sync >> pure tt) d
          (rename-Frames q x tmp d other k p also)
          (λ _ d1 k1.
            bind-Frames q x (attempt sync) (λ _. pure tt) d1
              (attempt-Frames q x sync d1 (sync-Frames q x d1 k1)) (λ _ d2 k2. k2))

    body-Frames : (b : Bytes) (mode : ℕ) (d : Disk) → At q x d → Frames q x (body b mode d)
    body-Frames b mode d k =
        bind-Frames q x (chmod tmp mode) (λ _. write tmp b >> (sync >> (close >> finish))) d
          (chmod-Frames q x tmp d other k mode)
          (λ _ d1 k1.
            bind-Frames q x (write tmp b) (λ _. sync >> (close >> finish)) d1
              (write-Frames q x tmp d1 other k1 b)
              (λ _ d2 k2.
                bind-Frames q x sync (λ _. close >> finish) d2 (sync-Frames q x d2 k2)
                  (λ _ d3 k3.
                    bind-Frames q x close (λ _. finish) d3 (close-Frames q x d3 k3)
                      (λ _ d4 k4. finish-Frames d4 k4))))

    pub atomic-Frames :
        (b : Bytes) (mode : ℕ) (d : Disk) → At q x d → Frames q x (atomic tmp p b mode d)
    unfolding atomic
    atomic-Frames b mode d k =
        bind-Frames q x (open_exclusive tmp 384) (λ _. finally (remove tmp) (body b mode)) d
          (open_exclusive-Frames q x tmp d other k 384)
          (λ _ d1 k1.
            finally-Frames q x (remove tmp) (body b mode) d1 (body-Frames b mode d1 k1)
              (λ d2 k2. Frames-end q x (remove tmp d2) (remove-Frames q x tmp d2 other k2)))

  -- Where `Atomic` succeeds the target holds the bytes; where it fails the target is what it was. No
  -- path but the target and the temporary file changes.
  pub atomic_lem :
      (b : Bytes) (mode : ℕ) (d : Disk)
      → Ends
          (λ _ d'. d'.nodes p ≡ some (written d mode b))
          (λ d'. d'.nodes p ≡ d.nodes p)
          (atomic tmp p b mode d)
        × ((q : FilePath)
            → (tmp == q) ≡ false
            → (p == q) ≡ false
            → (atomic tmp p b mode d).1.nodes q ≡ d.nodes q)
  unfolding atomic
  atomic_lem b mode d = (
    after-Ends (λ _ d'. Ready (written d 384 []) d d') (λ _. At p (some (written d mode b)))
        (At p (d.nodes p)) (open_exclusive tmp 384 d) (λ _. finally (remove tmp) (body b mode))
        (beside p (d.nodes p) (λ _ d'. d'.nodes tmp ≡ some (written d 384 []))
          (open_exclusive tmp 384 d)
          (opened (open_exclusive tmp 384 d)
            (open_exclusive-Ends tmp 384 d (λ _. Unit {0}) (λ _ _. tt)))
          (open_exclusive-Frames p (d.nodes p) tmp d apart refl 384))
        (λ _ d1 r.
          cleaned (some (written d mode b)) (d.nodes p) (body b mode) d1 (body-Ends b mode d d1 r)),
    λ q other also.
        Frames-end q (d.nodes q) (atomic tmp p b mode d)
          (atomic-Frames q (d.nodes q) other also b mode d refl),
  )
    where
      opened :
          (r : Result IoError (Unit {0}) × Disk)
          → Ends
              (λ _ d'. (d.nodes tmp ≡ none) × (d'.nodes tmp ≡ some (written d 384 [])))
              (λ _. Unit {0})
              r
          → Ends (λ _ d'. d'.nodes tmp ≡ some (written d 384 [])) (λ _. Unit {0}) r
      opened (ok u, d') (f, h) = h
      opened (err x, d') h = tt
