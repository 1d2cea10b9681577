-- ===== src/Disk/Frame.antt =====
-- Each operation on a path leaves every other path as it was.
use utlsproxy.Common.{
  ℕ, Bool, true, false, ◌≡◌, refl, Option, none, some, ◌==◌, list_eq, nat_eq, ◌∙◌, take, contains,
  if◌then◌else◌, [],
}
use utlsproxy.Common.Outcome.{Result, ok, err}
use utlsproxy.Common.Text.{Bytes}
use utlsproxy.Disk.{
  open_file, opened, is_openable, FilePath, IoError, Disk, Io, Fate, Node, fine, fails, next_fate,
  aged, prim, ◌>>=◌, attempt, finally, require, put, lstat, found, read_file, contents,
  open_exclusive, created, write, write_fated, appended, sync, close, chmod, remoded, remove,
  removed, rename, renamed, mkdir, made, flock, is_regular, in_use, pure, recover, raise, system,
}
use utlsproxy.Disk.Rules.{Ends, after-Ends, prim-Ends}

pub put_other :
    (p q : FilePath) (n : Option Node) (d : Disk)
    → (p == q) ≡ false
    → (put p n d).nodes q ≡ d.nodes q
put_other p q n d h = rw h refl

module _ (q : FilePath) (x : Option Node) where
  abbrev pub At : Disk → Type 0
  At d = d.nodes q ≡ x

  -- The operation ends, in whatever way, with the same file there.
  abbrev pub Frames : {A : Type 0} → Result IoError A × Disk → Type 0
  Frames {A} r = Ends {A = A} (λ _. At) At r

  put-At : (p : FilePath) (n : Option Node) (d : Disk) → (p == q) ≡ false → At d → At (put p n d)
  put-At p n d h k = put_other p q n d h ∙ k

  pub bind-Frames :
      {A B : Type 0} (m : Io A) (f : A → Io B) (d : Disk)
      → Frames (m d)
      → ((a : A) (d' : Disk) → At d' → Frames (f a d'))
      → Frames ((m >>= f) d)
  bind-Frames {A} {B} m f d h k = after-Ends (λ _. At) (λ _. At) At (m d) f h k

  pub attempt-Frames : {A : Type 0} (m : Io A) (d : Disk) → Frames (m d) → Frames (attempt m d)
  attempt-Frames {A} m d h = at (m d) h
    where
      at : (r : Result IoError A × Disk) → Frames r → Frames (recover r)
      at (ok a, d) k = k
      at (err e, d) k = k

  pub finally-Frames :
      {A B : Type 0} (cleanup : Io B) (m : Io A) (d : Disk)
      → Frames (m d)
      → ((d' : Disk) → At d' → At (cleanup d').1)
      → Frames (finally cleanup m d)
  finally-Frames {A} {B} cleanup m d h k = at (m d) h
    where
      at :
          (r : Result IoError A × Disk) → Frames r → Frames (let (s, d') = r in (s, (cleanup d').1))
      at (ok a, d') g = k d' g
      at (err e, d') g = k d' g

  pub Frames-end : {A : Type 0} (r : Result IoError A × Disk) → Frames r → At r.1
  Frames-end (ok a, d) h = h
  Frames-end (err e, d) h = h

  pub prim-Frames :
      {A : Type 0} (m : Io A) (d : Disk) → At d → Frames (m (aged d)) → Frames (prim m d)
  prim-Frames {A} m d k h = prim-Ends (λ _. At) At m d k h

  pub require-Frames : (b : Bool) (e : IoError) (d : Disk) → At d → Frames (require b e d)
  require-Frames true e d k = k
  require-Frames false e d k = k

  pub lstat-Frames : (p : FilePath) (d : Disk) → At d → Frames (lstat p d)
  unfolding lstat
  lstat-Frames p d k = prim-Frames _ d k (at (d.nodes p))
    where
      at : (o : Option Node) → Frames (found o (aged d))
      at none = k
      at (some n) = k

  pub read_file-Frames : (p : FilePath) (d : Disk) → At d → Frames (read_file p d)
  unfolding read_file
  read_file-Frames p d k = prim-Frames _ d k (at (d.nodes p))
    where
      choose :
          (b : Bool) (n : Node)
          → Frames ((if b then pure n.content else raise (system [])) (aged d))
      choose true n = k
      choose false n = k

      at : (o : Option Node) → Frames (contents o (aged d))
      at none = k
      at (some n) = choose (is_regular n.kind) n

  pub sync-Frames : (d : Disk) → At d → Frames (sync d)
  unfolding sync
  sync-Frames d k = prim-Frames (pure tt) d k k

  pub close-Frames : (d : Disk) → At d → Frames (close d)
  unfolding close
  close-Frames d k = prim-Frames (pure tt) d k k

  pub flock-Frames : (p : FilePath) (d : Disk) → At d → Frames (flock p d)
  unfolding flock
  flock-Frames p d k = prim-Frames _ d k (at (contains d.held p))
    where
      at : (b : Bool) → Frames {A = Unit {0}} ((if b then err in_use else ok tt), aged d)
      at true = k
      at false = k

  module _ (p : FilePath) (d : Disk) (other : (p == q) ≡ false) (k : At d) where
    pub open_exclusive-Frames : (mode : ℕ) → Frames (open_exclusive p mode d)
    unfolding open_exclusive
    open_exclusive-Frames mode = prim-Frames _ d k (at (d.nodes p))
      where
        at : (o : Option Node) → Frames (created p mode o (aged d))
        at none = put-At p _ (aged d) other k
        at (some n) = k

    pub open_file-Frames : (mode : ℕ) → Frames (open_file p mode d)
    unfolding open_file
    open_file-Frames mode = prim-Frames _ d k (at (d.nodes p))
      where
        choose : (b : Bool) → Frames {A = Unit {0}} ((if b then ok tt else err (system [])), aged d)
        choose true = k
        choose false = k

        at : (o : Option Node) → Frames (opened p mode o (aged d))
        at none = put-At p _ (aged d) other k
        at (some n) = choose (is_openable n.kind)

    appended-At : (b : Bytes) (o : Option Node) → At (appended p b o (aged d))
    appended-At b none = k
    appended-At b (some n) = put-At p _ (aged d) other k

    pub write-Frames : (b : Bytes) → Frames (write p b d)
    unfolding write
    write-Frames b = at (next_fate d.fates)
      where
        at : (f : Fate) → Frames (write_fated f p b d)
        at fine = appended-At b (d.nodes p)
        at (fails e n) = appended-At (take n b) (d.nodes p)

    pub chmod-Frames : (mode : ℕ) → Frames (chmod p mode d)
    unfolding chmod
    chmod-Frames mode = prim-Frames _ d k (at (d.nodes p))
      where
        at : (o : Option Node) → At (remoded p mode o (aged d))
        at none = k
        at (some n) = put-At p _ (aged d) other k

    pub remove-Frames : Frames (remove p d)
    unfolding remove
    remove-Frames = prim-Frames _ d k (at (d.nodes p))
      where
        at : (o : Option Node) → Frames (removed p o (aged d))
        at none = k
        at (some n) = put-At p _ (aged d) other k

    pub mkdir-Frames : Frames (mkdir p d)
    unfolding mkdir
    mkdir-Frames = prim-Frames _ d k (at (d.nodes p))
      where
        at : (o : Option Node) → Frames (made p o (aged d))
        at none = put-At p _ (aged d) other k
        at (some n) = k

    pub rename-Frames : (r : FilePath) → (r == q) ≡ false → Frames (rename p r d)
    unfolding rename
    rename-Frames r also = prim-Frames _ d k (at (d.nodes p))
      where
        at : (o : Option Node) → Frames (renamed p r o (aged d))
        at none = k
        at (some n) =
            put-At p none (put r (some n) (aged d)) other (put-At r (some n) (aged d) also k)

  -- what an operation does to its own path, beside a path that it leaves alone
  pub beside :
      {A : Type 0} (P : A → Disk → Type 0) (r : Result IoError A × Disk)
      → Ends P (λ _. Unit {0}) r
      → Frames r
      → Ends (λ y d. P y d × At d) At r
  beside P (ok y, d) h k = (h, k)
  beside P (err e, d) h k = k
