-- ===== src/Files/Whole.antt =====
-- internal/fsutil/fsutil.go: what `Exclusive` and `Atomic` leave behind, whichever operation fails.
use mathlib.Core.Option.{some-injective}
use utlsproxy.Common.{
  ℕ, false, ◌≡◌, refl, Option, none, some, ◌==◌, list_eq, nat_eq, ◌∙◌, beq_refl, ap, [], ◌++◌,
}
use utlsproxy.Common.Outcome.{Result, ok, err}
use utlsproxy.Common.Text.{Bytes}
use utlsproxy.Disk.{
  FilePath, IoError, Disk, Io, Fate, Node, fine, fails, next_fate, aged, after, ◌>>◌, attempt, put,
  open_exclusive, created, write, write_fated, appended, sync, close, remove, regular, pure, raise,
  recover,
}
use utlsproxy.Disk.Rules.{Ends, after-Ends, prim-Ends}
use utlsproxy.Disk.Frame.{
  Frames, Frames-end, bind-Frames, attempt-Frames, open_exclusive-Frames, write-Frames,
  remove-Frames, sync-Frames, close-Frames,
}
use utlsproxy.Files.{exclusive, unless_ok}

pub put_self : (p : FilePath) (n : Option Node) (d : Disk) → (put p n d).nodes p ≡ n
put_self p n d = rw (beq_refl p) refl

-- a file that this process wrote
abbrev pub written : Disk → ℕ → Bytes → Node
written d mode b = record { kind = regular; uid = d.euid; mode = mode; content = b }

module _ (p : FilePath) where
  pub open_exclusive-Ends :
      (mode : ℕ) (d : Disk) (Q : Disk → Type 0)
      → ((d' : Disk) → d'.nodes p ≡ d.nodes p → Q d')
      → Ends
          (λ _ d'. (d.nodes p ≡ none) × (d'.nodes p ≡ some (written d mode [])))
          Q
          (open_exclusive p mode d)
  unfolding open_exclusive
  open_exclusive-Ends mode d Q q = prim-Ends _ Q _ d (q (aged d) refl) (at (d.nodes p) refl)
    where
      at :
          (o : Option Node)
          → d.nodes p ≡ o
          → Ends
              (λ _ d'. (d.nodes p ≡ none) × (d'.nodes p ≡ some (written d mode [])))
              Q
              (created p mode o (aged d))
      at none e = (e, put_self p _ (aged d))
      at (some n) e = q (aged d) refl

  pub write-Ends :
      (b : Bytes) (n : Node) (d : Disk) (Q : Disk → Type 0)
      → ((d' : Disk) → Q d')
      → d.nodes p ≡ some n
      → Ends (λ _ d'. d'.nodes p ≡ some (record n { content = n.content ++ b })) Q (write p b d)
  unfolding write
  write-Ends b n d Q q e = at (next_fate d.fates)
    where
      here :
          (o : Option Node)
          → o ≡ some n
          → (appended p b o (aged d)).nodes p ≡ some (record n { content = n.content ++ b })
      here none h = cc
      here (some m) h =
          put_self p _ (aged d)
          ∙ ap (λ (x : Node). some (record x { content = x.content ++ b })) (some-injective m n h)

      at :
          (f : Fate)
          → Ends
              (λ _ d'. d'.nodes p ≡ some (record n { content = n.content ++ b }))
              Q
              (write_fated f p b d)
      at fine = here (d.nodes p) e
      at (fails x k) = q _

  pub flushed-Ends :
      (n : Node) (d : Disk)
      → d.nodes p ≡ some n
      → Ends {A = Unit {0}} (λ _ d'. d'.nodes p ≡ some n) (λ _. Unit {0}) ((sync >> close) d)
  unfolding sync close
  flushed-Ends n d e =
      after-Ends (λ _ d'. d'.nodes p ≡ some n) (λ _ d'. d'.nodes p ≡ some n) (λ _. Unit {0})
        (sync d) (λ _. close) (prim-Ends _ _ (pure tt) d tt e)
        (λ _ d1 e1. prim-Ends _ (λ _. Unit {0}) (pure tt) d1 tt e1)

  -- the three operations on a fresh file, and what is done when they fail
  filled-Ends :
      (b : Bytes) (mode : ℕ) (d0 d : Disk)
      → d0.nodes p ≡ none
      → d.nodes p ≡ some (written d0 mode [])
      → Ends
          (λ _ d'. (d0.nodes p ≡ none) × (d'.nodes p ≡ some (written d0 mode b)))
          (λ d'. (n : Node) → d0.nodes p ≡ some n → d'.nodes p ≡ some n)
          (after (attempt (write p b >> (sync >> close)) d) (unless_ok p))
  filled-Ends b mode d0 d fresh e = at (w d) (
      after-Ends (λ _ d'. d'.nodes p ≡ some (written d0 mode b))
        (λ _ d'. d'.nodes p ≡ some (written d0 mode b)) (λ _. Unit {0}) (write p b d) _
        (write-Ends b (written d0 mode []) d (λ _. Unit {0}) (λ _. tt) e)
        (λ _ d1 e1. flushed-Ends (written d0 mode b) d1 e1))
    where
      w : Io (Unit {0})
      w = write p b >> (sync >> close)

      at :
          (r : Result IoError (Unit {0}) × Disk)
          → Ends (λ _ d'. d'.nodes p ≡ some (written d0 mode b)) (λ d'. Unit {0}) r
          → Ends
              (λ _ d'. (d0.nodes p ≡ none) × (d'.nodes p ≡ some (written d0 mode b)))
              (λ d'. (n : Node) → d0.nodes p ≡ some n → d'.nodes p ≡ some n)
              (after (recover r) (unless_ok p))
      at (ok u, d') h = (fresh, h)
      at (err x, d') h = λ n there. cc (fresh, there)

  unless_ok-Frames :
      (q : FilePath) (x : Option Node)
      → (p == q) ≡ false
      → (r : Result IoError (Unit {0})) (d : Disk) → d.nodes q ≡ x
      → Frames q x (unless_ok p r d)
  unless_ok-Frames q x other (ok u) d k = k
  unless_ok-Frames q x other (err e) d k =
      bind-Frames q x {B = Unit {0}} (attempt (remove p)) (λ _. raise e) d
        (attempt-Frames q x (remove p) d (remove-Frames q x p d other k)) (λ _ d1 k1. k1)

  pub exclusive-Frames :
      (q : FilePath) (x : Option Node)
      → (p == q) ≡ false
      → (b : Bytes) (mode : ℕ) (d : Disk) → d.nodes q ≡ x
      → Frames q x (exclusive p b mode d)
  unfolding exclusive
  exclusive-Frames q x other b mode d k =
      bind-Frames q x (open_exclusive p mode) _ d (open_exclusive-Frames q x p d other k mode)
        (λ _ d1 k1.
          bind-Frames q x (attempt (write p b >> (sync >> close))) (unless_ok p) d1
            (attempt-Frames q x (write p b >> (sync >> close)) d1 (
              bind-Frames q x (write p b) (λ _. sync >> close) d1 (write-Frames q x p d1 other k1 b)
                (λ _ d2 k2.
                  bind-Frames q x sync (λ _. close) d2 (sync-Frames q x d2 k2)
                    (λ _ d3 k3. close-Frames q x d3 k3))))
            (λ r d4 k4. unless_ok-Frames q x other r d4 k4))

  -- `Exclusive` succeeds only where the path was free, and the file then holds the bytes; where it
  -- fails, a file that was there is untouched. No other path changes.
  pub exclusive_lem :
      (b : Bytes) (mode : ℕ) (d : Disk)
      → Ends
          (λ _ d'. (d.nodes p ≡ none) × (d'.nodes p ≡ some (written d mode b)))
          (λ d'. (n : Node) → d.nodes p ≡ some n → d'.nodes p ≡ some n)
          (exclusive p b mode d)
        × ((q : FilePath) → (p == q) ≡ false → (exclusive p b mode d).1.nodes q ≡ d.nodes q)
  unfolding exclusive
  exclusive_lem b mode d = (
    after-Ends (λ _ d'. (d.nodes p ≡ none) × (d'.nodes p ≡ some (written d mode [])))
        (λ _ d'. (d.nodes p ≡ none) × (d'.nodes p ≡ some (written d mode b)))
        (λ d'. (n : Node) → d.nodes p ≡ some n → d'.nodes p ≡ some n) (open_exclusive p mode d) _
        (open_exclusive-Ends mode d _ (λ d' same n there. same ∙ there))
        (λ _ d1 (fresh, e). filled-Ends b mode d d1 fresh e),
    λ q other. Frames-end q (d.nodes q) _ (exclusive-Frames q (d.nodes q) other b mode d refl),
  )
