-- ===== src/Files/Owners.antt =====
-- internal/fsutil/fsutil.go: what `RootOwned` and `PrivateDir` establish of a path.
use utlsproxy.Common.Best.{All-map}
use utlsproxy.Common.{
  true, ◌≡◌, refl, Option, none, some, nat_eq, List, [], ◌∷◌, All, ◌∙◌, sym, Bool, ap, subst,
}
use utlsproxy.Common.Outcome.{Result, ok, err}
use utlsproxy.Disk.{◌>>=◌, ◌>>◌, after}
use utlsproxy.Disk.{FilePath, IoError, Disk, Node, aged, ◌>>=◌, ◌>>◌, require, lstat, stat, found}
use utlsproxy.Disk.Rules.{Ends, after-Ends, prim-Ends, require-Ends, weaken-Ends}
use utlsproxy.Files.Upwards.{Upwards, ancestors-Upwards}
use utlsproxy.Files.{ancestors, is_protected, is_root_only, check_lexical, check_real, root_owned}

-- The file at the path passes the test.
abbrev pub Passes : (Node → Bool) → Disk → FilePath → Type 0
Passes test d p = (n : Node) × (d.nodes p ≡ some n) × (test n ≡ true)

-- the same files
abbrev pub Same : Disk → Disk → Type 0
Same d d' = d'.nodes ≡ d.nodes

abbrev pub Any : Disk → Type 0
Any d = Unit

pub lstat-Ends :
    (p : FilePath) (d : Disk) → Ends (λ n d'. (d.nodes p ≡ some n) × Same d d') Any (lstat p d)
unfolding lstat
lstat-Ends p d = prim-Ends _ Any _ d tt (at (d.nodes p) refl)
  where
    at :
        (o : Option Node)
        → d.nodes p ≡ o
        → Ends (λ n d'. (d.nodes p ≡ some n) × Same d d') Any (found o (aged d))
    at none e = tt
    at (some n) e = (e, refl)

stat-Ends :
    (p : FilePath) (d : Disk) → Ends (λ n d'. (d.nodes p ≡ some n) × Same d d') Any (stat p d)
unfolding stat
stat-Ends p d = prim-Ends _ Any _ d tt (at (d.nodes p) refl)
  where
    at :
        (o : Option Node)
        → d.nodes p ≡ o
        → Ends (λ n d'. (d.nodes p ≡ some n) × Same d d') Any (found o (aged d))
    at none e = tt
    at (some n) e = (e, refl)

Passes-Same :
    (test : Node → Bool) (d d' : Disk) (p : FilePath)
    → Same d d'
    → Passes test d' p
    → Passes test d p
Passes-Same test d d' p s (n, e, t) = (n, ap (λ f. f p) (sym s) ∙ e, t)

all-Same :
    (test : Node → Bool) (d d' : Disk) (ps : List FilePath)
    → Same d d'
    → All (Passes test d') ps
    → All (Passes test d) ps
all-Same test d d' ps s h = All-map _ _ (λ p. Passes-Same test d d' p s) ps h

-- each path passes, and the files are the same
abbrev Checked : (Node → Bool) → Disk → List FilePath → Unit {0} → Disk → Type 0
Checked test d ps u d' = All (Passes test d) ps × Same d d'

Checked-later :
    (test : Node → Bool) (p : FilePath) (ps : List FilePath) (n : Node) (d d2 : Disk)
    (r : Result IoError (Unit {0}) × Disk)
    → d.nodes p ≡ some n
    → test n ≡ true
    → Same d d2
    → Ends (Checked test d2 ps) Any r
    → Ends (Checked test d (p ∷ ps)) Any r
Checked-later test p ps n d d2 r e t s h =
    weaken-Ends (Checked test d2 ps) (Checked test d (p ∷ ps)) Any r
      (λ u d' (a, s'). (((n, e, t), all-Same test d d2 ps s a), s' ∙ s)) h

check_lexical-Ends :
    (ps : List FilePath) (d : Disk) → Ends (Checked is_protected d ps) Any (check_lexical ps d)
unfolding check_lexical
check_lexical-Ends [] d = (tt, refl)
check_lexical-Ends (p ∷ ps) d =
    after-Ends (λ n d1. (d.nodes p ≡ some n) × Same d d1) (Checked is_protected d (p ∷ ps)) Any
      (lstat p d) _ (lstat-Ends p d)
      (λ n d1 (e, s1).
        after-Ends (λ _ d2. (is_protected n ≡ true) × Same d d2) (Checked is_protected d (p ∷ ps))
          Any (require (is_protected n) _ d1) _
          (require-Ends _ Any (is_protected n) _ d1 tt (λ t. (t, s1)))
          (λ _ d2 (t, s2).
            Checked-later is_protected p ps n d d2 (check_lexical ps d2) e t s2
              (check_lexical-Ends ps d2)))

check_real-Ends :
    (ps : List FilePath) (d : Disk) → Ends (Checked is_root_only d ps) Any (check_real ps d)
unfolding check_real
check_real-Ends [] d = (tt, refl)
check_real-Ends (p ∷ ps) d =
    after-Ends (λ n d0. (d.nodes p ≡ some n) × Same d d0) (Checked is_root_only d (p ∷ ps)) Any
      (stat p d) _ (stat-Ends p d)
      (λ _ d0 (_, s0).
        after-Ends (λ n d1. (d0.nodes p ≡ some n) × Same d0 d1) (Checked is_root_only d (p ∷ ps))
          Any (stat p d0) _ (stat-Ends p d0)
          (λ n d1 (e, s1).
            after-Ends (λ _ d2. (is_root_only n ≡ true) × Same d d2)
              (Checked is_root_only d (p ∷ ps)) Any (require (is_root_only n) _ d1) _
              (require-Ends _ Any (is_root_only n) _ d1 tt (λ t. (t, s1 ∙ s0)))
              (λ _ d2 (t, s2).
                Checked-later is_root_only p ps n d d2 (check_real ps d2)
                  (ap (λ f. f p) (sym s0) ∙ e) t s2 (check_real-Ends ps d2))))

module _ (abs : FilePath → Result IoError FilePath)
    (eval_symlinks : (FilePath → Option Node) → FilePath → Result IoError FilePath) where
  -- the path, the file that it leads to, and every directory above either have passed
  abbrev pub IsRootOwned : FilePath → Disk → Type 0
  IsRootOwned path d =
      (lexical real : FilePath) × (abs path ≡ ok lexical)
      × (eval_symlinks d.nodes path ≡ ok real)
      × Upwards (Passes is_protected d) lexical
      × Upwards (Passes is_root_only d) real

  real_part :
      (path lexical : FilePath) (d d1 : Disk) (r : Result IoError FilePath)
      → abs path ≡ ok lexical
      → All (Passes is_protected d) (ancestors lexical)
      → Same d d1
      → eval_symlinks d1.nodes path ≡ r
      → Ends
          (λ _ d'. IsRootOwned path d × Same d d')
          Any
          (after (r, d1) (λ real. check_real (ancestors real)))
  real_part path lexical d d1 (err e) a l s h = tt
  real_part path lexical d d1 (ok real) a l s h =
      weaken-Ends (Checked is_root_only d1 (ancestors real))
        (λ _ d'. IsRootOwned path d × Same d d') Any _
        (λ u d' (c, s'). (
          (
            lexical,
            real,
            a,
            subst (λ f. eval_symlinks f path ≡ ok real) s h,
            ancestors-Upwards (Passes is_protected d) lexical l,
            ancestors-Upwards (Passes is_root_only d) real
                (all-Same is_root_only d d1 (ancestors real) s c),
          ),
          s' ∙ s,
        ))
        (check_real-Ends (ancestors real) d1)

  lexical_part :
      (path : FilePath) (d : Disk) (r : Result IoError FilePath)
      → abs path ≡ r
      → Ends
          (λ _ d'. IsRootOwned path d × Same d d')
          Any
          (after
            (r, d)
            (λ lexical.
              check_lexical (ancestors lexical)
              >> ((λ d1. (eval_symlinks d1.nodes path, d1)) >>= λ real.
                  check_real (ancestors real))))
  lexical_part path d (err e) a = tt
  lexical_part path d (ok lexical) a =
      after-Ends (Checked is_protected d (ancestors lexical))
        (λ _ d'. IsRootOwned path d × Same d d') Any (check_lexical (ancestors lexical) d) _
        (check_lexical-Ends (ancestors lexical) d)
        (λ _ d1 (l, s). real_part path lexical d d1 _ a l s refl)

  -- Where `RootOwned` accepts a path, the file there and the directory in front of each separator
  -- of the absolute path are there, owned by root and, links aside, not writable by others; so are,
  -- links included, the file that the path leads to and its directories. No file has changed.
  pub root_owned-ok :
      (path : FilePath) (d : Disk)
      → Ends (λ _ d'. IsRootOwned path d × Same d d') Any (root_owned abs eval_symlinks path d)
  unfolding root_owned
  root_owned-ok path d = lexical_part path d (abs path) refl
