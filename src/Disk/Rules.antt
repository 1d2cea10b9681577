-- ===== src/Disk/Rules.antt =====
-- Postconditions of operations on the disk, by how they end, with the rules that combine them.
use utlsproxy.Common.{Bool, true, false, ◌≡◌, refl, list_eq, nat_eq}
use utlsproxy.Common.Outcome.{Result, ok, err}
use utlsproxy.Disk.{
  FilePath, IoError, Disk, Io, Fate, fine, fails, next_fate, aged, fated, prim, after, attempt,
  recover, require,
}

-- `P` holds where it succeeds, `Q` where it fails.
abbrev pub Ends :
    {A : Type 0} → (A → Disk → Type 0) → (Disk → Type 0) → Result IoError A × Disk → Type 0
Ends P Q (ok a, d) = P a d
Ends P Q (err e, d) = Q d

pub after-Ends :
    {A B : Type 0} (P : A → Disk → Type 0) (P' : B → Disk → Type 0) (Q : Disk → Type 0)
    (r : Result IoError A × Disk) (f : A → Io B)
    → Ends P Q r
    → ((a : A) (d : Disk) → P a d → Ends P' Q (f a d))
    → Ends P' Q (after r f)
after-Ends P P' Q (ok a, d) f h k = k a d h
after-Ends P P' Q (err e, d) f h k = h

pub prim-Ends :
    {A : Type 0} (P : A → Disk → Type 0) (Q : Disk → Type 0) (m : Io A) (d : Disk)
    → Q (aged d)
    → Ends P Q (m (aged d))
    → Ends P Q (prim m d)
prim-Ends {A} P Q m d q h = at (next_fate d.fates)
  where
    at : (f : Fate) → Ends P Q (fated {A = A} f m d)
    at fine = h
    at (fails e n) = q

-- an attempt never fails
pub attempt-Ends :
    {A : Type 0} (P : A → Disk → Type 0) (Q : Disk → Type 0) (m : Io A) (d : Disk)
    → Ends P Q (m d)
    → Ends (λ (r : Result IoError A) d'. Ends P Q (r, d')) Q (attempt m d)
attempt-Ends {A} P Q m d h = at (m d) h
  where
    at :
        (r : Result IoError A × Disk)
        → Ends P Q r
        → Ends (λ (r' : Result IoError A) d'. Ends P Q (r', d')) Q (recover r)
    at (ok a, d) k = k
    at (err e, d) k = k

pub require-Ends :
    (P : Unit {0} → Disk → Type 0) (Q : Disk → Type 0) (b : Bool) (e : IoError) (d : Disk)
    → Q d
    → (b ≡ true → P tt d)
    → Ends P Q (require b e d)
require-Ends P Q true e d q p = p refl
require-Ends P Q false e d q p = q

-- An operation leaves a path alone.
abbrev pub Keeps : {A : Type 0} → FilePath → Io A → Type 0
Keeps q m = (d : Disk) → (m d).1.nodes q ≡ d.nodes q

pub weaken-Ends :
    {A : Type 0} (P P' : A → Disk → Type 0) (Q : Disk → Type 0) (r : Result IoError A × Disk)
    → ((a : A) (d : Disk) → P a d → P' a d)
    → Ends P Q r
    → Ends P' Q r
weaken-Ends P P' Q (ok a, d) f h = f a d h
weaken-Ends P P' Q (err e, d) f h = h
