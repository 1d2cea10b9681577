-- ===== src/Files/Fine.antt =====
-- internal/fsutil/fsutil.go: `Exclusive` on a system of which no operation fails.
pub mod Replaced
use utlsproxy.Common.{◌==◌, false, ◌++◌, ℕ, ◌≡◌, Option, none, some, list_eq, nat_eq, ap, []}
use utlsproxy.Common.Outcome.{Result, ok, err}
use utlsproxy.Common.Text.{Bytes}
use utlsproxy.Disk.{
  exists, removed, finally, recover, remoded, renamed, chmod, rename, remove, pure, FilePath,
  IoError, Disk, Io, Fate, Node, fine, fails, next_fate, later_fates, aged, fated, prim, ◌>>◌,
  open_exclusive, created, write, write_fated, appended, sync, close, pure,
}
use utlsproxy.Files.Replace.{chmod-Ends, atomic_lem}
use utlsproxy.Files.Whole.{written, put_self, open_exclusive-Ends, write-Ends}
use utlsproxy.Disk.Frame.{Frames, sync-Frames, close-Frames}
use utlsproxy.Disk.Rules.{Ends, after-Ends}
use utlsproxy.Files.{atomic}

-- no operation to come fails
abbrev pub AllFine : Disk → Type 0
AllFine d = d.fates ≡ []

abbrev Never : Disk → Type 0
Never d = ⊥

-- The operation succeeds, and so will those to come.
abbrev Succeeds : {A : Type 0} → Result IoError A × Disk → Type 0
Succeeds {A} r = Ends {A = A} (λ _. AllFine) Never r

Ends-ok :
    (P : Unit {0} → Disk → Type 0) (Q : Disk → Type 0) (r : Result IoError (Unit {0}) × Disk)
    → r.0 ≡ ok tt
    → Ends P Q r
    → P tt r.1
Ends-ok P Q (ok u, d) h k = k
Ends-ok P Q (err e, d) h k = cc

later-AllFine : (d : Disk) → AllFine d → AllFine (aged d)
later-AllFine d h = ap later_fates h

prim_fine :
    {A : Type 0} (P : A → Disk → Type 0) (m : Io A) (d : Disk)
    → AllFine d
    → Ends P Never (m (aged d))
    → Ends P Never (prim m d)
prim_fine {A} P m d h k = at (next_fate d.fates) (ap next_fate h)
  where
    at : (f : Fate) → f ≡ fine → Ends P Never (fated {A = A} f m d)
    at fine e = k
    at (fails x n) e = cc

module _ (p : FilePath) where
  open_fine :
      (mode : ℕ) (d : Disk) → AllFine d → d.nodes p ≡ none → Succeeds (open_exclusive p mode d)
  unfolding open_exclusive
  open_fine mode d h e = prim_fine (λ _. AllFine) _ d h (at (d.nodes p) e)
    where
      at : (o : Option Node) → o ≡ none → Succeeds (created p mode o (aged d))
      at none k = later-AllFine d h
      at (some n) k = cc

  write_fine : (b : Bytes) (d : Disk) → AllFine d → Succeeds (write p b d)
  unfolding write
  write_fine b d h = at (next_fate d.fates) (ap next_fate h)
    where
      here : (o : Option Node) → AllFine (appended p b o (aged d))
      here none = later-AllFine d h
      here (some n) = later-AllFine d h

      at : (f : Fate) → f ≡ fine → Succeeds (write_fated f p b d)
      at fine e = here (d.nodes p)
      at (fails x n) e = cc

  sync_fine : (d : Disk) → AllFine d → Succeeds (sync d)
  unfolding sync
  sync_fine d h = prim_fine (λ _. AllFine) (pure tt) d h (later-AllFine d h)

  close_fine : (d : Disk) → AllFine d → Succeeds (close d)
  unfolding close
  close_fine d h = prim_fine (λ _. AllFine) (pure tt) d h (later-AllFine d h)

  then_fine :
      {A B : Type 0} (m : Io A) (k : Io B) (d : Disk)
      → Succeeds (m d)
      → ((d' : Disk) → AllFine d' → Succeeds (k d'))
      → Succeeds ((m >> k) d)
  then_fine m k d h f =
      after-Ends (λ _. AllFine) (λ _. AllFine) Never (m d) (λ _. k) h (λ _ d' q. f d' q)

  -- what an exclusive creation leaves at the path, by what was there
  abbrev pub Excluded : Disk → ℕ → Bytes → Option Node → Result IoError (Unit {0}) × Disk → Type 0
  Excluded d mode b none r = (r.0 ≡ ok tt) × (r.1.nodes p ≡ some (written d mode b))
  Excluded d mode b (some n) r = (r.0 ≡ err exists) × (r.1.nodes p ≡ some n)
