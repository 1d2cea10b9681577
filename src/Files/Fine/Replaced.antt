-- ===== src/Files/Fine/Replaced.antt =====
-- internal/fsutil/fsutil.go: `Atomic` on a system of which no operation fails.
use utlsproxy.Common.{refl, ◌==◌, false, ◌++◌, ℕ, ◌≡◌, Option, none, some, list_eq, nat_eq, ap, []}
use utlsproxy.Common.Outcome.{Result, ok, err}
use utlsproxy.Common.Text.{Bytes}
use utlsproxy.Disk.{
  removed, finally, recover, remoded, renamed, chmod, rename, remove, pure, FilePath, IoError, Disk,
  Io, Fate, Node, fine, fails, next_fate, aged, fated, ◌>>◌, attempt, open_exclusive, write, sync,
  close, pure, after,
}
use utlsproxy.Files.Replace.{chmod-Ends, atomic_lem}
use utlsproxy.Files.Whole.{written, put_self, open_exclusive-Ends, write-Ends}
use utlsproxy.Disk.Frame.{Frames, sync-Frames, close-Frames}
use utlsproxy.Disk.Rules.{Ends, after-Ends}
use utlsproxy.Files.{atomic}
use utlsproxy.Files.Fine.{
  AllFine, Never, Succeeds, Ends-ok, later-AllFine, prim_fine, open_fine, write_fine, sync_fine,
  close_fine, then_fine,
}

pair-Ends :
    {A : Type 0} (P P' : A → Disk → Type 0) (Q : Disk → Type 0) (r : Result IoError A × Disk)
    → Ends P Never r
    → Ends P' Q r
    → Ends (λ a d. P a d × P' a d) Never r
pair-Ends P P' Q (ok a, d) h k = (h, k)
pair-Ends P P' Q (err e, d) h k = h

module _ (tmp p : FilePath) where
  chmod_fine : (mode : ℕ) (d : Disk) → AllFine d → Succeeds (chmod tmp mode d)
  unfolding chmod
  chmod_fine mode d h = prim_fine (λ _. AllFine) _ d h (at (d.nodes tmp))
    where
      at : (o : Option Node) → AllFine (remoded tmp mode o (aged d))
      at none = later-AllFine d h
      at (some n) = later-AllFine d h

  rename_fine : (n : Node) (d : Disk) → AllFine d → d.nodes tmp ≡ some n → Succeeds (rename tmp p d)
  unfolding rename
  rename_fine n d h e = prim_fine (λ _. AllFine) _ d h (at (d.nodes tmp) e)
    where
      at : (o : Option Node) → o ≡ some n → Succeeds (renamed tmp p o (aged d))
      at none k = cc
      at (some m) k = later-AllFine d h

  -- the temporary file holds this, and no operation to come fails
  abbrev Ready : Node → Disk → Type 0
  Ready n d = AllFine d × (d.nodes tmp ≡ some n)

  -- a step on the temporary file, then the rest
  step_fine :
      (n : Node) (d : Disk) (m rest : Io (Unit {0}))
      → Succeeds (m d)
      → Ends (λ _ d'. d'.nodes tmp ≡ some n) (λ _. Unit {0}) (m d)
      → ((d' : Disk) → Ready n d' → Succeeds (rest d'))
      → Succeeds ((m >> rest) d)
  step_fine n d m rest h k f =
      after-Ends (λ _. Ready n) (λ _. AllFine) Never (m d) (λ _. rest)
        (pair-Ends (λ _. AllFine) (λ _ d'. d'.nodes tmp ≡ some n) (λ _. Unit {0}) (m d) h k)
        (λ _ d' r. f d' r)

  there :
      (n : Node) (r : Result IoError (Unit {0}) × Disk)
      → Frames tmp (some n) r
      → Ends (λ _ d'. d'.nodes tmp ≡ some n) (λ _. Unit {0}) r
  there n (ok u, d) h = h
  there n (err e, d) h = tt

  finish_fine :
      (n : Node) (d : Disk) → Ready n d → Succeeds ((rename tmp p >> (attempt sync >> pure tt)) d)
  finish_fine n d (h, e) =
      then_fine tmp (rename tmp p) (attempt sync >> pure tt) d (rename_fine n d h e)
        (λ d1 h1. at (sync d1) (sync_fine tmp d1 h1))
    where
      at :
          (r : Result IoError (Unit {0}) × Disk)
          → Succeeds r
          → Succeeds {A = Unit {0}} (after (recover r) (λ _. pure tt))
      at (ok u, d2) k = k
      at (err x, d2) k = absurd k

  body_fine :
      (b : Bytes) (mode : ℕ) (n : Node) (d : Disk)
      → Ready n d
      → Succeeds (
          (chmod tmp mode
              >> (write tmp b >> (sync >> (close >> (rename tmp p >> (attempt sync >> pure tt))))))
            d)
  body_fine b mode n d (h, e) =
      let n1 : Node = record n { mode = mode } in
      let n2 : Node = record n1 { content = n1.content ++ b } in
      step_fine n1 d (chmod tmp mode) _ (chmod_fine mode d h) (chmod-Ends tmp mode n d e)
        (λ d1 (h1, e1).
          step_fine n2 d1 (write tmp b) _ (write_fine tmp b d1 h1)
            (write-Ends tmp b n1 d1 (λ _. Unit {0}) (λ _. tt) e1)
            (λ d2 (h2, e2).
              step_fine n2 d2 sync _ (sync_fine tmp d2 h2)
                (there n2 (sync d2) (sync-Frames tmp (some n2) d2 e2))
                (λ d3 (h3, e3).
                  step_fine n2 d3 close _ (close_fine tmp d3 h3)
                    (there n2 (close d3) (close-Frames tmp (some n2) d3 e3))
                    (λ d4 r. finish_fine n2 d4 r))))

  remove_fine : (d : Disk) → AllFine d → (remove tmp d).1.nodes tmp ≡ none
  unfolding remove
  remove_fine d h = at (next_fate d.fates) (ap next_fate h)
    where
      gone : (o : Option Node) → d.nodes tmp ≡ o → (removed tmp o (aged d)).1.nodes tmp ≡ none
      gone none e = e
      gone (some n) e = put_self tmp none (aged d)

      at :
          (f : Fate)
          → f ≡ fine
          → (fated {A = Unit {0}} f (λ d'. removed tmp (d'.nodes tmp) d') d).1.nodes tmp ≡ none
      at fine e = gone (d.nodes tmp) refl
      at (fails x n) e = cc

  cleaned_fine :
      (r : Result IoError (Unit {0}) × Disk)
      → Succeeds r
      → (r.0 ≡ ok tt) × ((remove tmp r.1).1.nodes tmp ≡ none)
  cleaned_fine (ok u, d) h = (refl, remove_fine d h)
  cleaned_fine (err e, d) h = absurd h

  done_fine :
      (b : Bytes) (mode : ℕ) (d : Disk)
      → AllFine d
      → d.nodes tmp ≡ none
      → ((atomic tmp p b mode d).0 ≡ ok tt) × ((atomic tmp p b mode d).1.nodes tmp ≡ none)
  unfolding atomic
  done_fine b mode d h e = opened (open_exclusive tmp 384 d) (
      pair-Ends (λ _. AllFine)
        (λ _ d'. (d.nodes tmp ≡ none) × (d'.nodes tmp ≡ some (written d 384 []))) (λ _. Unit {0})
        (open_exclusive tmp 384 d) (open_fine tmp 384 d h e)
        (open_exclusive-Ends tmp 384 d (λ _. Unit {0}) (λ _ _. tt)))
    where
      rest : Io (Unit {0})
      rest = finally (remove tmp) (
          chmod tmp mode
          >> (write tmp b >> (sync >> (close >> (rename tmp p >> (attempt sync >> pure tt))))))

      opened :
          (r : Result IoError (Unit {0}) × Disk)
          → Ends
              (λ _ d'.
                AllFine d' × ((d.nodes tmp ≡ none) × (d'.nodes tmp ≡ some (written d 384 []))))
              Never
              r
          → ((after r (λ _. rest)).0 ≡ ok tt) × ((after r (λ _. rest)).1.nodes tmp ≡ none)
      opened (ok u, d') (f, (g, k)) = cleaned_fine _ (body_fine b mode (written d 384 []) d' (f, k))
      opened (err x, d') k = absurd k

  -- Where no operation of the system fails and the temporary name, another than the target's, is
  -- free, `Atomic` succeeds: the target holds the bytes with the mode, and the temporary file is gone.
  pub atomic_fine :
      (tmp == p) ≡ false
      → (b : Bytes) (mode : ℕ) (d : Disk) → AllFine d
      → d.nodes tmp ≡ none
      → ((atomic tmp p b mode d).0 ≡ ok tt)
        × ((atomic tmp p b mode d).1.nodes p ≡ some (written d mode b))
        × ((atomic tmp p b mode d).1.nodes tmp ≡ none)
  atomic_fine apart b mode d h e =
      let (done, gone) = done_fine b mode d h e in
      (done, Ends-ok _ _ (atomic tmp p b mode d) done (atomic_lem tmp p apart b mode d).0, gone)
