-- ===== src/Trust/Undo.antt =====
-- internal/trust/trust.go: an installation, with the rollback of one that fails.
use utlsproxy.Common.{
  ℕ, Bool, false, ◌&&◌, Option, none, some, ◌≡◌, ◌∙◌, inl, inr, ◌==◌, list_eq, nat_eq,
}
use utlsproxy.Common.Outcome.{Result, ok, err}
use utlsproxy.Common.Text.{Bytes}
use utlsproxy.Disk.{FilePath, IoError, Disk, Node}
use utlsproxy.Disk.Rules.{Ends as DiskEnds}
use utlsproxy.Files.{atomic}
use utlsproxy.Files.Whole.{written}
use utlsproxy.Files.Replace.{atomic_lem}
use utlsproxy.Trust.{Certificate, Receipt, Manager, installed}
use utlsproxy.Trust.Execute.{
  do_trust, receipt_of, receipt_in, is_none, install, add_trust, unmanage, undo_files, roll_back,
  installed_or_undone, remove_receipt,
}
use utlsproxy.Trust.Reads.{inspect-Steady, probe-Steady}
use utlsproxy.Trust.Rules.{
  Ends, Steady, require-Steady, fill-Steady, get-Steady, given-Steady, pure-Steady, raise-Steady,
}
use utlsproxy.Trust.Triple.{
  on_disk-Stays, before-Triple, behind-Triple, if-Triple, attempt-Triple, Bare, Steady-Kept,
  Steady-Bare, raise-Triple, Triple, bind-Triple, Present, Safe, Steady-Present, Steady-Safe, quiet,
}
use utlsproxy.Trust.World.{Run, Act, ◌>>◌, on_disk}
use utlsproxy.Trust.Recorded.{
  IsLawful, Covers, Withdrawn, Known, withdraw-Triple, add-Triple, record_pending-Triple,
}

module _ {W : Type 0} (M : Manager W) (c : Certificate) (IsBare : W → Type 0)
    (law : IsLawful M c (receipt_of M c)) (apart : (M.tmp == receipt_of M c) ≡ false) where
  abbrev q : FilePath
  q = receipt_of M c

  abbrev S : Run W → Type 0
  S = Safe q IsBare

  abbrev P : Run W → Type 0
  P = Present q IsBare

  abbrev B : Run W → Type 0
  B = Bare q IsBare

  abbrev K : Option Receipt → Run W → Type 0
  K = Known M c IsBare law apart

  unmanage-Triple : (x : Result IoError (Unit {0})) → Triple B (unmanage M x) (λ _. B) S
  unmanage-Triple (ok u) =
      bind-Triple _ (λ _. B) _ _ _ _ (Steady-Bare q IsBare _ (fill-Steady q _))
        (λ _. Steady-Bare q IsBare _ (pure-Steady q (ok u)))
  unmanage-Triple (err e) = Steady-Bare q IsBare _ (pure-Steady q (err e))

  undo_files-Triple :
      (x : Result IoError (Unit {0}))
      → Triple (Withdrawn M c IsBare law apart x) (undo_files M c x) (λ _. S) S
  undo_files-Triple (err e) =
      behind-Triple _ (λ _ r p. inr p) (Steady-Present q IsBare _ (pure-Steady q (err e)))
  undo_files-Triple (ok u) =
      bind-Triple _ (λ _. B) _ _ _ _
        (attempt-Triple B B S _ (on_disk-Stays q IsBare (remove_receipt M c)))
        (λ x. behind-Triple _ (λ _ r b. inl b) (unmanage-Triple x))

  roll_back-Triple : Covers M c IsBare → (e : IoError) → Triple P (roll_back M c e) (λ _. S) S
  unfolding roll_back ◌>>◌
  roll_back-Triple covers e =
      bind-Triple _ (Withdrawn M c IsBare law apart) _ _ _ _
        (withdraw-Triple M c IsBare law apart covers _)
        (λ w.
          bind-Triple _ (λ _. S) _ _ _ _ (undo_files-Triple w)
            (λ x.
              quiet q IsBare S _ _ _ (Steady-Safe q IsBare _ (probe-Steady M c q law.inspects))
                (λ p.
                  quiet q IsBare S _ _ _ (Steady-Safe q IsBare _ (fill-Steady q _))
                    (λ _. raise-Triple S _ _))))

  add_trust-Triple : Triple P (add_trust M c) (λ _. P) P
  unfolding add_trust ◌>>◌
  add_trust-Triple =
      bind-Triple _ (λ _. P) _ _ _ _ (add-Triple M c IsBare law apart _)
        (λ _.
          bind-Triple _ (λ _. P) _ _ _ _
            (Steady-Kept q IsBare _ (inspect-Steady M c q law.inspects))
            (λ _.
              bind-Triple _ (λ _. P) _ _ _ _ (Steady-Kept q IsBare _ (get-Steady q))
                (λ run. Steady-Kept q IsBare _ (require-Steady q _ _))))

  replace-Triple : (b : Bytes) (mode : ℕ) → Triple P (on_disk (atomic M.tmp q b mode)) (λ _. P) P
  unfolding on_disk
  replace-Triple b mode = record {
    ends = λ r (n, e).
        at r n e (atomic M.tmp q b mode r.disk) (atomic_lem M.tmp q apart b mode r.disk).0;
  }
    where
      at :
          (r : Run W) (n : Node)
          → r.disk.nodes q ≡ some n
          → (x : Result IoError (Unit {0}) × Disk)
          → DiskEnds
              (λ _ d'. d'.nodes q ≡ some (written r.disk mode b))
              (λ d'. d'.nodes q ≡ r.disk.nodes q)
              x
          → Ends (λ _. P) P (x.0, record r { disk = x.1 })
      at r n e (ok u, d') h = (_, h)
      at r n e (err y, d') h = (n, h ∙ e)

  installed_or_undone-Triple :
      Covers M c IsBare
      → (x : Result IoError (Unit {0})) → Triple P (installed_or_undone M c x) (λ _. S) S
  unfolding ◌>>◌
  installed_or_undone-Triple covers (err e) = roll_back-Triple covers e
  installed_or_undone-Triple covers (ok u) =
      bind-Triple _ (λ _. P) _ _ _ _
        (attempt-Triple P P S _ (replace-Triple (receipt_in M installed c) 384))
        (λ r.
          quiet q IsBare P _ _ _ (Steady-Present q IsBare _ (given-Steady q _))
            (λ _. behind-Triple _ (λ _ r' p. inr p) (Steady-Present q IsBare _ (fill-Steady q _))))

  install-Triple :
      Covers M c IsBare → (owned : Option Receipt) → Triple (K owned) (install M c owned) (λ _. S) S
  unfolding install ◌>>◌
  install-Triple covers owned =
      bind-Triple _ (λ _. P) _ _ _ _ (record_pending-Triple M c IsBare law apart owned)
        (λ _. quiet q IsBare P _ _ _ (Steady-Present q IsBare _ (fill-Steady q _)) (λ _.
          bind-Triple _ (λ _. P) _ _ _ _ (attempt-Triple P P S _ add_trust-Triple)
            (installed_or_undone-Triple covers)))

  pub Known-Safe : (owned : Option Receipt) (r : Run W) → K owned r → S r
  Known-Safe none r k = k
  Known-Safe (some o) r k = inr k

  pub Steady-Known :
      {A : Type 0} (owned : Option Receipt) (m : Act W A)
      → Steady q m
      → Triple (K owned) m (λ _. K owned) S
  Steady-Known none m h = Steady-Safe q IsBare m h
  Steady-Known (some o) m h = Steady-Present q IsBare m h

  pub leaf :
      {A : Type 0} (owned : Option Receipt) (m : Act W A)
      → Steady q m
      → Triple (K owned) m (λ _. S) S
  leaf owned m h = before-Triple (K owned) (Known-Safe owned) (Steady-Safe q IsBare m h)

  pub do_trust-Triple :
      Covers M c IsBare
      → (owned : Option Receipt) (dry : Bool) → Triple (K owned) (do_trust M c owned dry) (λ _. S) S
  unfolding do_trust
  do_trust-Triple covers owned dry =
      quiet q IsBare (K owned) _ _ _ (Steady-Known owned _ (get-Steady q)) (λ run.
        if-Triple _ S S _ run.report.state.trusted _ _ (leaf owned _ (fill-Steady q _)) (
          if-Triple _ S S _ (run.report.state.installed && is_none owned) _ _
            (leaf owned _ (raise-Steady q _))
            (if-Triple _ S S _ dry _ _ (leaf owned _ (fill-Steady q _))
              (install-Triple covers owned))))
