-- ===== src/Trust/Removal.antt =====
-- internal/trust/trust.go: the removal of a certificate that has a receipt.
use utlsproxy.Common.{
  Bool, false, Option, none, some, ◌≡◌, refl, inl, inr, ◌==◌, list_eq, nat_eq, not, true,
}
use utlsproxy.Common.Outcome.{Result, ok, err}
use utlsproxy.Common.Text.{Bytes}
use utlsproxy.Disk.{FilePath, IoError}
use utlsproxy.Trust.{Certificate, Receipt, Manager}
use utlsproxy.Trust.Dry.{do_untrust-Steady}
use utlsproxy.Trust.Execute.{do_untrust, receipt_of, wrapped, uninstall}
use utlsproxy.Trust.Rules.{fill-Steady, given-Steady}
use utlsproxy.Trust.Triple.{
  behind-Triple, if-Triple, Bare, Steady-Bare, on_disk-Bare, Triple, bind-Triple, Present, Safe,
  Steady-Present, Steady-Safe, quiet,
}
use utlsproxy.Trust.World.{Run, pure, ◌>>◌, given, get, require, raise}
use utlsproxy.Trust.Recorded.{IsLawful, Sees, Looked, tried-Triple, look-Triple, Known}
use utlsproxy.Trust.Undo.{leaf}

module _ {W : Type 0} (M : Manager W) (c : Certificate) (IsBare : W → Type 0)
    (law : IsLawful M c (receipt_of M c)) (apart : (M.tmp == receipt_of M c) ≡ false) where
  abbrev q : FilePath
  q = receipt_of M c

  abbrev S : Run W → Type 0
  S = Safe q IsBare

  abbrev P : Run W → Type 0
  P = Present q IsBare

  abbrev B : Run W → Type 0
  B = Bare q IsBare

  abbrev K : Option Receipt → Run W → Type 0
  K = Known M c IsBare law apart

  -- what the report tells once the inspection behind a removal has succeeded
  abbrev Told : Run W → Type 0
  Told r = P r × (r.report.state.installed ≡ false → IsBare r.store)

  wrapped-Told :
      (text : Bytes) (x : Result IoError (Unit {0}))
      → Triple (Looked M c IsBare law apart x) (given (wrapped text x)) (λ _. Told) S
  unfolding given
  wrapped-Told text (ok u) = record { ends = λ r (p, b). (p, b refl) }
  wrapped-Told text (err e) = record { ends = λ r (p, b). inr p }

  get-Told :
      Triple Told get (λ run r. P r × (run.report.state.installed ≡ false → IsBare r.store)) S
  unfolding get
  get-Told = record { ends = λ r t. t }

  verified-Triple :
      (there : Bool) (e : IoError)
      → Triple (λ r. P r × (there ≡ false → IsBare r.store)) (require (not there) e) (λ _. B) S
  unfolding require pure raise
  verified-Triple true e = record { ends = λ r (p, b). inr p }
  verified-Triple false e = record { ends = λ r (p, b). b refl }

  uninstall-Triple : Sees M c IsBare → Triple P (uninstall M c) (λ _. S) S
  unfolding uninstall ◌>>◌
  uninstall-Triple sees = quiet q IsBare P _ _ _ (tried-Triple M c IsBare law apart _) (λ w.
      quiet q IsBare P _ _ _ (Steady-Present q IsBare _ (given-Steady q _)) (λ _.
        bind-Triple _ (Looked M c IsBare law apart) _ _ _ _ (look-Triple M c IsBare law apart sees)
          (λ x.
            bind-Triple _ (λ _. Told) _ _ _ _ (wrapped-Told _ x)
              (λ _. bind-Triple _ _ _ _ _ _ get-Told (λ run.
                bind-Triple _ (λ _. B) _ _ _ _ (verified-Triple run.report.state.installed _)
                  (λ _. quiet q IsBare B _ _ _ (on_disk-Bare q IsBare _) (λ _.
                    behind-Triple _ (λ _ r b. inl b)
                      (Steady-Bare q IsBare _ (fill-Steady q _)))))))))

  pub do_untrust-Triple :
      Sees M c IsBare
      → (owned : Option Receipt) (dry : Bool)
      → Triple (K owned) (do_untrust M c owned dry) (λ _. S) S
  unfolding do_untrust
  do_untrust-Triple sees none dry = Steady-Safe q IsBare _ (do_untrust-Steady M q c dry)
  do_untrust-Triple sees (some o) dry =
      if-Triple _ S S _ _ _ _ (leaf M c IsBare law apart (some o) _ (fill-Steady q _))
        (uninstall-Triple sees)
