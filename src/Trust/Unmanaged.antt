-- ===== src/Trust/Unmanaged.antt =====
-- internal/trust/trust.go: a removal without a receipt leaves the trust store as it is.
use utlsproxy.Common.{Bool, Option, none, some, ◌≡◌, refl, ◌∙◌, sym}
use utlsproxy.Common.Outcome.{Result, ok, err}
use utlsproxy.Disk.{FilePath, IoError, Disk, Node}
use utlsproxy.Disk.Frame.{Frames-end}
use utlsproxy.Disk.Rules.{Ends as DiskEnds}
use utlsproxy.Trust.{Certificate, Receipt, Manager, load}
use utlsproxy.Trust.Dry.{do_untrust-Steady}
use utlsproxy.Trust.Execute.{
  do_untrust, act, execute, found_receipt, proceed, read_receipt, receipt_of,
}
use utlsproxy.Trust.Reads.{Inspects, check_recovery-Steady, inspect-Steady, read_receipt-Frames}
use utlsproxy.Trust.Reads.Found.{Found, read_receipt-Found}
use utlsproxy.Trust.Rules.{
  Same, Steady, fill-Steady, given-Steady, if-Steady, pure-Steady, require-Steady,
}
use utlsproxy.Trust.Start.{lock_apart, execute-keeps, enter-Steady}
use utlsproxy.Trust.Triple.{Triple, bind-Triple, raise-Triple, either}
use utlsproxy.Trust.World.{Run, untrust, Act, ◌>>=◌, ◌>>◌, attempt, on_disk, pure}

module _ {W : Type 0} (M : Manager W) (c : Certificate) (s : W) where
  abbrev q : FilePath
  q = receipt_of M c

  -- no receipt, and the trust store that there was
  abbrev Untouched : Run W → Type 0
  Untouched r = (r.disk.nodes q ≡ none) × (r.store ≡ s)

  Untouched-Same : (r r' : Run W) → Same q r r' → Untouched r → Untouched r'
  Untouched-Same r r' (d, t) (n, e) = (d ∙ n, t ∙ e)

  Steady-Untouched :
      {A : Type 0} (m : Act W A) → Steady q m → Triple Untouched m (λ _. Untouched) Untouched
  Steady-Untouched m h = record {
    ends = λ r p.
        either q (λ _. Unit {0}) Untouched Untouched (m r) (λ r' x. x)
          (Untouched-Same r (m r).1 (h.same r) p);
  }

  -- no receipt was read
  abbrev Missing : Result IoError (Option Receipt) → Run W → Type 0
  Missing (ok none) r = Untouched r
  Missing (ok (some o)) r = ⊥
  Missing (err e) r = Untouched r

  Missing-read : Triple Untouched (attempt (on_disk (read_receipt M q c))) Missing Untouched
  unfolding attempt on_disk
  Missing-read = record {
    ends = λ r u. at r u (read_receipt M q c r.disk) (read_receipt-Found M c q r.disk) (
        Frames-end q (r.disk.nodes q) _ (read_receipt-Frames M c q q (r.disk.nodes q) r.disk refl));
  }
    where
      at :
          (r : Run W)
          → Untouched r
          → (x : Result IoError (Option Receipt) × Disk) → DiskEnds (Found q) (λ _. Unit {0}) x
          → x.1.nodes q ≡ r.disk.nodes q
          → Missing x.0 (record r { disk = x.1 })
      at r (n, t) (ok none, d) f e = (e ∙ n, t)
      at r (n, t) (ok (some o), d) (m, f) e = absurd (absent m (sym f ∙ e ∙ n))
        where
          absent : (m : Node) → ◌≡◌ {A = Option Node} (some m) none → ⊥
          absent m k = cc
      at r (n, t) (err x, d) f e = (e ∙ n, t)

  abbrev NoneFound : Option Receipt → Run W → Type 0
  NoneFound none r = Untouched r
  NoneFound (some o) r = ⊥

  found-Triple :
      (x : Result IoError (Option Receipt))
      → Triple (Missing x) (found_receipt M untrust x) NoneFound Untouched
  unfolding pure
  found-Triple (ok none) = record { ends = λ r k. k }
  found-Triple (ok (some o)) = record { ends = λ r k. absurd k }
  found-Triple (err e) = raise-Triple Untouched NoneFound e

  NoneFound-step :
      {A B : Type 0} (owned : Option Receipt) (m : Act W A) (f : A → Act W B)
      → Steady q m
      → ((a : A) → Triple (NoneFound owned) (f a) (λ _. Untouched) Untouched)
      → Triple (NoneFound owned) (m >>= f) (λ _. Untouched) Untouched
  NoneFound-step none m f h k =
      bind-Triple Untouched (λ _. Untouched) (λ _. Untouched) Untouched m f (Steady-Untouched m h) k
  NoneFound-step (some o) m f h k = record { ends = λ r x. absurd x }

  NoneFound-untrust :
      (owned : Option Receipt) (dry : Bool)
      → Triple (NoneFound owned) (do_untrust M c owned dry) (λ _. Untouched) Untouched
  NoneFound-untrust none dry = Steady-Untouched _ (do_untrust-Steady M q c dry)
  NoneFound-untrust (some o) dry = record { ends = λ r x. absurd x }

  module _ (inspects : Inspects M c q)
      (protects : (d : Disk) → (M.protect M.dir d).1.nodes q ≡ d.nodes q) where
    steps :
        {A B : Type 0} (m : Act W A) (f : A → Act W B)
        → Steady q m
        → ((a : A) → Triple Untouched (f a) (λ _. Untouched) Untouched)
        → Triple Untouched (m >>= f) (λ _. Untouched) Untouched
    steps m f h k = bind-Triple _ (λ _. Untouched) _ _ _ _ (Steady-Untouched m h) k

    proceed-Triple :
        (path : FilePath) (dry : Bool)
        → Triple Untouched (proceed M untrust path dry c) (λ _. Untouched) Untouched
    unfolding proceed ◌>>◌ act
    proceed-Triple path dry = steps _ _ (given-Steady q _) (λ absolute.
        steps _ _ (fill-Steady q _) (λ _. steps _ _ (require-Steady q _ _) (λ _.
          steps _ _
            (if-Steady q _ _ _ (pure-Steady q tt) (enter-Steady M q protects (lock_apart M c)))
            (λ _. bind-Triple _ Missing _ _ _ _ Missing-read (λ x.
              bind-Triple _ NoneFound _ _ _ _ (found-Triple x) (λ owned.
                NoneFound-step owned _ _ (fill-Steady q _) (λ _.
                  NoneFound-step owned _ _ (check_recovery-Steady M c q owned) (λ _.
                    NoneFound-step owned _ _ (inspect-Steady M c q inspects)
                      (λ _. NoneFound-untrust owned dry)))))))))

-- A removal for which there is no receipt never changes the trust store, however it ends, if
-- inspections do not and the test of the state directory creates no receipt.
pub untrust-unmanaged :
    {W : Type 0} (M : Manager W) (path : FilePath) (dry : Bool) (c : Certificate) (r : Run W)
    → (load M.crypto path r.disk).0 ≡ ok c
    → Inspects M c (receipt_of M c)
    → ((d : Disk) → (M.protect M.dir d).1.nodes (receipt_of M c) ≡ d.nodes (receipt_of M c))
    → r.disk.nodes (receipt_of M c) ≡ none
    → (execute M untrust path dry r).1.store ≡ r.store
untrust-unmanaged M path dry c r e i p n =
    (execute-keeps M (receipt_of M c) c (Untouched M c r.store) (Untouched-Same M c r.store) untrust
      path dry r e (proceed-Triple M c r.store i p path dry) (n, refl)).1
