-- ===== src/Trust/Rollback.antt =====
-- internal/trust/trust.go: the receipt and the trust store over the whole of `Execute`.
use utlsproxy.Common.{
  Bool, false, ◌&&◌, Option, none, some, ◌≡◌, refl, inl, inr, ◌==◌, list_eq, nat_eq, ◌⊎◌,
}
use utlsproxy.Common.Outcome.{Result, ok, err}
use utlsproxy.Disk.{FilePath, IoError, Disk}
use utlsproxy.Disk.Frame.{Frames-end}
use utlsproxy.Disk.Rules.{Ends as DiskEnds}
use utlsproxy.Trust.{Certificate, Receipt, Manager, load}
use utlsproxy.Trust.Dry.{do_status-Steady}
use utlsproxy.Trust.Execute.{
  act, proceed, execute, receipt_of, read_receipt, is_status, found_receipt, is_permission,
}
use utlsproxy.Trust.Reads.{read_receipt-Frames, check_recovery-Steady, inspect-Steady}
use utlsproxy.Trust.Reads.Found.{Found, read_receipt-Found}
use utlsproxy.Trust.Rules.{
  Steady, require-Steady, if-Steady, fill-Steady, given-Steady, pure-Steady, raise-Steady,
}
use utlsproxy.Trust.Start.{lock_apart, execute-keeps, enter-Steady}
use utlsproxy.Trust.Triple.{
  if-Triple, Bare, raise-Triple, Triple, bind-Triple, Present, Safe, Steady-Safe, quiet, Safe-Same,
}
use utlsproxy.Trust.World.{
  Action, trust, untrust, trust_status, unknown, Run, Act, pure, ◌>>=◌, ◌>>◌, attempt, on_disk,
}
use utlsproxy.Trust.Recorded.{IsLawful, Sees, Covers, IsReported, Known}
use utlsproxy.Trust.Undo.{leaf, Steady-Known, do_trust-Triple}
use utlsproxy.Trust.Removal.{do_untrust-Triple}

module _ {W : Type 0} (M : Manager W) (c : Certificate) (IsBare : W → Type 0)
    (law : IsLawful M c (receipt_of M c)) (apart : (M.tmp == receipt_of M c) ≡ false) where
  abbrev q : FilePath
  q = receipt_of M c

  abbrev S : Run W → Type 0
  S = Safe q IsBare

  abbrev P : Run W → Type 0
  P = Present q IsBare

  abbrev B : Run W → Type 0
  B = Bare q IsBare

  abbrev K : Option Receipt → Run W → Type 0
  K = Known M c IsBare law apart

  -- what is assumed of the predicate for an action
  abbrev pub Fits : Action → Type 0
  Fits trust = Covers M c IsBare
  Fits _ = Sees M c IsBare

  act-Triple :
      (action : Action) (owned : Option Receipt) (dry : Bool)
      → Fits action
      → Triple (K owned) (act M action c owned dry) (λ _. S) S
  unfolding act
  act-Triple trust owned dry covers = do_trust-Triple M c IsBare law apart covers owned dry
  act-Triple untrust owned dry sees = do_untrust-Triple M c IsBare law apart sees owned dry
  act-Triple trust_status owned dry sees = leaf M c IsBare law apart owned _ (do_status-Steady M q)
  act-Triple (unknown b) owned dry sees = leaf M c IsBare law apart owned _ (raise-Steady q _)

  -- the receipt as it is read
  abbrev Read : Result IoError (Option Receipt) → Run W → Type 0
  Read (ok owned) = K owned
  Read (err e) = S

  Read-Triple : Triple S (attempt (on_disk (read_receipt M q c))) Read S
  unfolding attempt on_disk
  Read-Triple = record {
    ends = λ r s. at r s (read_receipt M q c r.disk) (read_receipt-Found M c q r.disk) (
        Frames-end q (r.disk.nodes q) _ (read_receipt-Frames M c q q (r.disk.nodes q) r.disk refl));
  }
    where
      at :
          (r : Run W)
          → S r
          → (x : Result IoError (Option Receipt) × Disk) → DiskEnds (Found q) (λ _. Unit {0}) x
          → x.1.nodes q ≡ r.disk.nodes q
          → Read x.0 (record r { disk = x.1 })
      at r s (ok (some o), d) f e = f
      at r s (ok none, d) f e = Safe-Same q IsBare r (record r { disk = d }) (e, refl) s
      at r s (err x, d) f e = Safe-Same q IsBare r (record r { disk = d }) (e, refl) s

  found-Triple :
      (action : Action) (x : Result IoError (Option Receipt))
      → Triple (Read x) (found_receipt M action x) K S
  unfolding pure
  found-Triple action (ok owned) = record { ends = λ r k. k }
  found-Triple action (err e) =
      if-Triple _ S S K (is_status action && is_permission e) _ _
        (bind-Triple _ (λ _. S) K _ _ _ (Steady-Safe q IsBare _ (fill-Steady q _))
          (λ _. record { ends = λ r k. k }))
        (raise-Triple S K e)

  steps :
      {A : Type 0} (R : A → Run W → Type 0) {B' : Type 0} (m : Act W B') (f : B' → Act W A)
      → Steady q m
      → ((b : B') → Triple S (f b) R S)
      → Triple S (m >>= f) R S
  steps R m f h k = quiet q IsBare S R m f (Steady-Safe q IsBare m h) k

  proceed-Triple :
      (action : Action) (path : FilePath) (dry : Bool)
      → Fits action
      → Triple S (proceed M action path dry c) (λ _. S) S
  unfolding proceed ◌>>◌
  proceed-Triple action path dry fits = steps _ _ _ (given-Steady q _) (λ absolute.
      steps _ _ _ (fill-Steady q _) (λ _. steps _ _ _ (require-Steady q _ _) (λ _.
        steps _ _ _
          (if-Steady q _ _ _ (pure-Steady q tt) (enter-Steady M q law.protects (lock_apart M c)))
          (λ _. bind-Triple _ Read _ _ _ _ Read-Triple (λ x.
            bind-Triple _ K _ _ _ _ (found-Triple action x) (λ owned.
              quiet q IsBare (K owned) _ _ _
                (Steady-Known M c IsBare law apart owned _ (fill-Steady q _))
                (λ _.
                  quiet q IsBare (K owned) _ _ _
                    (Steady-Known M c IsBare law apart owned _ (check_recovery-Steady M c q owned))
                    (λ _.
                      quiet q IsBare (K owned) _ _ _
                        (Steady-Known M c IsBare law apart owned _
                          (inspect-Steady M c q law.inspects))
                        (λ _. act-Triple action owned dry fits)))))))))

module _ {W : Type 0} (M : Manager W) (c : Certificate) (IsBare : W → Type 0) where
  -- What the store is like where there is no receipt: the rollback of an installation relies on the
  -- report of the removal.
  abbrev pub IsClean : Action → W → Type 0
  IsClean trust s = IsBare s ⊎ IsReported M c s
  IsClean untrust s = IsBare s
  IsClean trust_status s = IsBare s
  IsClean (unknown b) s = IsBare s

  IsClean-Fits :
      (law : IsLawful M c (receipt_of M c)) (apart : (M.tmp == receipt_of M c) ≡ false)
      → Sees M c IsBare
      → (action : Action) → Fits M c (IsClean action) law apart action
  IsClean-Fits law apart sees trust = λ s x. inr x
  IsClean-Fits law apart sees untrust = sees
  IsClean-Fits law apart sees trust_status = sees
  IsClean-Fits law apart sees (unknown b) = sees

  Safe-IsClean :
      (action : Action) (r : Run W)
      → Safe (receipt_of M c) IsBare r
      → Safe (receipt_of M c) (IsClean action) r
  Safe-IsClean action r (inr p) = inr p
  Safe-IsClean trust r (inl b) = inl (inl b)
  Safe-IsClean untrust r (inl b) = inl b
  Safe-IsClean trust_status r (inl b) = inl b
  Safe-IsClean (unknown a) r (inl b) = inl b

-- However `Execute` ends, with any action and whichever operation fails: if at its start the trust
-- store was bare of the certificate or the receipt was there, so it is at the end. With the action
-- `trust` the store may instead be one that a removal without an error left. The tools and the test
-- of the state directory leave the receipt alone, inspections only look, and a store in which an
-- inspection without an error does not find the certificate installed is bare.
pub execute-Safe :
    {W : Type 0} (M : Manager W) (IsBare : W → Type 0) (action : Action) (path : FilePath)
    (dry : Bool) (c : Certificate) (r : Run W)
    → (load M.crypto path r.disk).0 ≡ ok c
    → IsLawful M c (receipt_of M c)
    → Sees M c IsBare
    → (M.tmp == receipt_of M c) ≡ false
    → Safe (receipt_of M c) IsBare r
    → Safe (receipt_of M c) (IsClean M c IsBare action) (execute M action path dry r).1
execute-Safe M IsBare action path dry c r e law sees apart s =
    execute-keeps M (receipt_of M c) c (Safe (receipt_of M c) (IsClean M c IsBare action))
      (Safe-Same (receipt_of M c) (IsClean M c IsBare action)) action path dry r e
      (proceed-Triple M c (IsClean M c IsBare action) law apart action path dry
        (IsClean-Fits M c IsBare law apart sees action))
      (Safe-IsClean M c IsBare action r s)
