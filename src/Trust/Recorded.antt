-- ===== src/Trust/Recorded.antt =====
-- internal/trust/trust.go: the code around the manager, and the receipt that an installation writes.
use utlsproxy.Common.{
  ℕ, false, Option, none, some, ◌≡◌, refl, ◌∙◌, inl, inr, ◌==◌, list_eq, nat_eq, [], ◌∷◌, ◌++◌,
  arith, list_beq, subst, sym,
}
use utlsproxy.Common.Outcome.{Result, ok, err}
use utlsproxy.Common.Text.{Bytes, codes}
use utlsproxy.Disk.{FilePath, IoError, Disk, Node, remove}
use utlsproxy.Disk.Frame.{remove-Frames}
use utlsproxy.Disk.Rules.{Ends as DiskEnds}
use utlsproxy.Files.{exclusive}
use utlsproxy.Files.Whole.{exclusive-Frames, exclusive_lem, written}
use utlsproxy.Trust.{Certificate, Receipt, Manager, pending}
use utlsproxy.Trust.Execute.{
  receipt_of, recovery_of, receipt_in, record_pending, kept_or_undone, join, inspect,
}
use utlsproxy.Trust.Reads.{Inspects}
use utlsproxy.Trust.Rules.{Ends, Steady, attempt-Steady, given-Steady, on_disk-Steady, pure-Steady}
use utlsproxy.Trust.Triple.{
  raise-Triple, Triple, bind-Triple, Present, Safe, Steady-Present, Steady-Safe, quiet,
}
use utlsproxy.Trust.World.{
  Run, TrustState, ◌>>◌, ◌>>=◌, attempt, on_disk, on_system, observe, fill, given,
}

-- What the theorem relies on of the code around the manager: an inspection changes neither the
-- receipt nor the trust store; the tools that change the store, and the test of the state directory,
-- leave the receipt alone.
pub record IsLawful {W : Type 0} (M : Manager W) (c : Certificate) (q : FilePath) : Type 0 where
  pub inspects : Inspects M c q
  pub adds : (p : FilePath) (d : Disk) (s : W) → (M.backend.add c p (d, s)).1.0.nodes q ≡ d.nodes q
  pub withdraws :
      (p : FilePath) (d : Disk) (s : W) → (M.backend.withdraw c p (d, s)).1.0.nodes q ≡ d.nodes q
  pub protects : (d : Disk) → (M.protect M.dir d).1.nodes q ≡ d.nodes q

module _ {W : Type 0} (M : Manager W) (c : Certificate) where
  -- A store in which an inspection, with no error, does not find the certificate installed is bare.
  abbrev pub Sees : (W → Type 0) → Type 0
  Sees IsBare =
      (d : Disk) (s : W)
      → (M.backend.inspect c (d, s)).0.1 ≡ ok tt
      → (M.backend.inspect c (d, s)).0.0.installed ≡ false
      → IsBare s

  -- A removal without an error left this store.
  abbrev pub IsReported : W → Type 0
  IsReported s =
      (p : FilePath) × (d : Disk) × (s0 : W) × ((M.backend.withdraw c p (d, s0)).0 ≡ ok tt)
      × ((M.backend.withdraw c p (d, s0)).1.1 ≡ s)

  -- A store that a removal without an error left satisfies the predicate.
  abbrev pub Covers : (W → Type 0) → Type 0
  Covers IsBare = (s : W) → IsReported s → IsBare s

beq-append : (x a b : Bytes) → (x ++ a == x ++ b) ≡ (a == b)
unfolding list_beq
beq-append [] a b = refl
beq-append (c ∷ x) a b = ground (arith, beq-append x a b)

module _ {W : Type 0} (M : Manager W) (c : Certificate) (IsBare : W → Type 0) where
  abbrev pub q : FilePath
  q = receipt_of M c

  module _ (law : IsLawful M c q) (apart : (M.tmp == q) ≡ false) where
    recovery_apart : (recovery_of M c == q) ≡ false
    unfolding join list_beq
    recovery_apart =
        beq-append M.dir (b'/' ∷ (c.sha256 ++ codes ".crt")) (b'/' ∷ (c.sha256 ++ codes ".json"))
        ∙ beq-append (b'/' ∷ []) (c.sha256 ++ codes ".crt") (c.sha256 ++ codes ".json")
        ∙ beq-append c.sha256 (codes ".crt") (codes ".json")

    -- what an exclusive creation of the receipt leaves
    abbrev pub Written : Result IoError (Unit {0}) → Run W → Type 0
    Written (ok u) = Present q IsBare
    Written (err e) = Safe q IsBare

    Written-Triple :
        (b : Bytes) (mode : ℕ)
        → Triple (Safe q IsBare) (attempt (on_disk (exclusive q b mode))) Written (Safe q IsBare)
    unfolding attempt on_disk
    Written-Triple b mode = record {
      ends = λ r s. at r s (exclusive q b mode r.disk) (exclusive_lem q b mode r.disk).0;
    }
      where
        at :
            (r : Run W)
            → Safe q IsBare r
            → (x : Result IoError (Unit {0}) × Disk)
            → DiskEnds
                (λ _ d'. (r.disk.nodes q ≡ none) × (d'.nodes q ≡ some (written r.disk mode b)))
                (λ d'. (n : Node) → r.disk.nodes q ≡ some n → d'.nodes q ≡ some n)
                x
            → Written x.0 (record r { disk = x.1 })
        at r s (ok u, d') (f, e) = (_, e)
        at r (inl b) (err e, d') h = inl b
        at r (inr (n, e)) (err x, d') h = inr (n, h n e)

    -- what a removal from the trust store leaves
    abbrev pub Withdrawn : Result IoError (Unit {0}) → Run W → Type 0
    Withdrawn (ok u) r = IsBare r.store
    Withdrawn (err e) r = Present q IsBare r

    pub withdraw-Triple :
        Covers M c IsBare
        → (p : FilePath)
        → Triple
            (Present q IsBare)
            (attempt (on_system (M.backend.withdraw c p)))
            Withdrawn
            (Safe q IsBare)
    unfolding attempt on_system
    withdraw-Triple covers p = record {
      ends = λ r (n, e).
          at r n (M.backend.withdraw c p (r.disk, r.store)) (law.withdraws p r.disk r.store ∙ e)
            (λ h. covers _ (p, r.disk, r.store, h, refl));
    }
      where
        at :
            (r : Run W) (n : Node) (x : Result IoError (Unit {0}) × (Disk × W))
            → x.1.0.nodes q ≡ some n
            → (x.0 ≡ ok tt → IsBare x.1.1)
            → Withdrawn x.0 (record r { disk = x.1.0; store = x.1.1 })
        at r n (ok u, (d, s)) e b = b refl
        at r n (err x, (d, s)) e b = (n, e)

    -- the receipt outlives a removal from the trust store
    pub tried-Triple :
        (p : FilePath)
        → Triple
            (Present q IsBare)
            (attempt (on_system (M.backend.withdraw c p)))
            (λ _. Present q IsBare)
            (Safe q IsBare)
    unfolding attempt on_system
    tried-Triple p = record {
      ends = λ r (n, e).
          at r n (M.backend.withdraw c p (r.disk, r.store)) (law.withdraws p r.disk r.store ∙ e);
    }
      where
        at :
            (r : Run W) (n : Node) (x : Result IoError (Unit {0}) × (Disk × W))
            → x.1.0.nodes q ≡ some n
            → Present q IsBare (record r { disk = x.1.0; store = x.1.1 })
        at r n (a, (d, s)) e = (n, e)

    -- what the inspection behind a removal tells
    abbrev pub Looked : Result IoError (Unit {0}) → Run W → Type 0
    Looked a r =
        Present q IsBare r × (a ≡ ok tt → r.report.state.installed ≡ false → IsBare r.store)

    pub look-Triple :
        Sees M c IsBare → Triple (Present q IsBare) (attempt (inspect M c)) Looked (Safe q IsBare)
    unfolding attempt inspect observe ◌>>=◌ fill given
    look-Triple sees = record {
      ends = λ r (n, e).
          let (same, still) = law.inspects r.disk r.store in
          at r n (M.backend.inspect c (r.disk, r.store)) (same ∙ e)
            (λ o i. subst IsBare (sym still) (sees r.disk r.store o i));
    }
      where
        at :
            (r : Run W) (n : Node) (x : (TrustState × Result IoError (Unit {0})) × (Disk × W))
            → x.1.0.nodes q ≡ some n
            → (x.0.1 ≡ ok tt → x.0.0.installed ≡ false → IsBare x.1.1)
            → Looked x.0.1 (record r {
              report = record (r.report) { state = x.0.0 };
              disk = x.1.0;
              store = x.1.1;
            })
        at r n ((s, a), (d, w)) e b = ((n, e), b)

    pub add-Triple :
        (p : FilePath)
        → Triple
            (Present q IsBare)
            (on_system (M.backend.add c p))
            (λ _. Present q IsBare)
            (Present q IsBare)
    unfolding on_system
    add-Triple p = record {
      ends =
          λ r (n, e). at r n (M.backend.add c p (r.disk, r.store)) (law.adds p r.disk r.store ∙ e);
    }
      where
        at :
            (r : Run W) (n : Node) (x : Result IoError (Unit {0}) × (Disk × W))
            → x.1.0.nodes q ≡ some n
            → Ends
                (λ _. Present q IsBare)
                (Present q IsBare)
                (x.0, record r { disk = x.1.0; store = x.1.1 })
        at r n (ok u, (d, s)) e = (n, e)
        at r n (err x, (d, s)) e = (n, e)

    remove_recovery-Steady : Steady {W = W} q (on_disk (remove (recovery_of M c)))
    remove_recovery-Steady =
        on_disk-Steady q _
          (λ d. remove-Frames q (d.nodes q) (recovery_of M c) d recovery_apart refl)

    -- what is known of the receipt that was read
    abbrev pub Known : Option Receipt → Run W → Type 0
    Known none = Safe q IsBare
    Known (some o) = Present q IsBare

    kept_or_undone-Triple :
        (x : Result IoError (Unit {0}))
        → Triple (Written x) (kept_or_undone M c x) (λ _. Present q IsBare) (Safe q IsBare)
    kept_or_undone-Triple (ok u) = Steady-Present q IsBare _ (pure-Steady q u)
    kept_or_undone-Triple (err e) =
        bind-Triple _ (λ _. Safe q IsBare) _ _ _ _
          (Steady-Safe q IsBare _ (attempt-Steady q _ remove_recovery-Steady))
          (λ _. raise-Triple (Safe q IsBare) _ e)

    pub record_pending-Triple :
        (owned : Option Receipt)
        → Triple (Known owned) (record_pending M c owned) (λ _. Present q IsBare) (Safe q IsBare)
    unfolding record_pending ◌>>◌
    record_pending-Triple (some o) = Steady-Present q IsBare _ (pure-Steady q tt)
    record_pending-Triple none =
        quiet q IsBare (Safe q IsBare) _ _ _
          (Steady-Safe q IsBare _ (
            attempt-Steady q _ (
              on_disk-Steady q _ (λ d.
                exclusive-Frames (recovery_of M c) q (d.nodes q) recovery_apart c.pem 420 d refl))))
          (λ r.
            quiet q IsBare (Safe q IsBare) _ _ _ (Steady-Safe q IsBare _ (given-Steady q _)) (λ _.
              bind-Triple _ Written _ _ _ _ (Written-Triple (receipt_in M pending c) 384)
                kept_or_undone-Triple))
