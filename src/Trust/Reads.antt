-- ===== src/Trust/Reads.antt =====
-- internal/trust/trust.go: the steps of the manager that leave a file and the trust store alone.
pub mod Found
use utlsproxy.Common.{
  Bool, true, false, ◌&&◌, not, List, [], ◌∷◌, ◌++◌, Option, none, some, ◌≡◌, refl, sym, ◌∙◌, ap,
  ◌⊎◌, inl, inr, ◌==◌, list_eq, nat_eq, if◌then◌else◌, arith, list_beq, ltb, length,
}
use utlsproxy.Common.Outcome.{Result, ok, err}
use utlsproxy.Common.Text.{Bytes, codes}
use utlsproxy.Disk
use utlsproxy.Disk.{
  wrapping, joined, system, in_use, FilePath, IoError, not_exist, Disk, Io, Node, read_file, remove,
  message, lstat, is_regular,
}
use utlsproxy.Disk.Frame.{
  Frames, bind-Frames, attempt-Frames, lstat-Frames, read_file-Frames, require-Frames,
  remove-Frames,
}
use utlsproxy.Disk.Rules.{Ends as DiskEnds}
use utlsproxy.Files.{regular_file, exclusive, atomic}
use utlsproxy.Files.Whole.{exclusive-Frames, exclusive_lem}
use utlsproxy.Files.Replace.{atomic_lem}
use utlsproxy.Trust.{Certificate, Receipt, Backend, Manager, load, Crypto, loaded, parse}
use utlsproxy.Trust.Execute.{
  join, inspect, noted, probe, noted_if_ok, check_recovery, found_receipt, read_receipt,
  read_regular, checked, remove_receipt, enter, record_pending, kept_or_undone, add_trust, unmanage,
  undo_files, roll_back, installed_or_undone, install, do_trust, uninstall, do_untrust, do_status,
  act, proceed, execute, receipt_of, recovery_of, receipt_in, wrapped, is_status, matches,
  is_permission,
}
use utlsproxy.Trust.Rules.{
  Ends, after-Ends, Same, Steady, bind-Steady, attempt-Steady, require-Steady, if-Steady,
  fill-Steady, get-Steady, given-Steady, on_disk-Steady, pure-Steady, raise-Steady, observe-Steady,
  then-Steady,
}
use utlsproxy.Trust.World.{
  Action, trust, untrust, trust_status, unknown, TrustState, Report, Run, Act, Call, pure, raise,
  ◌>>=◌, ◌>>◌, require, attempt, on_disk, on_system, observe, fill, get, given,
}

-- What the theorems rely on of the code around the manager: an inspection changes neither the file
-- at the path nor the trust store.
abbrev pub Inspects : {W : Type 0} → Manager W → Certificate → FilePath → Type 0
Inspects {W} M c q =
    (d : Disk) (s : W)
    → ((M.backend.inspect c (d, s)).1.0.nodes q ≡ d.nodes q)
      × ((M.backend.inspect c (d, s)).1.1 ≡ s)

load-Frames :
    (C : Crypto) (q : FilePath) (x : Option Node) (p : FilePath) (d : Disk)
    → d.nodes q ≡ x
    → Frames q x (load C p d)
unfolding load
load-Frames C q x p d k =
    bind-Frames q x (read_file p) (loaded C) d (read_file-Frames q x p d k)
      (λ b d1 k1. at b d1 k1 (ltb 1048576 (length b)) (parse C b))
  where
    at :
        (b : Bytes) (d1 : Disk)
        → d1.nodes q ≡ x
        → (long : Bool) (r : Result IoError Certificate)
        → Frames q x (
            (if long then Disk.raise (message (codes "CA certificate exceeds 1 MiB")) else λ d'.
            (r, d'))
              d1)
    at b d1 k1 true r = k1
    at b d1 k1 false (ok c) = k1
    at b d1 k1 false (err e) = k1

regular_file-Frames :
    (q : FilePath) (x : Option Node) (p : FilePath) (d : Disk)
    → d.nodes q ≡ x
    → Frames q x (regular_file p d)
unfolding regular_file
regular_file-Frames q x p d k =
    bind-Frames q x (lstat p) _ d (lstat-Frames q x p d k) (λ n d1 k1.
      require-Frames q x (is_regular n.kind) (message (codes "not a regular file")) d1 k1)

pub load-Steady : {W : Type 0} (C : Crypto) (q p : FilePath) → Steady {W = W} q (on_disk (load C p))
load-Steady C q p = on_disk-Steady q (load C p) (λ d. load-Frames C q (d.nodes q) p d refl)

module _ {W : Type 0} (M : Manager W) (c : Certificate) (q : FilePath) where
  checked-Frames :
      (x : Option Node) (r : Result IoError Receipt) (d : Disk)
      → d.nodes q ≡ x
      → Frames q x (checked M c r d)
  checked-Frames x (err e) d k = k
  checked-Frames x (ok o) d k = at (matches M c o)
    where
      at :
          (b : Bool)
          → Frames q x (
              (if b
                  then Disk.pure (some o)
                  else Disk.raise (
                      message
                        (codes "invalid or mismatched trust receipt; refusing to change trust")))
                d)
      at true = k
      at false = k

  pub read_regular-Frames :
      (p : FilePath) (x : Option Node) (r : Result IoError (Unit {0})) (d : Disk)
      → d.nodes q ≡ x
      → Frames q x (read_regular M p c r d)
  read_regular-Frames p x (ok u) d k =
      bind-Frames q x (read_file p) (λ b. checked M c (M.decode b)) d (read_file-Frames q x p d k)
        (λ b d1 k1. checked-Frames x (M.decode b) d1 k1)
  read_regular-Frames p x (err not_exist) d k = k
  read_regular-Frames p x (err Disk.exists) d k = k
  read_regular-Frames p x (err Disk.permission) d k = k
  read_regular-Frames p x (err Disk.in_use) d k = k
  read_regular-Frames p x (err Disk.refused) d k = k
  read_regular-Frames p x (err (system b)) d k = k
  read_regular-Frames p x (err (message b)) d k = k
  read_regular-Frames p x (err (wrapping b e)) d k = k
  read_regular-Frames p x (err (joined e f)) d k = k

  pub read_receipt-Frames :
      (p : FilePath) (x : Option Node) (d : Disk)
      → d.nodes q ≡ x
      → Frames q x (read_receipt M p c d)
  unfolding read_receipt
  read_receipt-Frames p x d k =
      bind-Frames q x (Disk.attempt (regular_file p)) (read_regular M p c) d
        (attempt-Frames q x (regular_file p) d (regular_file-Frames q x p d k))
        (λ r d1 k1. read_regular-Frames p x r d1 k1)

  pub check_recovery-Steady : (o : Option Receipt) → Steady q (check_recovery M c o)
  unfolding check_recovery
  check_recovery-Steady none = pure-Steady q tt
  check_recovery-Steady (some o) =
      bind-Steady q _ _ (attempt-Steady q _ (load-Steady M.crypto q (recovery_of M c)))
        (λ r. bind-Steady q _ _ (given-Steady q _) (λ stored. require-Steady q _ _))

  pub found_receipt-Steady :
      (a : Action) (r : Result IoError (Option Receipt)) → Steady q (found_receipt M a r)
  found_receipt-Steady a (ok o) = pure-Steady q o
  found_receipt-Steady a (err e) =
      if-Steady q _ _ _ (bind-Steady q _ _ (fill-Steady q _) (λ _. pure-Steady q none))
        (raise-Steady q e)

  module _ (inspects : Inspects M c q) where
    pub inspect-Steady : Steady q (inspect M c)
    unfolding inspect
    inspect-Steady =
        bind-Steady q _ _ (observe-Steady q (M.backend.inspect c) inspects)
          (λ (s, e). bind-Steady q _ _ (fill-Steady q _) (λ _. given-Steady q e))

    pub probe-Steady : Steady q (probe M c)
    unfolding probe
    probe-Steady = bind-Steady q _ _ (observe-Steady q (M.backend.inspect c) inspects) at
      where
        at : (x : TrustState × Result IoError (Unit {0})) → Steady q (noted_if_ok M x)
        at (s, ok u) = bind-Steady q _ _ (fill-Steady q _) (λ _. pure-Steady q (ok tt))
        at (s, err e) = pure-Steady q (err e)
