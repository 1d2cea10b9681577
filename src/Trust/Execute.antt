-- ===== src/Trust/Execute.antt =====
-- internal/trust/trust.go: `readReceipt`, `Execute` and `removeReceipt`.
use utlsproxy.Common.{
  Bool, true, false, ◌&&◌, ◌||◌, not, ◌∷◌, ◌++◌, Option, none, some, if◌then◌else◌, ◌==◌, nat_eq,
  list_eq,
}
use utlsproxy.Common.Outcome.{Result, ok, err}
use utlsproxy.Common.Text.{Bytes, codes}
use utlsproxy.Disk
use utlsproxy.Disk.{
  FilePath, IoError, not_exist, permission, message, wrapping, joined, Io, read_file, remove,
}
use utlsproxy.Files.{regular_file, exclusive, atomic, lock}
use utlsproxy.Trust.{
  Certificate, valid_now, load, Phase, pending, installed, Receipt, known_phase, Manager,
  TrustState,
}
use utlsproxy.Trust.World.{
  Action, trust, untrust, trust_status, unknown, place_beq, Report, Act, pure, raise, ◌>>=◌, ◌>>◌,
  require, attempt, on_disk, on_system, observe, fill, get, given,
}

-- `filepath.Join` of a clean directory and a name
unfoldable pub join : FilePath → Bytes → FilePath
join dir name = dir ++ b'/' ∷ name

abbrev pub is_permission : IoError → Bool
is_permission permission = true
is_permission _ = false

abbrev pub is_none : {A : Type 0} → Option A → Bool
is_none none = true
is_none (some a) = false

abbrev pub is_status : Action → Bool
is_status trust_status = true
is_status _ = false

abbrev pub is_unknown : Action → Bool
is_unknown (unknown b) = true
is_unknown _ = false

abbrev pub is_trust : Action → Bool
is_trust trust = true
is_trust _ = false

abbrev pub not_trusted : IoError
not_trusted = message (codes "CA is not trusted for TLS in the checked system store")

-- an error under a text of the program's own
abbrev pub wrapped : {A : Type 0} → Bytes → Result IoError A → Result IoError A
wrapped text (err e) = err (wrapping text e)
wrapped text (ok a) = ok a

module _ {W : Type 0} (M : Manager W) where
  abbrev pub recovery_of : Certificate → FilePath
  recovery_of c = join M.dir (c.sha256 ++ codes ".crt")

  abbrev pub receipt_of : Certificate → FilePath
  receipt_of c = join M.dir (c.sha256 ++ codes ".json")

  abbrev pub matches : Certificate → Receipt → Bool
  matches c r =
      r.version == 1
      && r.sha256 == c.sha256
      && place_beq r.place (M.backend.place_of c)
      && known_phase r.phase

  abbrev pub checked : Certificate → Result IoError Receipt → Io (Option Receipt)
  checked c (err e) = Disk.raise e
  checked c (ok r) =
      if matches c r
      then Disk.pure (some r)
      else Disk.raise
          (message (codes "invalid or mismatched trust receipt; refusing to change trust"))

  abbrev pub read_regular : FilePath → Certificate → Result IoError (Unit {0}) → Io (Option Receipt)
  read_regular path c (err not_exist) = Disk.pure none
  read_regular path c (err e) = Disk.raise e
  read_regular path c (ok u) = Disk.◌>>=◌ (read_file path) (λ b. checked c (M.decode b))

  -- `readReceipt`
  unfoldable pub read_receipt : FilePath → Certificate → Io (Option Receipt)
  read_receipt path c = Disk.◌>>=◌ (Disk.attempt (regular_file path)) (read_regular path c)

  -- the receipt in `Execute`: a status query that may not read it goes on
  abbrev pub found_receipt : Action → Result IoError (Option Receipt) → Act W (Option Receipt)
  found_receipt action (ok o) = pure o
  found_receipt action (err e) =
      if is_status action && is_permission e
      then (fill (λ r. record r { ownership_known = false }) >>= λ _. pure none)
      else raise e

  -- the recovery certificate of a receipt must be the certificate
  unfoldable pub check_recovery : Certificate → Option Receipt → Act W (Unit {0})
  check_recovery c none = pure tt
  check_recovery c (some o) = do
    r ← attempt (on_disk (load M.crypto (recovery_of c)))
    stored ← given (wrapped (codes "trust recovery certificate: ") r)
    require (stored.sha256 == c.sha256) (message (codes "trust recovery certificate was modified"))

  -- `Inspect`, with its answer in the report, beside an error too
  abbrev pub noted : TrustState × Result IoError (Unit {0}) → Act W (Unit {0})
  noted (s, e) = fill (λ r. record r { state = s }) >>= λ _. given e

  unfoldable pub inspect : Certificate → Act W (Unit {0})
  inspect c = observe (M.backend.inspect c) >>= noted

  -- the inspection after a rollback, whose state counts only without an error
  abbrev pub noted_if_ok :
      TrustState × Result IoError (Unit {0}) → Act W (Result IoError (Unit {0}))
  noted_if_ok (s, ok u) = fill (λ r. record r { state = s }) >>= λ _. pure (ok tt)
  noted_if_ok (s, err e) = pure (err e)

  unfoldable pub probe : Certificate → Act W (Result IoError (Unit {0}))
  probe c = observe (M.backend.inspect c) >>= noted_if_ok

  -- `removeReceipt`
  unfoldable pub remove_receipt : Certificate → Io (Unit {0})
  remove_receipt c = Disk.◌>>◌ (remove (receipt_of c)) (remove (recovery_of c))

  -- the privileges, the state directory and the lock
  unfoldable pub enter : Act W (Unit {0})
  enter = do
    run ← get
    require (run.disk.euid == 0) permission
    on_disk (M.protect M.dir)
    on_disk (lock (join M.dir (codes "trust.lock")))

  abbrev pub receipt_in : Phase → Certificate → Bytes
  receipt_in phase c =
      M.encode
        (record { version = 1; sha256 = c.sha256; place = M.backend.place_of c; phase = phase })

  abbrev pub kept_or_undone : Certificate → Result IoError (Unit {0}) → Act W (Unit {0})
  kept_or_undone c (ok u) = pure u
  kept_or_undone c (err e) = attempt (on_disk (remove (recovery_of c))) >>= λ _. raise e

  -- what a new installation writes before the trust store is changed
  unfoldable pub record_pending : Certificate → Option Receipt → Act W (Unit {0})
  record_pending c (some o) = pure tt
  record_pending c none = do
    r ← attempt (on_disk (exclusive (recovery_of c) c.pem 420))
    given (wrapped (codes "trust recovery snapshot: ") r)
    s ← attempt (on_disk (exclusive (receipt_of c) (receipt_in pending c) 384))
    kept_or_undone c s

  -- `Add` and the test that the certificate is trusted then
  unfoldable pub add_trust : Certificate → Act W (Unit {0})
  add_trust c = do
    on_system (M.backend.add c (recovery_of c))
    inspect c
    run ← get
    require run.report.state.trusted not_trusted

  abbrev pub unmanage : Result IoError (Unit {0}) → Act W (Result IoError (Unit {0}))
  unmanage (ok u) = fill (λ r. record r { managed = false }) >>= λ _. pure (ok u)
  unmanage (err e) = pure (err e)

  -- the files go only after the certificate is gone
  abbrev pub undo_files :
      Certificate → Result IoError (Unit {0}) → Act W (Result IoError (Unit {0}))
  undo_files c (err e) = pure (err e)
  undo_files c (ok u) = attempt (on_disk (remove_receipt c)) >>= unmanage

  -- `errors.Join` of an error and a result
  abbrev join_errors : IoError → Result IoError (Unit {0}) → IoError
  join_errors e (ok u) = e
  join_errors e (err f) = joined e f

  abbrev pub probe_errors :
      Result IoError (Unit {0}) → Result IoError (Unit {0}) → Result IoError (Unit {0})
  probe_errors r (ok u) = r
  probe_errors (ok u) (err p) = err p
  probe_errors (err e) (err p) = err (joined e p)

  -- what a failed installation does; its error is `e`
  unfoldable pub roll_back : Certificate → IoError → Act W (Unit {0})
  roll_back c e = do
    w ← attempt (on_system (M.backend.withdraw c (recovery_of c)))
    r ← undo_files c w
    p ← probe c
    fill (λ rep. record rep {
      message =
          codes
            "Trust installation failed; rollback attempted. If recovery files remain, retry ca untrust --cert with the recovery certificate.";
    })
    raise (join_errors e (probe_errors r p))

  abbrev pub installed_or_undone : Certificate → Result IoError (Unit {0}) → Act W (Unit {0})
  installed_or_undone c (err e) = roll_back c e
  installed_or_undone c (ok u) = do
    r ← attempt (on_disk (atomic M.tmp (receipt_of c) (receipt_in installed c) 384))
    given (wrapped (codes "CA trusted; pending receipt retained: ") r)
    fill (λ rep. record rep {
      changed = true;
      message =
          codes
            "Public CA installed and trusted. Restart affected clients; private keys were not accessed.";
    })

  -- the installation, behind the tests of `Execute`
  unfoldable pub install : Certificate → Option Receipt → Act W (Unit {0})
  install c owned = do
    record_pending c owned
    fill (λ r. record r { managed = true })
    r ← attempt (add_trust c)
    installed_or_undone c r

  abbrev pub already : Report → Report
  already r = record r {
    message =
        if r.managed
        then codes "Already trusted; no trust settings changed."
        else codes
            "Already trusted; no trust settings changed. Pre-existing trust remains unmanaged and will not be removed by ca untrust.";
  }

  -- the action `trust` once the store is inspected
  unfoldable pub do_trust : Certificate → Option Receipt → Bool → Act W (Unit {0})
  do_trust c owned dry = do
    run ← get
    let s = run.report.state
    if s.trusted
        then fill already
        else if s.installed && is_none owned
        then raise (
            message (
              codes
                "this exact CA already exists but is not trusted; configure its trust manually (utlsproxy will not take over an unmanaged certificate)"))
        else if dry
        then fill (λ r. record r {
          message =
              codes "Would install this exact public CA and update system trust; no changes made.";
        })
        else install c owned

  abbrev pub gone : Report → Report
  gone r = record r {
    managed = false;
    changed = true;
    message =
        if r.state.trusted
        then codes
            "Removed the managed trust installation; original CA files and private key are unchanged. The CA is still trusted through another installation; that trust was preserved."
        else codes
            "Removed the managed trust installation; original CA files and private key are unchanged.";
  }

  -- the removal of an owned certificate, behind the tests of `Execute`
  unfoldable pub uninstall : Certificate → Act W (Unit {0})
  uninstall c = do
    w ← attempt (on_system (M.backend.withdraw c (recovery_of c)))
    given (wrapped (codes "removal failed; receipt retained for retry: ") w)
    p ← attempt (inspect c)
    given (wrapped (codes "removal verification failed; receipt retained: ") p)
    run ← get
    require (not run.report.state.installed) (
        message
          (codes "owned certificate remains installed after removal; receipt retained for retry"))
    on_disk (remove_receipt c)
    fill gone

  -- the action `untrust` once the store is inspected
  unfoldable pub do_untrust : Certificate → Option Receipt → Bool → Act W (Unit {0})
  do_untrust c none dry = do
    run ← get
    require (not (run.report.state.installed || run.report.state.trusted)) (
        message (
          codes
            "CA was not installed by utlsproxy; refusing to remove unmanaged trust (use the original installation method)"))
    fill (λ r. record r {
      message = codes "No managed installation or trusted CA found; nothing to remove.";
    })
  do_untrust c (some o) dry =
      if dry
      then fill (λ r. record r {
        message =
            codes
              "Would remove only this receipt-owned certificate and update system trust; no changes made.";
      })
      else uninstall c

  -- the action `trust-status` once the store is inspected
  unfoldable pub do_status : Act W (Unit {0})
  do_status = do
    fill (λ r. record r {
      message =
          codes
            "Checks the system store/native TLS policy, not every browser or application trust store.";
    })
    run ← get
    require run.report.state.trusted not_trusted

  unfoldable pub act : Action → Certificate → Option Receipt → Bool → Act W (Unit {0})
  act trust c owned dry = do_trust c owned dry
  act untrust c owned dry = do_untrust c owned dry
  act trust_status c owned dry = do_status
  act (unknown b) c owned dry = raise (message (codes "unknown trust action"))

  -- `Execute` from the loaded certificate on
  unfoldable pub proceed : Action → FilePath → Bool → Certificate → Act W (Unit {0})
  proceed action path dry c = do
    absolute ← given (M.abs path)
    fill (λ r. record r {
      certificate = absolute;
      subject = c.x509.subject;
      sha256 = c.sha256;
      place = M.backend.place_of c;
      receipt = receipt_of c;
      recovery = recovery_of c;
    })
    require (not (is_trust action && not (valid_now M.now c)))
        (message (codes "cannot trust a CA that is not currently valid"))
    if is_status action || dry then pure tt else enter
    r ← attempt (on_disk (read_receipt (receipt_of c) c))
    owned ← found_receipt action r
    fill (λ rep. record rep { managed = not (is_none owned) })
    check_recovery c owned
    inspect c
    act action c owned dry

  -- `Execute`; the report starts with the action, the dry run and `ownership_known`
  unfoldable pub execute : Action → FilePath → Bool → Act W (Unit {0})
  execute action path dry = do
    require (not (is_unknown action)) (message (codes "unknown trust action"))
    c ← on_disk (load M.crypto path)
    proceed action path dry c
