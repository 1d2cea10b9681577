-- ===== src/Trust/Reads/Found.antt =====
-- internal/trust/trust.go: a receipt that `readReceipt` returns is a file that is there.
use utlsproxy.Common.{Option, none, some, ◌≡◌, ◌∙◌, ap}
use utlsproxy.Common.Outcome.{Result, ok, err}
use utlsproxy.Common.Text.{codes}
use utlsproxy.Disk.{
  FilePath, IoError, not_exist, exists, permission, in_use, refused, system, message, wrapping,
  joined, Disk, Node, lstat, is_regular,
}
use utlsproxy.Disk.Frame.{Frames}
use utlsproxy.Disk.Rules.{Ends, after-Ends, require-Ends}
use utlsproxy.Files.{regular_file}
use utlsproxy.Files.Owners.{lstat-Ends, Same, Any}
use utlsproxy.Trust.{Certificate, Receipt, Manager}
use utlsproxy.Trust.Execute.{read_receipt, read_regular}
use utlsproxy.Trust.Reads.{read_regular-Frames}

abbrev pub IsThere : FilePath → Disk → Type 0
IsThere q d = (n : Node) × (d.nodes q ≡ some n)

abbrev pub Found : FilePath → Option Receipt → Disk → Type 0
Found q none d = Unit
Found q (some o) d = IsThere q d

regular_file-IsThere : (q : FilePath) (d : Disk) → Ends (λ _. IsThere q) Any (regular_file q d)
unfolding regular_file
regular_file-IsThere q d =
    after-Ends (λ n d'. (d.nodes q ≡ some n) × Same d d') (λ _. IsThere q) Any (lstat q d) _
      (lstat-Ends q d)
      (λ n d1 (e, s).
        require-Ends (λ _. IsThere q) Any (is_regular n.kind) (message (codes "not a regular file"))
          d1 tt (λ _. (n, ap (λ f. f q) s ∙ e)))

module _ {W : Type 0} (M : Manager W) (c : Certificate) (q : FilePath) where
  kept :
      (n : Node) (x : Result IoError (Option Receipt) × Disk)
      → Frames q (some n) x
      → Ends (Found q) Any x
  kept n (ok none, d) h = tt
  kept n (ok (some o), d) h = (n, h)
  kept n (err e, d) h = tt

  pub read_receipt-Found : (d : Disk) → Ends (Found q) Any (read_receipt M q c d)
  unfolding read_receipt
  read_receipt-Found d = at (regular_file q d) (regular_file-IsThere q d)
    where
      at :
          (x : Result IoError (Unit {0}) × Disk)
          → Ends (λ _. IsThere q) Any x
          → Ends (Found q) Any (read_regular M q c x.0 x.1)
      at (ok u, d1) (n, e) =
          kept n (read_regular M q c (ok u) d1) (read_regular-Frames M c q q (some n) (ok u) d1 e)
      at (err not_exist, d1) h = tt
      at (err exists, d1) h = tt
      at (err permission, d1) h = tt
      at (err in_use, d1) h = tt
      at (err refused, d1) h = tt
      at (err (system b), d1) h = tt
      at (err (message b), d1) h = tt
      at (err (wrapping b e), d1) h = tt
      at (err (joined e f), d1) h = tt
