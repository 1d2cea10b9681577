-- ===== src/Trust/Dry.antt =====
-- internal/trust/trust.go: what a dry run, a status query and a removal without a receipt leave alone.
use utlsproxy.Common.{
  Bool, true, false, ◌||◌, Option, none, some, ◌≡◌, refl, if◌then◌else◌, list_eq, nat_eq,
}
use utlsproxy.Disk.{FilePath}
use utlsproxy.Trust.{Certificate, Receipt, Manager}
use utlsproxy.Trust.Execute.{
  do_trust, do_untrust, do_status, act, proceed, execute, receipt_of, is_status, enter,
}
use utlsproxy.Trust.Reads.{
  Inspects, load-Steady, read_receipt-Frames, check_recovery-Steady, found_receipt-Steady,
  inspect-Steady,
}
use utlsproxy.Trust.Rules.{
  Steady, bind-Steady, then-Steady, attempt-Steady, require-Steady, if-Steady, fill-Steady,
  get-Steady, given-Steady, on_disk-Steady, pure-Steady, raise-Steady,
}
use utlsproxy.Trust.World.{Action, trust, untrust, trust_status, unknown, Run, Act, pure}

-- Nothing is changed: the action only looks, or the run is a dry one.
abbrev pub OnlyLooks : Action → Bool → Type 0
OnlyLooks action dry = (is_status action || dry) ≡ true

module _ {W : Type 0} (M : Manager W) (q : FilePath) where
  pub do_status-Steady : Steady q (do_status M)
  unfolding do_status
  do_status-Steady =
      then-Steady q _ _ (fill-Steady q _)
        (bind-Steady q _ _ (get-Steady q) (λ run. require-Steady q _ _))

  module _ (c : Certificate) (owned : Option Receipt) where
    do_trust-Steady : Steady q (do_trust M c owned true)
    unfolding do_trust
    do_trust-Steady = bind-Steady q _ _ (get-Steady q) (λ run.
        if-Steady q _ _ _ (fill-Steady q _)
          (if-Steady q _ _ _ (raise-Steady q _) (fill-Steady q _)))

  pub do_untrust-Steady : (c : Certificate) (dry : Bool) → Steady q (do_untrust M c none dry)
  unfolding do_untrust
  do_untrust-Steady c dry =
      bind-Steady q _ _ (get-Steady q)
        (λ run. then-Steady q _ _ (require-Steady q _ _) (fill-Steady q _))

  dry_untrust-Steady :
      (c : Certificate) (owned : Option Receipt) → Steady q (do_untrust M c owned true)
  unfolding do_untrust
  dry_untrust-Steady c none = do_untrust-Steady c true
  dry_untrust-Steady c (some o) = fill-Steady q _

  act-Steady :
      (action : Action) (c : Certificate) (owned : Option Receipt) (dry : Bool)
      → OnlyLooks action dry
      → Steady q (act M action c owned dry)
  unfolding act
  act-Steady trust c owned true h = do_trust-Steady c owned
  act-Steady trust c owned false h = cc
  act-Steady untrust c owned true h = dry_untrust-Steady c owned
  act-Steady untrust c owned false h = cc
  act-Steady trust_status c owned dry h = do_status-Steady
  act-Steady (unknown b) c owned dry h = raise-Steady q _

  skipped : (b : Bool) (m : Act W (Unit {0})) → b ≡ true → Steady q (if b then pure tt else m)
  skipped true m h = pure-Steady q tt
  skipped false m h = cc

  proceed-Steady :
      (action : Action) (path : FilePath) (dry : Bool) (c : Certificate)
      → OnlyLooks action dry
      → Inspects M c q
      → Steady q (proceed M action path dry c)
  unfolding proceed
  proceed-Steady action path dry c h i = bind-Steady q _ _ (given-Steady q _) (λ absolute.
      then-Steady q _ _ (fill-Steady q _) (
        then-Steady q _ _ (require-Steady q _ _) (
          then-Steady q _ _ (skipped (is_status action || dry) (enter M) h) (
            bind-Steady q _ _
              (attempt-Steady q _ (
                on_disk-Steady q _
                  (λ d. read_receipt-Frames M c q (receipt_of M c) (d.nodes q) d refl)))
              (λ r. bind-Steady q _ _ (found_receipt-Steady M c q action r) (λ owned.
                then-Steady q _ _ (fill-Steady q _) (
                  then-Steady q _ _ (check_recovery-Steady M c q owned) (
                    then-Steady q _ _ (inspect-Steady M c q i)
                      (act-Steady action c owned dry h)))))))))

-- A dry run and a status query change no file and leave the trust store as it is, however they end,
-- if inspections do.
pub execute-OnlyLooks :
    {W : Type 0} (M : Manager W) (action : Action) (path : FilePath) (dry : Bool)
    → OnlyLooks action dry
    → ((c : Certificate) (q : FilePath) → Inspects M c q)
    → (r : Run W)
    → ((q : FilePath) → (execute M action path dry r).1.disk.nodes q ≡ r.disk.nodes q)
      × ((execute M action path dry r).1.store ≡ r.store)
unfolding execute
execute-OnlyLooks M action path dry h i r = (λ q. ((all q).same r).0, ((all path).same r).1)
  where
    all : (q : FilePath) → Steady q (execute M action path dry)
    all q = then-Steady q _ _ (require-Steady q _ _) (
        bind-Steady q _ _ (load-Steady M.crypto q path)
          (λ c. proceed-Steady M q action path dry c h (i c q)))
