-- ===== src/Config/Validate/Ranges.antt =====
-- What each condition of `Validate` in internal/config/config.go says of the field it tests.
use utlsproxy.Profiles
use utlsproxy.Config.Validate.Valid.{InRange}
use utlsproxy.Common.{◌==◌, nat_eq, list_eq, string_eq, ltb}
use utlsproxy.Config.Validate.{at_most}
use utlsproxy.Common.{◌&&◌, ◌||◌, ◌*◌, not}
use utlsproxy.Common.{
  ℕ, ◌≤◌, ◌≡◌, ◌≢◌, ◌⊎◌, true, List, [], arith, length, eq_iff, list_eq, nat_eq, string_eq, String,
  list_beq_iff,
}
use utlsproxy.Common.Int.{ℤ, pos, int_eq, ltb_ℤ}
use utlsproxy.Common.Text.{Bytes}
use utlsproxy.Common.Outcome.{ok}
use utlsproxy.Config.{second}
use utlsproxy.Config.Validate.{known_profile}

pub known_profile-ok :
    (name : String) → known_profile name ≡ ok tt → (name ≡ "chrome-133") ⊎ (name ≡ "firefox-120")
unfolding known_profile Profiles.get
known_profile-ok name h = ground (arith, eq_iff "chrome-133" name, eq_iff "firefox-120" name)

pub in_range : (lo hi x : ℤ) → not (ltb_ℤ x lo || ltb_ℤ hi x) ≡ true → InRange lo hi x
in_range lo hi x h = ground arith

pub duration_range :
    (d : ℤ)
    → not (at_most d (pos 0) || ltb_ℤ (pos (86400 * second)) d) ≡ true
    → InRange (pos 1) (pos 86_400_000_000_000) d
duration_range d h = ground arith

pub refresh_range :
    (d : ℤ)
    → not (at_most d (pos 0) || ltb_ℤ (pos (86400 * second)) d) ≡ true
    → not (ltb_ℤ d (pos second)) ≡ true
    → InRange (pos second) (pos 86_400_000_000_000) d
refresh_range d h k = ground arith

pub either : (s a b : String) → (s == a || s == b) ≡ true → (s ≡ a) ⊎ (s ≡ b)
either s a b h = ground (arith, eq_iff s a, eq_iff s b)

pub known_level :
    (s : String)
    → (s == "debug" || s == "info" || s == "warn" || s == "error") ≡ true
    → (s ≡ "debug") ⊎ (s ≡ "info") ⊎ (s ≡ "warn") ⊎ (s ≡ "error")
known_level s h =
    ground (arith, eq_iff s "debug", eq_iff s "info", eq_iff s "warn", eq_iff s "error")

pub count_range : (n k : ℕ) → not (k == 0 || ltb n k) ≡ true → (1 ≤ k) × (k ≤ n)
count_range n k h = ground arith

pub not_empty : (s : Bytes) → not (s == []) ≡ true → s ≢ []
not_empty s h = ground (arith, list_beq_iff s [])

pub some_elements : (xs : List Bytes) → not (length xs == 0) ≡ true → xs ≢ []
some_elements xs h = ground arith

pub mode_servers :
    (mode : String) (servers : List Bytes)
    → (mode == "auto" || mode == "manual") ≡ true
    → not
        ((mode == "auto" && not (length servers == 0)) || (mode == "manual" && length servers == 0))
      ≡ true
    → ((mode ≡ "auto") × (servers ≡ [])) ⊎ ((mode ≡ "manual") × (servers ≢ []))
mode_servers mode servers h k = ground (arith, eq_iff mode "auto", eq_iff mode "manual")
