-- ===== src/Files.antt =====
-- internal/fsutil/fsutil.go: files that are written whole or not at all, and the checks of owners.
pub mod Whole
pub mod Replace
pub mod Upwards
pub mod Owners
pub mod Fine
use utlsproxy.Common.{list_eq, Option}
use utlsproxy.Common.{
  ◌++◌, ℕ, ◌%◌, ◌/◌, Bool, ◌&&◌, ◌||◌, not, List, [], ◌∷◌, ◌==◌, nat_eq, if◌then◌else◌,
}
use utlsproxy.Common.Outcome.{Result, ok, err}
use utlsproxy.Common.Text.{Bytes, codes}
use utlsproxy.Disk.{
  open_file, wrapping, FilePath, IoError, message, Node, Disk, is_symlink, Io, pure, raise, ◌>>=◌,
  ◌>>◌, require, attempt, finally, lstat, is_regular, is_directory, open_exclusive, write, sync,
  close, chmod, remove, rename, mkdir, flock, stat,
}

-- Exclusive's deferred function: the file goes unless all was written
abbrev pub unless_ok : FilePath → Result IoError (Unit {0}) → Io (Unit {0})
unless_ok p (ok u) = pure u
unless_ok p (err e) = attempt (remove p) >> raise e

-- `Exclusive`
unfoldable pub exclusive : FilePath → Bytes → ℕ → Io (Unit {0})
exclusive p b mode = do
  open_exclusive p mode
  r ← attempt (do write p b; sync; close)
  unless_ok p r

-- `Atomic`; `tmp` is the name that `os.CreateTemp` picks
unfoldable pub atomic : FilePath → FilePath → Bytes → ℕ → Io (Unit {0})
atomic tmp p b mode = do
  open_exclusive tmp 384
  finally (remove tmp)
      (do chmod tmp mode; write tmp b; sync; close; rename tmp p; attempt sync; pure tt)

-- `Regular`
unfoldable pub regular_file : FilePath → Io (Unit {0})
regular_file p = do n ← lstat p; require (is_regular n.kind) (message (codes "not a regular file"))

-- `Lock`; the lock is released by the caller
abbrev pub locked : Result IoError (Unit {0}) → Io (Unit {0})
locked (ok u) = pure u
locked (err e) = raise (wrapping (codes "already locked") e)

unfoldable pub lock : FilePath → Io (Unit {0})
lock p = do open_file p 384; r ← attempt (flock p); locked r

-- `PrivateDir`
unfoldable pub private_dir : FilePath → Io (Unit {0})
private_dir p = do
  mkdir p
  n ← lstat p
  require (is_directory n.kind) (message (codes "not a real directory"))
  require (n.mode % 64 == 0) (message (codes "directory must be private"))
  m ← stat p
  user ← (λ d. (ok d.euid, d))
  require (m.uid == user) (message (codes "private directory belongs to another user"))

-- the paths from a clean absolute one up to the root, in the order of `filepath.Dir`
ancestors_onto : List FilePath → FilePath → FilePath → List FilePath
ancestors_onto above cur [] = if cur == b'/' ∷ [] then above else cur ∷ above
ancestors_onto above cur (c ∷ rest) =
    ancestors_onto (if c == b'/' then (if cur == [] then b'/' ∷ [] else cur) ∷ above else above)
      (cur ++ c ∷ []) rest

unfoldable pub ancestors : FilePath → List FilePath
unfolding ancestors_onto
ancestors p = ancestors_onto [] [] p

-- no bit of 0022
abbrev pub is_shut : ℕ → Bool
is_shut mode = mode / 2 % 2 == 0 && mode / 16 % 2 == 0

-- the test of the first loop of `RootOwned`: the mode of a symbolic link does not count
abbrev pub is_protected : Node → Bool
is_protected n = n.uid == 0 && (is_symlink n.kind || is_shut n.mode)

-- the test of its second loop
abbrev pub is_root_only : Node → Bool
is_root_only n = n.uid == 0 && is_shut n.mode

unfoldable pub check_lexical : List FilePath → Io (Unit {0})
check_lexical [] = pure tt
check_lexical (p ∷ ps) = do
  n ← lstat p
  require (is_protected n) (message (codes "root service requires a protected path"))
  check_lexical ps

unfoldable pub check_real : List FilePath → Io (Unit {0})
check_real [] = pure tt
check_real (p ∷ ps) = do
  stat p
  n ← stat p
  require (is_root_only n) (message (codes "root service requires root-owned, non-writable path"))
  check_real ps

abbrev pub given : {A : Type 0} → Result IoError A → Io A
given r d = (r, d)

-- `RootOwned`, with `filepath.Abs`, and `filepath.EvalSymlinks` on the files that there are
unfoldable pub root_owned :
    (FilePath → Result IoError FilePath)
    → ((FilePath → Option Node) → FilePath → Result IoError FilePath)
    → FilePath
    → Io (Unit {0})
root_owned abs eval_symlinks path = do
  lexical ← given (abs path)
  check_lexical (ancestors lexical)
  real ← (λ d. (eval_symlinks d.nodes path, d))
  check_real (ancestors real)
