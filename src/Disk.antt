-- ===== src/Disk.antt =====
-- The operations of the package `os` that the program calls, on a disk in which each of them may
-- fail. What an operation wrote before its failure stays written.
pub mod Rules
pub mod Frame
use utlsproxy.Common.{
  ℕ, Bool, true, false, List, [], ◌∷◌, ◌++◌, Option, none, some, if◌then◌else◌, ◌==◌, nat_eq,
  list_eq, take, contains,
}
use utlsproxy.Common.Outcome.{Result, ok, err}
use utlsproxy.Common.Text.{Bytes}

abbrev pub FilePath : Type 0
FilePath = Bytes

pub data IoError : Type 0 where
  not_exist exists permission in_use refused : IoError
  -- an error of the operating system that the program only passes on
  system : Bytes → IoError
  -- an error of the program's own, by its text
  message : Bytes → IoError
  -- an error with a text before it, and two errors in one
  wrapping : Bytes → IoError → IoError
  joined : IoError → IoError → IoError

pub data Kind : Type 0 where
  regular directory symlink socket device : Kind

-- `mode` holds the permission bits.
pub record Node : Type 0 where
  pub kind : Kind
  pub uid : ℕ
  pub mode : ℕ
  pub content : Bytes

-- How an operation ends: a write that fails may have written the first bytes.
pub data Fate : Type 0 where
  fine : Fate
  fails : IoError → ℕ → Fate

-- The fates of the operations to come, the files, the locks that other processes hold, and the user.
pub record Disk : Type 0 where
  pub fates : List Fate
  pub nodes : FilePath → Option Node
  pub held : List FilePath
  pub euid : ℕ

abbrev pub Io : Type 0 → Type 0
Io A = Disk → Result IoError A × Disk

abbrev pub pure : {A : Type 0} → A → Io A
pure a d = (ok a, d)

abbrev pub raise : {A : Type 0} → IoError → Io A
raise e d = (err e, d)

abbrev pub after : {A B : Type 0} → Result IoError A × Disk → (A → Io B) → Result IoError B × Disk
after (ok a, d) f = f a d
after (err e, d) f = (err e, d)

infixl 5 ◌>>=◌ ◌>>◌
abbrev pub ◌>>=◌ : {A B : Type 0} → Io A → (A → Io B) → Io B
◌>>=◌ m f d = after (m d) f

abbrev pub ◌>>◌ : {A B : Type 0} → Io A → Io B → Io B
m >> k = m >>= λ _. k

-- an early return of an error unless the test passes
abbrev pub require : Bool → IoError → Io (Unit {0})
require true e = pure tt
require false e = raise e

abbrev pub recover :
    {A : Type 0} → Result IoError A × Disk → Result IoError (Result IoError A) × Disk
recover (r, d) = (ok r, d)

-- the result of an operation as a value, its error included
abbrev pub attempt : {A : Type 0} → Io A → Io (Result IoError A)
attempt m d = recover (m d)

-- a deferred call, whose own result is dropped
abbrev pub finally : {A B : Type 0} → Io B → Io A → Io A
finally cleanup m d = let (r, d') = m d in (r, (cleanup d').1)

abbrev pub next_fate : List Fate → Fate
next_fate [] = fine
next_fate (f ∷ fs) = f

abbrev pub later_fates : List Fate → List Fate
later_fates [] = []
later_fates (f ∷ fs) = fs

abbrev pub aged : Disk → Disk
aged d = record d { fates = later_fates d.fates }

-- an operation that does nothing when it fails
abbrev pub fated : {A : Type 0} → Fate → Io A → Io A
fated fine m d = m (aged d)
fated (fails e n) m d = (err e, aged d)

abbrev pub prim : {A : Type 0} → Io A → Io A
prim m d = fated (next_fate d.fates) m d

-- the files with one of them replaced or gone
abbrev pub put : FilePath → Option Node → Disk → Disk
put p n d = record d { nodes = λ q. if p == q then n else d.nodes q }

abbrev pub found : Option Node → Io Node
found none = raise not_exist
found (some n) = pure n

-- `os.Lstat`
unfoldable pub lstat : FilePath → Io Node
lstat p = prim (λ d. found (d.nodes p) d)

abbrev pub is_regular : Kind → Bool
is_regular regular = true
is_regular _ = false

abbrev pub is_directory : Kind → Bool
is_directory directory = true
is_directory _ = false

abbrev pub is_symlink : Kind → Bool
is_symlink symlink = true
is_symlink _ = false

abbrev pub is_socket : Kind → Bool
is_socket socket = true
is_socket _ = false

abbrev pub contents : Option Node → Io Bytes
contents none = raise not_exist
contents (some n) = if is_regular n.kind then pure n.content else raise (system [])

-- `os.Stat` of a path in which no link is left
unfoldable pub stat : FilePath → Io Node
stat p = prim (λ d. found (d.nodes p) d)

-- `os.ReadFile`
unfoldable pub read_file : FilePath → Io Bytes
read_file p = prim (λ d. contents (d.nodes p) d)

abbrev pub created : FilePath → ℕ → Option Node → Io (Unit {0})
created p mode (some n) d = (err exists, d)
created p mode none d =
    (ok tt, put p (some (record { kind = regular; uid = d.euid; mode = mode; content = [] })) d)

-- `os.OpenFile` with `O_CREATE` and `O_EXCL`
unfoldable pub open_exclusive : FilePath → ℕ → Io (Unit {0})
open_exclusive p mode = prim (λ d. created p mode (d.nodes p) d)

abbrev pub is_openable : Kind → Bool
is_openable regular = true
is_openable device = true
is_openable _ = false

abbrev pub opened : FilePath → ℕ → Option Node → Io (Unit {0})
opened p mode (some n) d = ((if is_openable n.kind then ok tt else err (system [])), d)
opened p mode none d =
    (ok tt, put p (some (record { kind = regular; uid = d.euid; mode = mode; content = [] })) d)

-- `open` with `O_CREAT` and `O_NOFOLLOW`, for reading and writing
unfoldable pub open_file : FilePath → ℕ → Io (Unit {0})
open_file p mode = prim (λ d. opened p mode (d.nodes p) d)

abbrev pub appended : FilePath → Bytes → Option Node → Disk → Disk
appended p b none d = d
appended p b (some n) d = put p (some (record n { content = n.content ++ b })) d

abbrev pub write_fated : Fate → FilePath → Bytes → Io (Unit {0})
write_fated fine p b d = (ok tt, appended p b (d.nodes p) (aged d))
write_fated (fails e k) p b d = (err e, appended p (take k b) (d.nodes p) (aged d))

-- `File.Write` at the end of the file
unfoldable pub write : FilePath → Bytes → Io (Unit {0})
write p b d = write_fated (next_fate d.fates) p b d

-- `File.Sync` and `File.Close`, which change no content
unfoldable pub sync : Io (Unit {0})
sync = prim (pure tt)

unfoldable pub close : Io (Unit {0})
close = prim (pure tt)

abbrev pub remoded : FilePath → ℕ → Option Node → Disk → Disk
remoded p mode none d = d
remoded p mode (some n) d = put p (some (record n { mode = mode })) d

-- `File.Chmod`
unfoldable pub chmod : FilePath → ℕ → Io (Unit {0})
chmod p mode = prim (λ d. (ok tt, remoded p mode (d.nodes p) d))

abbrev pub removed : FilePath → Option Node → Io (Unit {0})
removed p none d = (err not_exist, d)
removed p (some n) d = (ok tt, put p none d)

-- `os.Remove`
unfoldable pub remove : FilePath → Io (Unit {0})
remove p = prim (λ d. removed p (d.nodes p) d)

abbrev pub renamed : FilePath → FilePath → Option Node → Io (Unit {0})
renamed p q none d = (err not_exist, d)
renamed p q (some n) d = (ok tt, put p none (put q (some n) d))

-- `os.Rename`
unfoldable pub rename : FilePath → FilePath → Io (Unit {0})
rename p q = prim (λ d. renamed p q (d.nodes p) d)

abbrev pub made : FilePath → Option Node → Io (Unit {0})
made p (some n) d = (ok tt, d)
made p none d =
    (ok tt, put p (some (record { kind = directory; uid = d.euid; mode = 448; content = [] })) d)

-- `os.MkdirAll` with mode 0700; its parents are taken to exist
unfoldable pub mkdir : FilePath → Io (Unit {0})
mkdir p = prim (λ d. made p (d.nodes p) d)

-- `Flock` without waiting
unfoldable pub flock : FilePath → Io (Unit {0})
flock p = prim (λ d. (if contains d.held p then err in_use else ok tt, d))
