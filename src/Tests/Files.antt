-- ===== src/Tests/Files.antt =====
-- The files of internal/fsutil on a small disk, with a write that breaks off.
use utlsproxy.Common.{
  [], ◌∷◌, ◌==◌, none, some, if◌then◌else◌, refl, ◌≡◌, false, nat_eq, list_eq, Option, list_beq,
}
use utlsproxy.Common.Outcome.{Result, ok, err}
use utlsproxy.Common.Text.{codes}
use utlsproxy.Disk.{
  IoError, FilePath, Disk, Node, regular, directory, fine, fails, system, open_exclusive, write,
  remove, lstat, stat,
}
use utlsproxy.Disk.Rules.{Ends}
use utlsproxy.Files.{exclusive, atomic, root_owned, check_lexical, ancestors, check_real}
use utlsproxy.Files.Fine.Replaced.{atomic_fine}
use utlsproxy.Files.Whole.{exclusive_lem, written}
use utlsproxy.Files.Replace.{atomic_lem}
use utlsproxy.Files.Owners.{root_owned-ok, IsRootOwned, Same, Any}

-- a hosts file and a directory, and a disk that fills up at the second operation
abbrev full : Disk
full = record {
  fates = fine ∷ fails (system (codes "no space")) 2 ∷ [];
  nodes = λ p.
      if p == codes "/hosts"
      then some (record { kind = regular; uid = 0; mode = 420; content = codes "a" })
      else if p == codes "/"
      then some (record { kind = directory; uid = 0; mode = 493; content = [] })
      else none;
  held = [];
  euid = 0;
}

-- The first two bytes are written, then the file goes.
exclusive-full :
    (exclusive (codes "/new") (codes "abc") 384 full).0 ≡ err (system (codes "no space"))
unfolding exclusive open_exclusive list_beq write
exclusive-full = refl

exclusive-full_gone :
    (exclusive (codes "/new") (codes "abc") 384 full).1.nodes (codes "/new") ≡ none
unfolding exclusive open_exclusive list_beq write remove
exclusive-full_gone = refl

exclusive_lem_example :
    Ends
      (λ _ d'.
        (full.nodes (codes "/new") ≡ none)
        × (d'.nodes (codes "/new") ≡ some (written full 384 (codes "abc"))))
      (λ d'. (n : Node) → full.nodes (codes "/new") ≡ some n → d'.nodes (codes "/new") ≡ some n)
      (exclusive (codes "/new") (codes "abc") 384 full)
    × ((q : FilePath)
        → (codes "/new" == q) ≡ false
        → (exclusive (codes "/new") (codes "abc") 384 full).1.nodes q ≡ full.nodes q)
exclusive_lem_example = exclusive_lem (codes "/new") (codes "abc") 384 full

atomic_lem_example :
    Ends
      (λ _ d'. d'.nodes (codes "/hosts") ≡ some (written full 420 (codes "abc")))
      (λ d'. d'.nodes (codes "/hosts") ≡ full.nodes (codes "/hosts"))
      (atomic (codes "/t") (codes "/hosts") (codes "abc") 420 full)
    × ((q : FilePath)
        → (codes "/t" == q) ≡ false
        → (codes "/hosts" == q) ≡ false
        → (atomic (codes "/t") (codes "/hosts") (codes "abc") 420 full).1.nodes q ≡ full.nodes q)
unfolding list_beq
atomic_lem_example = atomic_lem (codes "/t") (codes "/hosts") refl (codes "abc") 420 full

abbrev sound : Disk
sound = record full { fates = [] }

-- no link
abbrev itself : (FilePath → Option Node) → FilePath → Result IoError FilePath
itself nodes p = ok p

root_owned-ok_accepts : (root_owned ok itself (codes "/hosts") sound).0 ≡ ok tt
unfolding root_owned check_lexical ancestors list_beq lstat check_real stat
root_owned-ok_accepts = refl

root_owned-ok_example :
    Ends
      (λ _ d'. IsRootOwned ok itself (codes "/hosts") sound × Same sound d')
      Any
      (root_owned ok itself (codes "/hosts") sound)
root_owned-ok_example = root_owned-ok ok itself (codes "/hosts") sound

atomic_fine_example :
    ((atomic (codes "/t") (codes "/hosts") (codes "abc") 420 sound).0 ≡ ok tt)
    × ((atomic (codes "/t") (codes "/hosts") (codes "abc") 420 sound).1.nodes (codes "/hosts")
        ≡ some (written sound 420 (codes "abc")))
    × ((atomic (codes "/t") (codes "/hosts") (codes "abc") 420 sound).1.nodes (codes "/t") ≡ none)
unfolding list_beq
atomic_fine_example =
    atomic_fine (codes "/t") (codes "/hosts") refl (codes "abc") 420 sound refl refl
