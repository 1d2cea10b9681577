-- ===== src/Hosts.antt =====
-- internal/hosts/hosts.go: the managed block of the hosts file, and the plan of a change.
pub mod Block
pub mod Cycle
pub mod Diff
use utlsproxy.Common.{
  ℕ, ◌+◌, ◌-◌, Bool, true, false, ◌&&◌, ◌||◌, not, List, [], ◌∷◌, ◌++◌, Option, none, some,
  if◌then◌else◌, ◌==◌, nat_eq, list_eq, length, take, drop, map, reverse, contains, filter, ltb,
  any,
}
use utlsproxy.Common.Outcome.{Result, ok, err, ◌>>=◌}
use utlsproxy.Common.Text.{
  Bytes, codes, has_prefix, trim_space, trim_suffix, to_lower, split, cut, fields, itoa,
}
use utlsproxy.Disk.{FilePath}

pub data HostsError : Type 0 where
  malformed incomplete too_large : HostsError
  conflicting : List Bytes → HostsError

-- `strings.SplitAfter` by a separator of one byte
abbrev pub onto_first : ℕ → List Bytes → List Bytes
onto_first c [] = (c ∷ []) ∷ []
onto_first c (l ∷ ls) = (c ∷ l) ∷ ls

unfoldable pub split_after : Bytes → ℕ → List Bytes
split_after [] sep = [] ∷ []
split_after (c ∷ s) sep =
    let rest = split_after s sep in if c == sep then (c ∷ []) ∷ rest else onto_first c rest

unfoldable pub begin : Bytes
begin = codes "# BEGIN utlsproxy managed hosts v1"

unfoldable pub end : Bytes
end = codes "# END utlsproxy managed hosts v1"

-- The variables `start` and `end`; none is -1.
pub record Marks : Type 0 where
  pub first : Option ℕ
  pub last : Option ℕ

abbrev pub unmarked : Marks
unmarked = record { first = none; last = none }

unfoldable pub is_marker : Bytes → Bool
is_marker t = has_prefix t (codes "# BEGIN utlsproxy") || has_prefix t (codes "# END utlsproxy")

abbrev is_absent : Option ℕ → Bool
is_absent none = true
is_absent (some n) = false

-- a line that is a marker of some version
unfoldable pub mark : Marks → ℕ → Bytes → Bytes → Result HostsError Marks
mark m offset line t =
    if t == begin && is_absent m.first && is_absent m.last
    then ok (record m { first = some offset })
    else if t == end && not (is_absent m.first) && is_absent m.last
    then ok (record m { last = some (offset + length line) })
    else err malformed

-- the body of the loop
unfoldable pub mark_line : Marks → ℕ → Bytes → Result HostsError Marks
mark_line m offset line =
    let t = trim_space line in if is_marker t then mark m offset line t else ok m

unfoldable pub mark_lines : Marks → ℕ → List Bytes → Result HostsError Marks
mark_lines m offset [] = ok m
mark_lines m offset (l ∷ ls) = mark_line m offset l >>= λ m'. mark_lines m' (offset + length l) ls

abbrev bounds_of : Option ℕ → Option ℕ → Result HostsError (Option (ℕ × ℕ))
bounds_of none none = ok none
bounds_of (some s) (some e) = ok (some (s, e))
bounds_of _ _ = err incomplete

abbrev pub bounds : Marks → Result HostsError (Option (ℕ × ℕ))
bounds m = bounds_of m.first m.last

-- `block`: the managed block's bounds, if there is one
unfoldable pub block : Bytes → Result HostsError (Option (ℕ × ℕ))
block b = mark_lines unmarked 0 (split_after b b'\n') >>= bounds

-- the bytes around the block, all of them before it where there is none
abbrev pub before_block : Bytes → Option (ℕ × ℕ) → Bytes
before_block b none = b
before_block b (some (s, e)) = take s b

abbrev pub after_block : Bytes → Option (ℕ × ℕ) → Bytes
after_block b none = []
after_block b (some (s, e)) = drop e b

-- the lines of the block that are neither empty nor comments
abbrev pub managed_lines : Bytes → Option (ℕ × ℕ) → List Bytes
managed_lines b none = []
managed_lines b (some (s, e)) =
    filter (λ l. not (has_prefix l (b'#' ∷ [])) && not (trim_space l == []))
      (split (take (e - s) (drop s b)) b'\n')

-- the line up to its comment
abbrev before_comment : Bytes → Option (Bytes × Bytes) → Bytes
before_comment l none = l
before_comment l (some (a, b)) = a

abbrev names_of : List Bytes → List Bytes
names_of [] = []
names_of (address ∷ names) = names

unfoldable pub is_wanted : List Bytes → Bytes → Bool
is_wanted domains name = contains domains (trim_suffix (to_lower name) (b'.' ∷ []))

-- a line stands once for each of its names that is wanted
unfoldable pub conflicts_in : List Bytes → Bytes → List Bytes
conflicts_in domains l =
    map (λ name. l) (filter (is_wanted domains) (names_of (fields (before_comment l (cut l b'#')))))

unfoldable pub conflicts : List Bytes → List Bytes → List Bytes
conflicts domains [] = []
conflicts domains (l ∷ ls) = conflicts_in domains l ++ conflicts domains ls

abbrev pub entry : Bytes → Bytes → Bytes
entry address d = (address ++ b' ' ∷ d) ++ b'\n' ∷ []

unfoldable pub entries : Bytes → List Bytes → Bytes
entries address [] = []
entries address (d ∷ ds) = entry address d ++ entries address ds

unfoldable pub generated : Bytes → List Bytes → Bytes
generated address domains = begin ++ b'\n' ∷ (entries address domains ++ (end ++ b'\n' ∷ []))

-- the last byte is not a line feed
unfoldable pub lacks_newline : Bytes → Bool
lacks_newline [] = false
lacks_newline (c ∷ []) = not (c == b'\n')
lacks_newline (c ∷ d ∷ s) = lacks_newline (d ∷ s)

unfoldable pub terminated : Bytes → Bytes
terminated b = if lacks_newline b then b ++ b'\n' ∷ [] else b

-- the file with the block, in the place of the old one or at the end
abbrev pub installed : Bytes → Option (ℕ × ℕ) → Bytes → Bytes
installed b none text = terminated b ++ text
installed b (some (s, e)) text = take s b ++ text ++ drop e b

unfoldable pub common_prefix : List Bytes → List Bytes → ℕ
common_prefix (x ∷ xs) (y ∷ ys) = let rest = common_prefix xs ys in if x == y then 1 + rest else 0
common_prefix _ _ = 0

-- What differs between two texts: the number of equal lines before it and behind it, the lines of
-- the first text and those of the second.
pub record Hunk : Type 0 where
  pub same_before : ℕ
  pub same_after : ℕ
  pub gone : List Bytes
  pub new : List Bytes

-- the two loops of `lineDiff`
unfoldable pub hunk : List Bytes → List Bytes → Hunk
hunk a b =
    let i = common_prefix a b in
    let m = common_prefix (reverse (drop i a)) (reverse (drop i b)) in
    record {
      same_before = i;
      same_after = m;
      gone = take (length (drop i a) - m) (drop i a);
      new = take (length (drop i b) - m) (drop i b);
    }

unfoldable pub prefixed : ℕ → List Bytes → Bytes
prefixed c [] = []
prefixed c (l ∷ ls) = (c ∷ l) ++ prefixed c ls

abbrev diff_text : Hunk → ℕ → ℕ → Bytes
diff_text h m n =
    codes "@@ lines "
    ++ itoa (h.same_before + 1)
    ++ codes ".."
    ++ itoa (m - h.same_after)
    ++ codes " -> "
    ++ itoa (h.same_before + 1)
    ++ codes ".."
    ++ itoa (n - h.same_after)
    ++ codes " @@"
    ++ b'\n' ∷ prefixed b'-' h.gone
    ++ prefixed b'+' h.new

-- `lineDiff`
unfoldable pub line_diff : Bytes → Bytes → Bytes
line_diff before after =
    let a = split_after before b'\n' in
    let b = split_after after b'\n' in diff_text (hunk a b) (length a) (length b)

pub record Plan : Type 0 where
  pub path : FilePath
  pub changed : Bool
  pub managed : List Bytes
  pub conflicts : List Bytes
  pub diff : Bytes
  pub before : Bytes
  pub after : Bytes

abbrev diff_of : Bool → FilePath → Bytes → Bytes → Bytes
diff_of true path b out =
    codes "--- "
    ++ path
    ++ codes " (current)"
    ++ b'\n' ∷ codes "+++ "
    ++ path
    ++ codes " (proposed)"
    ++ b'\n' ∷ line_diff b out
diff_of false path b out = codes "No hosts changes needed." ++ b'\n' ∷ []

-- the file without its block
abbrev pub remaining : Bytes → Option (ℕ × ℕ) → Bytes
remaining b found = before_block b found ++ after_block b found

-- the bytes that the file is to have
abbrev pub outcome : Bytes → List Bytes → Bytes → Bool → Option (ℕ × ℕ) → Bytes
outcome b domains address true found = remaining b found
outcome b domains address false found = installed b found (generated address domains)

abbrev pub proposed : FilePath → Bytes → List Bytes → Bytes → Bool → Option (ℕ × ℕ) → Plan
proposed path b domains address remove found =
    let out = outcome b domains address remove found in
    record {
      path = path;
      changed = not (b == out);
      managed = managed_lines b found;
      conflicts = conflicts domains (split (remaining b found) b'\n');
      diff = diff_of (not (b == out)) path b out;
      before = b;
      after = out;
    }

-- the part of `Prepare` behind the reading of the file, by the bounds of its block
unfoldable pub plan :
    FilePath → Bytes → List Bytes → Bytes → Bool → Option (ℕ × ℕ) → Result HostsError Plan
plan path b domains address remove found =
    let p = proposed path b domains address remove found in
    if not remove && not (p.conflicts == []) then err (conflicting p.conflicts) else ok p

-- `Prepare`, from the bytes of the file that the path leads to
unfoldable pub prepare : FilePath → Bytes → List Bytes → Bytes → Bool → Result HostsError Plan
prepare path b domains address remove =
    if ltb 4194304 (length b)
    then err too_large
    else (block b >>= plan path b domains address remove)
