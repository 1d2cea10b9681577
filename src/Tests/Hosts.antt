-- ===== src/Tests/Hosts.antt =====
-- The hosts file of internal/hosts with one entry of its own, and two domains to add.
use utlsproxy.Common.{
  list_beq, filter, contains, List, [], ◌∷◌, ◌++◌, none, refl, ◌≡◌, false, true, nat_eq, list_eq,
  list_beq, contains, length,
}
use utlsproxy.Common.Outcome.{ok, err}
use utlsproxy.Common.Text.{
  split, has_prefix, trim_space, fields, cut, has_suffix, is_space, itoa, lower, split_onto,
  to_lower, trim_suffix, Bytes, codes, has_prefix, trim_space, itoa, is_space,
}
use utlsproxy.Hosts.{
  mark_lines, split_after, mark_line, is_marker, plan, conflicts, conflicts_in, is_wanted, begin,
  common_prefix, end, entries, generated, hunk, mark, prefixed, terminated, prepare, proposed,
  lacks_newline, Plan, line_diff, block, malformed, terminated, generated, begin, entries, end,
  mark_lines, split_after, mark_line, is_marker, mark, hunk, common_prefix, prefixed,
}
use utlsproxy.Hosts.Diff.{hunk_lem}
use utlsproxy.Hosts.Cycle.{prepare-cycle, IsPlain, IsSmall}

abbrev line : Bytes → Bytes
line s = s ++ b'\n' ∷ []

abbrev own : Bytes
own = line (codes "127.0.0.1 localhost")

abbrev domains : List Bytes
domains = codes "a.example" ∷ codes "b.example" ∷ []

abbrev address : Bytes
address = codes "127.0.0.2"

abbrev added : Bytes
added =
    own
    ++ (line (codes "# BEGIN utlsproxy managed hosts v1")
        ++ (line (codes "127.0.0.2 a.example")
            ++ (line (codes "127.0.0.2 b.example")
                ++ line (codes "# END utlsproxy managed hosts v1"))))

abbrev proposal : Plan
proposal = proposed (codes "/etc/hosts") own domains address false none

proposal_after : proposal.after ≡ added
unfolding terminated lacks_newline generated begin entries end
proposal_after = refl

proposal_ok : prepare (codes "/etc/hosts") own domains address false ≡ ok proposal
unfolding prepare block mark_lines split_after mark_line is_marker has_prefix trim_space plan
    list_beq conflicts split conflicts_in filter fields cut is_wanted contains has_suffix is_space
    itoa lower split_onto to_lower trim_suffix begin common_prefix end entries generated hunk
    lacks_newline line_diff mark prefixed terminated
proposal_ok = refl

second_begin : block (added ++ added) ≡ err malformed
unfolding block mark_lines split_after mark_line is_marker has_prefix trim_space mark list_beq begin
    end
second_begin = refl

diff_lines :
    line_diff (codes "a" ++ b'\n' ∷ codes "b") (codes "a" ++ b'\n' ∷ codes "c")
    ≡ codes "@@ lines 2..2 -> 2..2 @@" ++ b'\n' ∷ codes "-b+c"
unfolding line_diff itoa hunk common_prefix split_after list_beq prefixed
diff_lines = refl

block-none : block own ≡ ok none
unfolding block mark_lines split_after mark_line is_marker has_prefix trim_space
block-none = refl

ends_line : lacks_newline own ≡ false
unfolding lacks_newline
ends_line = refl

small : IsSmall proposal.after
unfolding terminated lacks_newline generated begin entries end
small = refl

IsPlain-address : IsPlain address
unfolding is_space contains
IsPlain-address = record {
  head = b'1';
  tail = codes "27.0.0.2";
  parts = refl;
  visible = refl;
  entry = refl;
  one_line = refl;
}

prepare-cycle_example :
    ((others : List Bytes) (other : Bytes)
      → (q : Plan) × (prepare (codes "/etc/hosts") proposal.after others other true ≡ ok q)
        × (q.after ≡ own))
    × ((q : Plan) × (prepare (codes "/etc/hosts") proposal.after domains address false ≡ ok q)
        × (q.changed ≡ false)
        × (q.after ≡ proposal.after))
unfolding contains
prepare-cycle_example =
    prepare-cycle (codes "/etc/hosts") own address domains block-none ends_line proposal
      IsPlain-address (refl, (refl, tt)) proposal_ok small

hunk_lem_example :
    (p s : List Bytes) × (codes "a" ∷ codes "b" ∷ []
      ≡ p ++ ((hunk (codes "a" ∷ codes "b" ∷ []) (codes "b" ∷ [])).gone ++ s))
    × (codes "b" ∷ [] ≡ p ++ ((hunk (codes "a" ∷ codes "b" ∷ []) (codes "b" ∷ [])).new ++ s))
    × (length p ≡ (hunk (codes "a" ∷ codes "b" ∷ []) (codes "b" ∷ [])).same_before)
    × (length s ≡ (hunk (codes "a" ∷ codes "b" ∷ []) (codes "b" ∷ [])).same_after)
hunk_lem_example = hunk_lem (codes "a" ∷ codes "b" ∷ []) (codes "b" ∷ [])
