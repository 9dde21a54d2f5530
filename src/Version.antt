-- ===== src/Version.antt =====
-- backend/app/version.py: the git commit that is running. What the files of the checkout hold is an
-- argument, `none` where there is no such file.
use openclaw_observatory.Prelude.{
  String, ◌||◌, ◌==◌, nat_eq, Option, none, some, List, [], ◌∷◌, if◌then◌else◌,
}
use openclaw_observatory.Prelude.Text.{strip, splitlines, partition_by, begins_with, after_prefix}

-- `value or None`
abbrev optional : String → Option String
optional s = if s == "" then none else some s

-- the commit and the name on a line of packed-refs; none for blank lines, comments and peeled tags
unfoldable pub packed_line : String → Option (String × String)
unfolding strip partition_by after_prefix
packed_line line =
    let l = strip line in
    if l == "" || begins_with l "#" || begins_with l "^"
    then none
    else elim (partition_by (nat_eq b' ') l) [
      | none ↦ some (l, "")
      | some (sha, name) ↦ some (sha, strip name)
    ]

unfoldable pub find_packed : String → List String → Option String
unfolding packed_line
find_packed ref [] = none
find_packed ref (line ∷ lines) =
    let later = find_packed ref lines in
    elim (packed_line line) [
      | none ↦ later
      | some (sha, name) ↦ if name == ref then optional sha else later
    ]

-- `loose` is the file of the ref, and `packed` the file packed-refs
unfoldable pub resolve_ref : Option String → Option String → String → Option String
unfolding find_packed strip splitlines
resolve_ref (some loose) packed ref = optional (strip loose)
resolve_ref none (some packed) ref = find_packed ref (splitlines packed)
resolve_ref none none ref = none

-- The end of `detect_git_commit`, in the git directory that was found; `head` is the text of HEAD.
unfoldable pub commit_of_head : (String → Option String) → Option String → String → Option String
unfolding resolve_ref strip after_prefix
commit_of_head loose packed head = elim (after_prefix "ref: " (strip head)) [
  | some ref ↦ resolve_ref (loose (strip ref)) packed (strip ref)
  | none ↦ optional (strip head)
]

-- the environment's commit wins over the checkout's
unfoldable pub detect_git_commit : String → Option String → Option String
unfolding strip
detect_git_commit env checkout = if strip env == "" then checkout else some (strip env)
