-- ===== src/Collectors/Inventory/Maintenance/Upgrades.antt =====
-- The dates of the upgrades.
use openclaw_observatory.Prelude.{
  ◌≡◌, refl, Bool-cases, inl, inr, String, true, is_some, Option, none, some, List, [], ◌∷◌, arith,
}
use openclaw_observatory.Prelude.Text.{splitlines, strip, begins_with}
use openclaw_observatory.Collectors.Inventory.Maintenance.{
  History, Scan, command_line, started_command, history_line, history_lines, parse_apt_history,
  merged, is_complete, scan_archives, read_apt_history, filled, or_blank,
}

abbrev pub IsOrdered : History → Type 0
IsOrdered h = is_some h.last_full_upgrade ≡ true → is_some h.last_upgrade ≡ true

started_command-IsOrdered :
    (line : String) (start : Option String) (h : History)
    → IsOrdered h
    → IsOrdered (started_command line start h)
unfolding started_command command_line
started_command-IsOrdered line none h o = o
started_command-IsOrdered line (some start) h o = ground (arith, o)

history_line-IsOrdered :
    (line : String) (s : Scan) → IsOrdered s.history → IsOrdered (history_line line s).history
unfolding history_line
history_line-IsOrdered line s o = elim (Bool-cases (begins_with (strip line) "Start-Date:")) [
  | inl d ↦ rw d o
  | inr d ↦ elim (Bool-cases (begins_with (strip line) "Commandline:")) [
    | inl c ↦ rw (d, c) (started_command-IsOrdered (strip line) s.start s.history o)
    | inr c ↦ rw (d, c) o
  ]
]

history_lines-IsOrdered :
    (lines : List String) (s : Scan)
    → IsOrdered s.history
    → IsOrdered (history_lines lines s).history
unfolding history_lines
history_lines-IsOrdered [] s o = o
history_lines-IsOrdered (line ∷ lines) s o =
    history_lines-IsOrdered lines (history_line line s) (history_line-IsOrdered line s o)

parse_apt_history-IsOrdered : (text : String) → IsOrdered (parse_apt_history text)
unfolding parse_apt_history
parse_apt_history-IsOrdered text =
    history_lines-IsOrdered (splitlines text) _ (λ h. absurd (ground (arith, h)))

filled_ordered :
    (f u g v : Option String)
    → (is_some f ≡ true → is_some u ≡ true)
    → (is_some g ≡ true → is_some v ≡ true)
    → is_some (filled f g) ≡ true
    → is_some (filled u v) ≡ true
filled_ordered (some f) (some u) g v a b h = refl
filled_ordered (some f) none g v a b h = absurd (ground (arith, a refl))
filled_ordered none (some u) g v a b h = refl
filled_ordered none none g v a b h = b h

merged-IsOrdered : (a b : History) → IsOrdered a → IsOrdered b → IsOrdered (merged a b)
unfolding merged
merged-IsOrdered a b oa ob =
    filled_ordered a.last_full_upgrade a.last_upgrade b.last_full_upgrade b.last_upgrade oa ob

scan_archives-IsOrdered :
    (archives : List (Option String)) (h : History)
    → IsOrdered h
    → IsOrdered (scan_archives archives h)
unfolding scan_archives
scan_archives-IsOrdered [] h o = o
scan_archives-IsOrdered (none ∷ archives) h o = scan_archives-IsOrdered archives h o
scan_archives-IsOrdered (some text ∷ archives) h o =
    let m = merged-IsOrdered h (parse_apt_history text) o (parse_apt_history-IsOrdered text) in
    elim (Bool-cases (is_complete (merged h (parse_apt_history text)))) [
      | inl c ↦ rw c m
      | inr c ↦ rw c (scan_archives-IsOrdered archives (merged h (parse_apt_history text)) m)
    ]

-- Where the logs of apt show a full upgrade, an upgrade is reported as well.
pub read_apt_history-IsOrdered :
    (log : Option String) (archives : List (Option String))
    → IsOrdered (read_apt_history log archives)
unfolding read_apt_history
read_apt_history-IsOrdered log archives =
    let o = parse_apt_history-IsOrdered (or_blank log) in
    elim (Bool-cases (is_complete (parse_apt_history (or_blank log)))) [
      | inl c ↦ rw c o
      | inr c ↦ rw c (scan_archives-IsOrdered archives (parse_apt_history (or_blank log)) o)
    ]
