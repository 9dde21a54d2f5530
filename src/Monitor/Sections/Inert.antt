-- ===== src/Monitor/Sections/Inert.antt =====
-- Data that is shown opens no tag.
use Prim.Native.String.{◌++◌}
use openclaw_observatory.Prelude.{
  ◌≡◌, refl, ◌∙◌, nat_eq, ltb, ℕ, zero, suc, ◌+◌, ◌-◌, ◌*◌, ◌/◌, ◌%◌, String, Bool, true, false,
  ◌==◌, Option, none, some, List, [], ◌∷◌, All, if◌then◌else◌, length, arith,
}
use openclaw_observatory.Prelude.Int.{ℤ, pos, negsuc}
use openclaw_observatory.Prelude.Text.Numbers.{digit, show_from, show_nat}
use openclaw_observatory.Prelude.Text.Html.{
  escape, concat, openings, openings_all, openings-append, openings-concat, openings-escape,
}
use openclaw_observatory.Models.Mission.{MissionRecord, duration_seconds}
use openclaw_observatory.Monitor.Text.{
  seconds_parts, minutes_parts, hours_parts, days_parts, dash_text, clock_text, fmt_seconds,
  fmt_duration, truncated,
}
use openclaw_observatory.Monitor.Sections.{
  mission_cells, missions_parts, mission_row, mission_rows, render_missions_section,
}

-- a text that opens no tag
pub data IsInert (s : String) : Type 0 where
  inert : openings s ≡ 0 → IsInert s

pub no_openings : {s : String} → IsInert s → openings s ≡ 0
no_openings (inert h) = h

when : (b : Bool) (s t : String) → IsInert s → IsInert t → IsInert (if b then s else t)
when true s t p q = p
when false s t p q = q

pub append-IsInert : (s t : String) → IsInert s → IsInert t → IsInert (s ++ t)
append-IsInert s t (inert p) (inert q) = inert (openings-append s t ∙ omega (arith, p, q))

openings_all-zero : (ss : List String) → All IsInert ss → openings_all ss ≡ 0
unfolding openings_all
openings_all-zero [] h = refl
openings_all-zero (s ∷ ss) (inert p, h) = ground (arith, p, openings_all-zero ss h)

concat-IsInert : (ss : List String) → All IsInert ss → IsInert (concat ss)
concat-IsInert ss h = inert (openings-concat ss ∙ openings_all-zero ss h)

escape-IsInert : (s : String) → IsInert (escape s)
escape-IsInert s = inert (openings-escape s)

abbrev lit : (s : String) → openings s ≡ 0 → IsInert s
lit s h = inert h

digit-IsInert : (n : ℕ) → IsInert (digit n)
unfolding digit openings
digit-IsInert n = when (nat_eq n 0) "0" _ (lit "0" refl) (
    when (nat_eq n 1) "1" _ (lit "1" refl) (
      when (nat_eq n 2) "2" _ (lit "2" refl) (
        when (nat_eq n 3) "3" _ (lit "3" refl) (
          when (nat_eq n 4) "4" _ (lit "4" refl) (
            when (nat_eq n 5) "5" _ (lit "5" refl) (
              when (nat_eq n 6) "6" _ (lit "6" refl) (
                when (nat_eq n 7) "7" _ (lit "7" refl)
                  (when (nat_eq n 8) "8" _ (lit "8" refl) (lit "9" refl)))))))))

show_from-IsInert : (fuel n : ℕ) → IsInert (show_from fuel n)
unfolding show_from openings
show_from-IsInert zero n = lit "" refl
show_from-IsInert (suc fuel) n =
    when (ltb n 10) (digit n) (show_from fuel (n / 10) ++ digit (n % 10)) (digit-IsInert n)
      (append-IsInert _ _ (show_from-IsInert fuel (n / 10)) (digit-IsInert (n % 10)))

show_nat-IsInert : (n : ℕ) → IsInert (show_nat n)
unfolding show_nat
show_nat-IsInert n = show_from-IsInert 24 n

pub dash_text-IsInert : (o : Option String) → IsInert (dash_text o)
unfolding dash_text openings
dash_text-IsInert none = lit "—" refl
dash_text-IsInert (some s) = when (s == "") "—" (escape s) (lit "—" refl) (escape-IsInert s)

clock_text-IsInert :
    (sign : String) (days rem : ℕ) → IsInert sign → IsInert (clock_text sign days rem)
unfolding clock_text openings
clock_text-IsInert sign days rem p =
    let hours = rem / 3600 in
    let minutes = rem % 3600 / 60 in
    let h = show_nat-IsInert hours in
    let m = show_nat-IsInert minutes in
    let s = show_nat-IsInert (rem % 60) in
    when (nat_eq days 0) _ _
      (when (nat_eq hours 0) _ _
        (when (nat_eq minutes 0) _ _
          (concat-IsInert (seconds_parts (rem % 60)) (s, (lit "s" refl, tt)))
          (concat-IsInert (minutes_parts minutes (rem % 60))
            (m, (lit "m " refl, (s, (lit "s" refl, tt))))))
        (concat-IsInert (hours_parts hours minutes) (h, (lit "h " refl, (m, (lit "m" refl, tt))))))
      (concat-IsInert (days_parts sign days hours minutes) (
        p,
        (show_nat-IsInert days, (lit "d " refl, (h, (lit "h " refl, (m, (lit "m" refl, tt)))))),
      ))

fmt_seconds-IsInert : (x : ℤ) → IsInert (fmt_seconds x)
unfolding fmt_seconds openings
fmt_seconds-IsInert (pos n) = clock_text-IsInert "" (n / 86400) (n % 86400) (lit "" refl)
fmt_seconds-IsInert (negsuc n) =
    clock_text-IsInert "-" (n / 86400 + 1) (86399 - n % 86400) (lit "-" refl)

pub fmt_duration-IsInert : (o : Option ℤ) → IsInert (fmt_duration o)
unfolding fmt_duration openings
fmt_duration-IsInert none = lit "—" refl
fmt_duration-IsInert (some x) = fmt_seconds-IsInert (truncated x)

openings-mission_row : (m : MissionRecord) → openings (mission_row m) ≡ 16
unfolding mission_row openings openings_all
openings-mission_row m =
    let title = openings-escape m.title in
    let id = openings-escape m.mission_id in
    let state = openings-escape m.state in
    let agent = no_openings (dash_text-IsInert m.assigned_agent) in
    let pr = no_openings (dash_text-IsInert m.pr_ref) in
    let duration = no_openings (fmt_duration-IsInert (duration_seconds m)) in
    openings-concat (mission_cells m) ∙ omega (arith, title, id, state, agent, pr, duration)

openings-mission_rows : (ms : List MissionRecord) → openings_all (mission_rows ms) ≡ 16 * length ms
unfolding mission_rows openings_all
openings-mission_rows [] = refl
openings-mission_rows (m ∷ ms) = omega (arith, openings-mission_row m, openings-mission_rows ms)

-- The table of missions holds 20 tags and 16 more for each mission, or 24 if there is none: no title,
-- identifier or other text of a mission adds one.
pub openings-render_missions_section :
    (ms : List MissionRecord)
    → openings (render_missions_section ms)
      ≡ (if nat_eq (length ms) 0 then 24 else 20 + 16 * length ms)
unfolding render_missions_section openings openings_all mission_rows
openings-render_missions_section [] = refl
openings-render_missions_section (m ∷ ms) =
    let rows = openings-mission_rows (m ∷ ms) in
    let table = openings-concat (mission_rows (m ∷ ms)) in
    openings-concat (missions_parts (mission_rows (m ∷ ms))) ∙ ground (arith, rows, table)
