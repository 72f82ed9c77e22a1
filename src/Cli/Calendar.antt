-- ===== src/Cli/Calendar.antt =====
-- The Gregorian calendar by its rules, day after day and second after second: what `format_epoch` of
-- crates/pmd/src/main.rs has to agree with.
use pmd.Prelude.{ℕ, ◌+◌, ◌%◌, Bool, true, false, ◌||◌, ltb, nat_eq, if◌then◌else◌}
use pmd.Cli.Epoch.{Civil, Moment}

abbrev pub is_leap : ℕ → Bool
is_leap y =
    if nat_eq (y % 400) 0 then true else if nat_eq (y % 100) 0 then false else nat_eq (y % 4) 0

unfoldable pub days_in_month : ℕ → ℕ → ℕ
days_in_month y m =
    if nat_eq m 2
    then (if is_leap y then 29 else 28)
    else if nat_eq m 4 || nat_eq m 6 || nat_eq m 9 || nat_eq m 11
    then 30
    else 31

unfoldable pub next_day : Civil → Civil
unfolding days_in_month
next_day c =
    if ltb c.day (days_in_month c.year c.month)
    then record c { day = c.day + 1 }
    else if ltb c.month 12
    then record { year = c.year; month = c.month + 1; day = 1 }
    else record { year = c.year + 1; month = 1; day = 1 }

unfoldable pub next_second : Moment → Moment
next_second t =
    if ltb t.seconds 59
    then record t { seconds = t.seconds + 1 }
    else if ltb t.minutes 59
    then record t { minutes = t.minutes + 1; seconds = 0 }
    else if ltb t.hours 23
    then record t { hours = t.hours + 1; minutes = 0; seconds = 0 }
    else record { date = next_day t.date; hours = 0; minutes = 0; seconds = 0 }
