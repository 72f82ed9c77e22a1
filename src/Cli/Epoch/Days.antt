-- ===== src/Cli/Epoch/Days.antt =====
-- The dates of `format_epoch` in crates/pmd/src/main.rs, day by day.
use pmd.Prelude.{
  ℕ, suc, ◌+◌, ◌-◌, ◌*◌, ◌/◌, ◌%◌, ◌≤◌, ◌<◌, ◌≡◌, ◌∙◌, sym, ap, refl, ◌⊎◌, inl, inr, arith, ltb,
  leb, if◌then◌else◌, Bool-cases, leb→le, ltb→lt,
}
use pmd.Cli.Epoch.{Civil, month_day, civil}
use pmd.Cli.Epoch.Era.{start, stop, year_of_era-start, era_day}
use pmd.Cli.Calendar.{is_leap, days_in_month, next_day}

abbrev dated : ℕ → ℕ × ℕ → Civil
dated y (m, d) = record { year = if leb m 2 then y + 1 else y; month = m; day = d }

-- The date of the day `doy` of the year `k` of an era.
abbrev date_of : ℕ → ℕ → ℕ → Civil
date_of era k doy = dated (k + era * 400) (month_day doy)

stop-start :
    (era k : ℕ) → k ≤ 399 → stop k ≡ start k + (if is_leap (k + era * 400 + 1) then 366 else 365)
stop-start era k h = ground arith

-- Months are counted from March: the days of a year before month `mp`, and its number and year.
abbrev before : ℕ → ℕ
before mp = (153 * mp + 2) / 5

abbrev number : ℕ → ℕ
number mp = if ltb mp 10 then mp + 3 else mp - 9

abbrev in_year : ℕ → ℕ → ℕ
in_year y mp = if ltb mp 10 then y else y + 1

month_day-before :
    (mp e : ℕ)
    → mp ≤ 11
    → before mp + e < before (mp + 1)
    → month_day (before mp + e) ≡ (number mp, e + 1)
unfolding month_day
month_day-before mp e h lt =
    let m : (5 * (before mp + e) + 2) / 153 ≡ mp = omega arith in
    rw m (ap (λ d. (number mp, d)) (omega arith))

month_of_day :
    (doy : ℕ)
    → doy < 367
    → (mp e : ℕ) × (mp ≤ 11) × (doy ≡ before mp + e) × (before mp + e < before (mp + 1))
month_of_day doy h =
    let mp = (5 * doy + 2) / 153 in (mp, doy - before mp, omega arith, omega arith, omega arith)

-- The day `e` of a month, counted from 0.
day_of_month : ℕ → ℕ → ℕ → Civil
day_of_month y mp e = record { year = in_year y mp; month = number mp; day = e + 1 }

month_length :
    (y mp : ℕ) → mp ≤ 10 → before (mp + 1) ≡ before mp + days_in_month (in_year y mp) (number mp)
unfolding days_in_month
month_length y mp h = ground arith

date_of-before :
    (era k mp e : ℕ)
    → mp ≤ 11
    → before mp + e < before (mp + 1)
    → date_of era k (before mp + e) ≡ day_of_month (k + era * 400) mp e
unfolding day_of_month
date_of-before era k mp e h lt =
    ap (dated (k + era * 400)) (month_day-before mp e h lt) ∙ ground arith

next_day-same :
    (y mp e : ℕ)
    → e + 1 < days_in_month (in_year y mp) (number mp)
    → next_day (day_of_month y mp e) ≡ day_of_month y mp (e + 1)
unfolding next_day day_of_month
next_day-same y mp e h = ground arith

next_day-month :
    (y mp e : ℕ)
    → mp ≤ 10
    → e + 1 ≡ days_in_month (in_year y mp) (number mp)
    → next_day (day_of_month y mp e) ≡ day_of_month y (mp + 1) 0
unfolding next_day day_of_month
next_day-month y mp e h last = ground arith

next_day-year :
    (y e : ℕ)
    → e + 1 ≡ days_in_month (y + 1) 2
    → next_day (day_of_month y 11 e) ≡ day_of_month (y + 1) 0 0
unfolding next_day day_of_month
next_day-year y e last = ground arith

february : (y : ℕ) → days_in_month y 2 ≡ (if is_leap y then 29 else 28)
unfolding days_in_month
february y = refl

month_end :
    (y mp e : ℕ)
    → mp ≤ 11
    → before mp + e < before (mp + 1)
    → suc (before mp + e) < (if is_leap (y + 1) then 366 else 365)
    → ((e + 1 < days_in_month (in_year y mp) (number mp)) × (before mp + (e + 1) < before (mp + 1)))
      ⊎ ((mp ≤ 10)
          × (e + 1 ≡ days_in_month (in_year y mp) (number mp))
          × (suc (before mp + e) ≡ before (mp + 1) + 0))
month_end y mp e hm lt h = elim (Bool-cases (leb mp 10)) [
  | inl early ↦
      let le : mp ≤ 10 = leb→le mp 10 early in
      let len = month_length y mp le in
      elim (Bool-cases (ltb (e + 1) (days_in_month (in_year y mp) (number mp)))) [
        | inl more ↦ let below = ltb→lt _ _ more in inl (below, omega (arith, len, below))
        | inr last ↦
            let d = days_in_month (in_year y mp) (number mp) in
            let ge : d ≤ e + 1 = ground (arith, last) in
            inr (le, omega (arith, len), omega (arith, len))
      ]
  | inr late ↦
      let e11 : mp ≡ 11 = ground (arith, late) in
      inl (ground (arith, e11, february (y + 1)), ground (arith, e11))
]

-- Within a year of an era.
next_day-within :
    (era k doy : ℕ)
    → suc doy < (if is_leap (k + era * 400 + 1) then 366 else 365)
    → next_day (date_of era k doy) ≡ date_of era k (suc doy)
next_day-within era k doy h =
    let (mp, e, hm, at, lt) = month_of_day doy (ground arith) in
    let y = k + era * 400 in
    let today : date_of era k doy ≡ day_of_month y mp e =
      ap (date_of era k) at ∙ date_of-before era k mp e hm lt in
    ap next_day today ∙ elim (month_end y mp e hm lt (ground (arith, at))) [
      | inl (more, below) ↦
          next_day-same y mp e more
          ∙ sym (date_of-before era k mp (e + 1) hm below)
          ∙ ap (date_of era k) (omega (arith, at))
      | inr (le, last, first) ↦
          next_day-month y mp e le last
          ∙ sym (date_of-before era k (mp + 1) 0 (omega arith) (omega arith))
          ∙ ap (date_of era k) (omega (arith, at, first))
    ]

-- From the last day of a year to the first of March.
next_day-over :
    (era k doy : ℕ)
    → suc doy ≡ (if is_leap (k + era * 400 + 1) then 366 else 365)
    → next_day (date_of era k doy) ≡ day_of_month (k + era * 400 + 1) 0 0
next_day-over era k doy h =
    let y = k + era * 400 in
    let e = doy - 337 in
    let at : doy ≡ before 11 + e = ground (arith, h) in
    ap next_day
      (ap (date_of era k) at ∙ date_of-before era k 11 e (omega arith) (ground (arith, h)))
    ∙ next_day-year y e (ground (arith, h, february (y + 1)))

-- The day `doe` of an era, found again.
civil-era :
    (era k doy : ℕ)
    → k ≤ 399
    → start k + doy < stop k
    → (days : ℕ) → days + 719468 ≡ era * 146097 + (start k + doy)
    → civil days ≡ date_of era k doy
unfolding civil
civil-era era k doy hk lt days at =
    let e : (days + 719468) / 146097 ≡ era = omega arith in
    let d : (days + 719468) % 146097 ≡ start k + doy = omega arith in
    let found = year_of_era-start k doy hk lt in rw (e, d, found.0, found.1)

-- The days since the epoch lie in an era, in a year of it.
era_of :
    (days : ℕ)
    → (era k doy : ℕ) × (k ≤ 399)
      × (start k + doy < stop k)
      × (days + 719468 ≡ era * 146097 + (start k + doy))
era_of days =
    let z = days + 719468 in
    let (k, doy, hk, at, lt) = era_day (z % 146097) (omega arith) in
    (z / 146097, k, doy, hk, lt, omega (arith, at))

first_of_march :
    (era k : ℕ)
    → k ≤ 399
    → (days : ℕ) → days + 719468 ≡ era * 146097 + start k
    → civil days ≡ day_of_month (k + era * 400) 0 0
first_of_march era k hk days at =
    civil-era era k 0 hk (omega arith) days (omega (arith, at))
    ∙ date_of-before era k 0 0 (omega arith) (omega arith)

-- The day behind a year of an era.
new_year :
    (era k : ℕ)
    → k ≤ 399
    → (days : ℕ) → days + 719468 ≡ era * 146097 + stop k
    → civil days ≡ day_of_month (k + era * 400 + 1) 0 0
new_year era k hk days at = elim (Bool-cases (ltb k 399)) [
  | inl more ↦
      first_of_march era (suc k) (ground arith) days (ground (arith, at))
      ∙ ap (λ y. day_of_month y 0 0) (omega arith)
  | inr last ↦
      first_of_march (suc era) 0 (omega arith) days (ground (arith, at))
      ∙ ap (λ y. day_of_month y 0 0) (ground arith)
]

-- The date of the day after a day is the next day of the calendar.
pub civil-next_day : (days : ℕ) → civil (suc days) ≡ next_day (civil days)
civil-next_day days =
    let (era, k, doy, hk, lt, at) = era_of days in
    let y = k + era * 400 in
    let today = civil-era era k doy hk lt days at in
    let len = stop-start era k hk in
    elim (Bool-cases (ltb (start k + suc doy) (stop k))) [
      | inl more ↦
          civil-era era k (suc doy) hk (ltb→lt _ _ more) (suc days) (omega (arith, at))
          ∙ sym (ap next_day today ∙ next_day-within era k doy (ground (arith, more, len)))
      | inr last ↦
          let over : suc doy ≡ (if is_leap (y + 1) then 366 else 365) =
            ground (arith, last, len, lt) in
          new_year era k hk (suc days) (ground (arith, at, over, len))
          ∙ sym (ap next_day today ∙ next_day-over era k doy over)
    ]
