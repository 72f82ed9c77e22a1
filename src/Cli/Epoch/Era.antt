-- ===== src/Cli/Epoch/Era.antt =====
-- The year and the day within it that crates/pmd/src/main.rs finds for a day of a 400-year era.
use pmd.Prelude.{ℕ, ◌+◌, ◌-◌, ◌*◌, ◌/◌, ◌≤◌, ◌<◌, ◌≡◌, arith}
use pmd.Cli.Epoch.{year_of_era, day_of_year}

-- The days of an era before its year `k`, and those up to the end of that year.
abbrev pub start : ℕ → ℕ
start k = 365 * k + k / 4 - k / 100

abbrev pub stop : ℕ → ℕ
stop k = 365 * (k + 1) + (k + 1) / 4 - (k + 1) / 100 + (k + 1) / 400

year_of_era_bounds :
    (doe : ℕ)
    → doe < 146097
    → (year_of_era doe ≤ 399) × (start (year_of_era doe) ≤ doe) × (doe < stop (year_of_era doe))
unfolding year_of_era
year_of_era_bounds doe h = (omega arith, omega arith, omega arith)

-- The year is the only one that holds the day.
year_unique :
    (doe j k : ℕ)
    → j ≤ 399
    → k ≤ 399
    → start j ≤ doe
    → doe < stop j
    → start k ≤ doe
    → doe < stop k
    → j ≡ k
year_unique doe j k hj hk a b c d = omega arith

pub year_of_era-eq :
    (doe k : ℕ) → doe < 146097 → k ≤ 399 → start k ≤ doe → doe < stop k → year_of_era doe ≡ k
year_of_era-eq doe k h hk a b =
    let w = year_of_era_bounds doe h in year_unique doe (year_of_era doe) k w.0 hk w.1 w.2 a b

-- A day of the year `k`, by its number in the year.
pub year_of_era-start :
    (k doy : ℕ)
    → k ≤ 399
    → start k + doy < stop k
    → (year_of_era (start k + doy) ≡ k) × (day_of_year (start k + doy) k ≡ doy)
unfolding day_of_year
year_of_era-start k doy hk h =
    (year_of_era-eq (start k + doy) k (omega arith) hk (omega arith) h, omega arith)

-- Each day of an era is a day of one of its years.
pub era_day :
    (doe : ℕ)
    → doe < 146097
    → (k doy : ℕ) × (k ≤ 399) × (doe ≡ start k + doy) × (start k + doy < stop k)
era_day doe h =
    let w = year_of_era_bounds doe h in
    (
      year_of_era doe,
      doe - start (year_of_era doe),
      w.0,
      omega (arith, w.1),
      omega (arith, w.1, w.2),
    )
