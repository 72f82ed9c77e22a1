-- ===== src/Cli/Epoch/Clock.antt =====
-- `format_epoch` of crates/pmd/src/main.rs against the calendar.
use pmd.Prelude.{
  ℕ, suc, ◌+◌, ◌*◌, ◌/◌, ◌%◌, ◌<◌, ◌≡◌, ◌∙◌, sym, ap, refl, inl, inr, arith, ltb, Bool-cases,
}
use pmd.Cli.Epoch.{Moment, civil, moment}
use pmd.Cli.Calendar.{next_second}
use pmd.Cli.Epoch.Days.{civil-next_day}

-- A time of day on a day, counted in seconds, found again.
moment-at :
    (day h m s epoch : ℕ)
    → h < 24
    → m < 60
    → s < 60
    → epoch ≡ day * 86400 + h * 3600 + m * 60 + s
    → moment epoch ≡ record { date = civil day; hours = h; minutes = m; seconds = s }
unfolding moment
moment-at day h m s epoch hh hm hs at =
    let d : epoch / 86400 ≡ day = omega (arith, at) in
    let e : epoch % 86400 ≡ h * 3600 + m * 60 + s = omega (arith, at) in
    let f : (h * 3600 + m * 60 + s) / 3600 ≡ h = omega arith in
    let g : (h * 3600 + m * 60 + s) % 3600 / 60 ≡ m = omega arith in
    let k : (h * 3600 + m * 60 + s) % 60 ≡ s = omega arith in rw (d, e, f, g, k)

time_of :
    (epoch : ℕ)
    → (day h m s : ℕ) × (h < 24)
      × (m < 60)
      × (s < 60)
      × (epoch ≡ day * 86400 + h * 3600 + m * 60 + s)
time_of epoch =
    let t = epoch % 86400 in
    (
      epoch / 86400,
      t / 3600,
      t % 3600 / 60,
      t % 60,
      omega arith,
      omega arith,
      omega arith,
      omega arith,
    )

next_second-at :
    (day h m s epoch : ℕ)
    → h < 24
    → m < 60
    → s < 60
    → suc epoch ≡ day * 86400 + h * 3600 + m * 60 + s + 1
    → moment (suc epoch)
      ≡ next_second (record { date = civil day; hours = h; minutes = m; seconds = s })
unfolding next_second
next_second-at day h m s epoch hh hm hs at = elim (Bool-cases (ltb s 59)) [
  | inl more ↦
      rw more (moment-at day h m (s + 1) (suc epoch) hh hm (ground arith) (omega (arith, at)))
  | inr last ↦ rw last (elim (Bool-cases (ltb m 59)) [
    | inl more' ↦
        rw more' (
          moment-at day h (m + 1) 0 (suc epoch) hh (ground arith) (omega arith)
            (ground (arith, at)))
    | inr last' ↦ rw last' (elim (Bool-cases (ltb h 23)) [
      | inl more'' ↦ rw more'' (
          moment-at day (h + 1) 0 0 (suc epoch) (ground arith) (omega arith) (omega arith)
            (ground (arith, at)))
      | inr last'' ↦
          rw (last'', ← civil-next_day day)
            (moment-at (suc day) 0 0 0 (suc epoch) (omega arith) (omega arith) (omega arith)
              (ground (arith, at)))
    ])
  ])
]

abbrev pub epoch_start : Moment
epoch_start = record {
  date = record { year = 1970; month = 1; day = 1 };
  hours = 0;
  minutes = 0;
  seconds = 0;
}

-- The moment of the epoch's start is 1970-01-01 00:00:00, and one second later it is the next second
-- of the calendar's clock, at every time.
pub moment-next_second :
    (moment 0 ≡ epoch_start) × ((epoch : ℕ) → moment (suc epoch) ≡ next_second (moment epoch))
unfolding moment civil
moment-next_second = (
  refl,
  λ epoch.
      let (day, h, m, s, hh, hm, hs, at) = time_of epoch in
      next_second-at day h m s epoch hh hm hs (omega (arith, at))
      ∙ ap next_second (sym (moment-at day h m s epoch hh hm hs at)),
)
