-- ===== src/Clock.antt =====
-- The clocks (src/common/clock). `SystemClock` is the time of the machine, an argument wherever it is
-- read; `FakeClock` is a state of the tests. Times are milliseconds.
use wizdaa_takehome.Prelude.{ℕ, ◌+◌}

pub record FakeClock : Type 0 where
  pub current : ℕ

abbrev pub clock_now : FakeClock → ℕ
clock_now c = c.current

abbrev pub set_now : ℕ → FakeClock → FakeClock
set_now time c = record c { current = time }

-- `advance`, by a time that is not below zero.
abbrev pub advance : ℕ → FakeClock → FakeClock
advance ms c = record c { current = c.current + ms }
