-- ===== src/Clock.antt =====
-- Clock readings (`time.monotonic()`, `time.time()`) are whole nanoseconds.
use python_oauth2_server.Prelude.{ℕ, ◌+◌, ◌-◌, ◌/◌}

abbrev pub second : ℕ
second = 1_000_000_000

-- `math.ceil` of a quotient of naturals.
abbrev pub ceil_div : ℕ → ℕ → ℕ
ceil_div a b = (a + (b - 1)) / b
