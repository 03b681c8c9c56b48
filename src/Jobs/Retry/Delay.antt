-- ===== src/Jobs/Retry/Delay.antt =====
-- The delay of app/jobs/retry.py over all numbers of attempts.
use native.Mathlib.Nat.{pow-le-pow_right, pow-suc}
use adept_engine.Base.{ℕ, suc, ◌+◌, ◌*◌, ◌^◌, ◌≡◌, ◌≤◌, ◌<◌, Option, none, arith, ℤ, pos, min, ap}
use adept_engine.Jobs.Errors.{ok}
use adept_engine.Jobs.Retry.{second, max_delay, retry_delay_seconds, jitter_of}

pow_mono : (a b : ℕ) → a ≤ b → 2 ^ a ≤ 2 ^ b
pow_mono a b h = pow-le-pow_right (omega arith) h

unfoldable pub delay_of : ℕ → Option ℤ → ℕ → ℕ
delay_of a j u = min max_delay (2 ^ a * second + jitter_of j u)

pub retry_delay-ok :
    (a : ℕ) (j : Option ℤ) (u : ℕ)
    → a < 1024
    → retry_delay_seconds (pos a) j u ≡ ok (delay_of a j u)
unfolding retry_delay_seconds delay_of
retry_delay-ok a j u h = ground arith

-- Of two attempts of one job below the 1024th, the later one waits at least as long, whatever the
-- two draws of the default jitter (the earlier one at most a second) are, and neither waits more
-- than 900 seconds.
pub retry_delay_ordered :
    (a b u v : ℕ)
    → a < b
    → b < 1024
    → u ≤ second
    → (d e : ℕ) × (retry_delay_seconds (pos a) none u ≡ ok d)
      × (retry_delay_seconds (pos b) none v ≡ ok e)
      × (d ≤ e)
      × (e ≤ max_delay)
unfolding delay_of
retry_delay_ordered a b u v h k w = (
  delay_of a none u,
  delay_of b none v,
  retry_delay-ok a none u (omega arith),
  retry_delay-ok b none v k,
  omega (arith, pow_mono (suc a) b h, pow-suc 2 a, pow_mono 0 a (omega arith)),
  omega arith,
)

-- From the tenth attempt on, below the 1024th, the delay is exactly 900 seconds, whatever the
-- jitter is.
pub retry_delay_saturates :
    (a : ℕ) (j : Option ℤ) (u : ℕ)
    → 10 ≤ a
    → a < 1024
    → retry_delay_seconds (pos a) j u ≡ ok max_delay
unfolding delay_of
retry_delay_saturates a j u h k =
    rw (retry_delay-ok a j u k) (ap ok (omega (arith, pow_mono 10 a h)))
