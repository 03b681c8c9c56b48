-- ===== src/Jobs/Claimer/Order.antt =====
-- The order of the queue (app/jobs/claimer.py).
use adept_engine.Base.{ℕ, ◌≡◌, true, false, arith}
use adept_engine.Base.Sorting.{IsTotal}
use adept_engine.Jobs.Claimer.{key_le, row_le, job_le, row_key}

key_le_total : (a b : ℕ × ℕ × ℕ) → key_le a b ≡ false → key_le b a ≡ true
key_le_total (p, c, i) (p', c', i') h = ground arith

key_le_trans : (a b c : ℕ × ℕ × ℕ) → key_le a b ≡ true → key_le b c ≡ true → key_le a c ≡ true
key_le_trans (p, c, i) (p', c', i') (p'', c'', i'') h k = ground arith

pub row_le-IsTotal : {J : Type 0} → IsTotal (row_le {J = J})
row_le-IsTotal = record {
  total = λ a b. key_le_total (row_key a) (row_key b);
  trans = λ a b c. key_le_trans (row_key a) (row_key b) (row_key c);
}

pub job_le-IsTotal : {J : Type 0} → IsTotal (job_le {J = J})
job_le-IsTotal = record {
  total = λ a b. key_le_total (a.priority, a.created_at, a.id) (b.priority, b.created_at, b.id);
  trans = λ a b c.
      key_le_trans (a.priority, a.created_at, a.id) (b.priority, b.created_at, b.id)
        (c.priority, c.created_at, c.id);
}
