-- ===== src/Worker/Deferral.antt =====
-- A job that a consumer claims and puts back (app/worker.py, `_defer`).
use adept_engine.Base.{ℕ, ◌+◌, ◌*◌, ◌≡◌, refl, ap, false, none, some, Text, arith, same_refl}
use adept_engine.Jobs.Row.{Status, Row, ClaimedJob, from_row}
use adept_engine.Jobs.Table.{Table, find, UniqueIds}
use adept_engine.Jobs.Errors.{ok}
use adept_engine.Jobs.Retry.{second, owned_row, set_pending}
use adept_engine.Jobs.Retry.Outcomes.{Wrote, requeue_with_payload-Wrote}
use adept_engine.Jobs.Claimer.{set_running}
use adept_engine.Worker.{defer, suppress_requeue}

-- What the claim wrote is owned by the worker.
owned_after_claim :
    {J : Type 0} (now : ℕ) (w : Text) (t : Table J) (x : Row J)
    → find x.id t ≡ some (set_running now w x)
    → owned_row x.id w t ≡ some (set_running now w x)
unfolding owned_row
owned_after_claim now w t x h = ground (arith, same_refl w)

module _ {J : Type 0} (now later : ℕ) (w : Text) (t : Table J) (x : Row J) where
  -- The job that a claim at `now` made of the row `x`.
  abbrev pub claimed : ClaimedJob J
  claimed = from_row (set_running now w x)

  -- Where ids are distinct, a claimed job that is put back without having run is PENDING and
  -- unlocked, has the payload and the number of attempts that it had before the claim, and is
  -- available after five seconds. No other row changes.
  pub defer_restores :
      UniqueIds t
      → find x.id t ≡ some (set_running now w x)
      → (r : Row J) × ((defer w later claimed t).0 ≡ ok tt)
        × Wrote x.id t r (defer w later claimed t).1
        × (r.status ≡ Status.pending)
        × (r.locked_by ≡ none)
        × (r.attempts ≡ x.attempts)
        × (r.payload ≡ x.payload)
        × (r.available_at ≡ later + 5 * second)
  unfolding defer from_row
  defer_restores u running =
      let d =
        requeue_with_payload-Wrote later x.id w x.payload (5 * second) false t (set_running now w x)
          u (owned_after_claim now w t x running) in
      (
        set_pending later (5 * second) false x.payload (set_running now w x),
        ap suppress_requeue (d.0),
        d.1,
        refl,
        refl,
        omega arith,
        refl,
        refl,
      )
