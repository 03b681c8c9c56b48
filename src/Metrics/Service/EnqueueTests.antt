-- ===== src/Metrics/Service/EnqueueTests.antt =====
-- A repository whose job waits already, and one without history, for the theorems on the jobs that
-- app/metrics/service.py queues.
use adept_engine.Base.{ℕ, ◌+◌, ◌≡◌, ◌<◌, refl, true, false, none, some, [], ◌∷◌, codes, same, arith}
use adept_engine.Values.Json.{Fields, get}
use adept_engine.Jobs.Invariant.{AllValid}
use adept_engine.Metrics.Calendar.{month_of}
use adept_engine.Jobs.Table.{Table}
use adept_engine.Metrics.Service.Enqueue.{
  new_job, request, range_fields, enqueue_recalculate_metrics_job,
}
use adept_engine.Metrics.Service.Enqueue.Widens.{
  IsReady, waiting_job, join, asked, Waits, enqueue_widens,
}
use adept_engine.Metrics.Service.Enqueue.Keeps.{enqueue-AllValid}
use adept_engine.Metrics.Service.History.{
  TrackedRepository, enqueue_missing_cycle_time_history, enqueue_missing_cycle_time_history_once,
}

abbrev row_id : ℕ → ℕ
row_id i = i + 100

-- A job that waits for the range from 4 to 4.
abbrev waits : Table Fields
waits = (enqueue_recalculate_metrics_job 8 2 5 1 7 (some 4) none []).1

waits_for : Waits (waiting_job 7 waits) (some (4, 4))
unfolding enqueue_recalculate_metrics_job new_job request range_fields get same
waits_for = (refl, refl)

dated : (month_of 0 < 119_988) × (month_of 0 < 119_988)
unfolding month_of
dated = (omega arith, omega arith)

enqueue_widens_example :
    IsReady
      (enqueue_recalculate_metrics_job 9 3 5 1 7 (some 9) (some 12) waits).0
      9
      (join (some (4, 4)) (asked (some 9) (some 12)))
      (waiting_job 7 (enqueue_recalculate_metrics_job 9 3 5 1 7 (some 9) (some 12) waits).1)
enqueue_widens_example =
    enqueue_widens 9 3 5 1 7 (some 9) (some 12) (some (4, 4)) waits dated dated waits_for

enqueue-AllValid_example : AllValid (enqueue_recalculate_metrics_job 9 3 5 1 7 (some 4) none []).1
enqueue-AllValid_example = enqueue-AllValid 9 3 5 1 7 (some 4) none [] refl (tt, tt)

abbrev tracked : TrackedRepository
tracked = record {
  id = 7;
  workspace_id = 1;
  tracking_enabled = true;
  archived = false;
  integration_status = codes "ACTIVE";
}

enqueue_missing_cycle_time_history_once_example :
    enqueue_missing_cycle_time_history 9 row_id 5
      (tracked ∷ [])
      []
      (enqueue_missing_cycle_time_history 8 row_id 5 (tracked ∷ []) [] []).1
    ≡ (0, (enqueue_missing_cycle_time_history 8 row_id 5 (tracked ∷ []) [] []).1)
enqueue_missing_cycle_time_history_once_example =
    enqueue_missing_cycle_time_history_once 8 9 row_id 5 (tracked ∷ []) [] [] (omega arith)
