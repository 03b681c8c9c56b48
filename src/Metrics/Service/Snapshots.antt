-- ===== src/Metrics/Service/Snapshots.antt =====
-- `_upsert_snapshots` of app/metrics/service.py, and the rows of metric_snapshots.
pub mod Stored
use adept_engine.Base.{
  ℕ, suc, ◌+◌, ◌≡◌, refl, Bool, true, false, ◌&&◌, List, [], ◌∷◌, Text, ◌==◌, same, length,
}
use adept_engine.Base.Upsert.{upsert}
use adept_engine.Metrics.Snapshot.{MetricSnapshotResult, Observation}
use adept_engine.Metrics.Dora.{TimeDimensions, FailureDimensions}
use adept_engine.Metrics.CycleTime.{StageDimensions}

-- The dimensions of the calculations, as one type.
pub data Dimensions : Type 0 where
  counts : List Observation → Dimensions
  times : TimeDimensions → Dimensions
  failures : FailureDimensions → Dimensions
  stages : StageDimensions → Dimensions

abbrev pub Snapshot : Type 0
Snapshot = MetricSnapshotResult Dimensions

abbrev pub with_dimensions : {D : Type 0} → (D → Dimensions) → MetricSnapshotResult D → Snapshot
with_dimensions f s = record {
  metric_type = s.metric_type;
  granularity = s.granularity;
  period_start = s.period_start;
  period_end = s.period_end;
  value = s.value;
  unit = s.unit;
  sample_size = s.sample_size;
  calculation_version = s.calculation_version;
  dimensions = f s.dimensions;
}

-- metric_snapshots
pub record SnapshotRow : Type 0 where
  pub id : ℕ
  pub workspace_id : ℕ
  pub repository_id : ℕ
  pub snapshot : Snapshot
  pub calculated_at : ℕ
  pub updated_at : ℕ
  pub version : ℕ

abbrev pub same_period : Snapshot → Snapshot → Bool
same_period a b =
    same a.metric_type b.metric_type
    && (same a.granularity b.granularity
        && (a.period_start == b.period_start
            && (a.period_end == b.period_end && same a.calculation_version b.calculation_version)))

-- The unique key of the table.
abbrev pub same_snapshot : SnapshotRow → SnapshotRow → Bool
same_snapshot a b = a.repository_id == b.repository_id && same_period a.snapshot b.snapshot

-- The columns that the `DO UPDATE` sets, beside those of the key.
abbrev pub take_values : Snapshot → Snapshot → Snapshot
take_values old excluded = record old {
  value = excluded.value;
  unit = excluded.unit;
  sample_size = excluded.sample_size;
  dimensions = excluded.dimensions;
}

abbrev pub update_snapshot : SnapshotRow → SnapshotRow → SnapshotRow
update_snapshot old excluded = record old {
  snapshot = take_values old.snapshot excluded.snapshot;
  calculated_at = excluded.calculated_at;
  updated_at = excluded.updated_at;
  version = old.version + 1;
}

module _ (now : ℕ) (new_id : ℕ → ℕ) (workspace repository : ℕ) where
  abbrev pub row_of : ℕ → Snapshot → SnapshotRow
  row_of i s = record {
    id = new_id i;
    workspace_id = workspace;
    repository_id = repository;
    snapshot = s;
    calculated_at = now;
    updated_at = now;
    version = 0;
  }

  -- `rows`, counted from `i`; `new_id` gives the ids of those that are inserted.
  abbrev pub rows_from : ℕ → List Snapshot → List SnapshotRow
  rows_from i [] = []
  rows_from i (s ∷ ss) = row_of i s ∷ rows_from (suc i) ss

  -- The number of rows, and the table.
  unfoldable pub upsert_snapshots : List Snapshot → List SnapshotRow → ℕ × List SnapshotRow
  upsert_snapshots [] t = (0, t)
  upsert_snapshots (s ∷ ss) t =
      (length (rows_from 0 (s ∷ ss)), upsert same_snapshot update_snapshot (rows_from 0 (s ∷ ss)) t)
