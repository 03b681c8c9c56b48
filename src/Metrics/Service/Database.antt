-- ===== src/Metrics/Service/Database.antt =====
-- The tables that app/metrics/service.py works on, and what a run of it takes from outside: the zone
-- database, the time, and the defaults that the database gives new rows.
use adept_engine.Base.{ℕ, Option, List, Text}
use adept_engine.Values.Json.{Fields}
use adept_engine.Normalization.Patterns.{Settings}
use adept_engine.Jobs.Table.{Table}
use adept_engine.Store.{DeploymentRow, LinkRow, PullRequestRow, CommitRow, ReviewRow, IncidentRow}
use adept_engine.Metrics.Buckets.{Zone}
use adept_engine.Metrics.Service.Snapshots.{SnapshotRow}

pub record Database : Type 0 where
  pub deployments : List DeploymentRow
  pub links : List LinkRow
  pub pull_requests : List PullRequestRow
  pub commits : List CommitRow
  pub reviews : List ReviewRow
  pub incidents : List IncidentRow
  pub snapshots : List SnapshotRow
  pub jobs : Table Fields
  -- workspaces.timezone, repositories.default_branch and repositories.settings
  pub timezone : ℕ → Option Text
  pub default_branch : ℕ → Text
  pub settings : ℕ → Settings

pub record Environment : Type 0 where
  pub zones : Text → Option Zone
  pub now : ℕ
  -- the id of a new incident, by the deployment that failed, and of the snapshots of a batch
  pub incident_id : ℕ → ℕ
  pub snapshot_id : ℕ → ℕ
  pub job_id : ℕ
  pub max_attempts : ℕ
