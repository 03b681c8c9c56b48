-- ===== src/Store.antt =====
-- Rows of the tables that app/metrics/service.py and app/normalization read and write: the columns that
-- the statements name. An id is a UUID's number, an instant a number of microseconds, NULL is `none`.
use adept_engine.Base.{ℕ, Bool, Option, Text}
use adept_engine.Values.Json.{Fields}

-- deployments
pub record DeploymentRow : Type 0 where
  pub id : ℕ
  pub workspace_id : ℕ
  pub repository_id : ℕ
  pub source : Text
  pub external_deployment_id : Text
  pub environment : Option Text
  pub is_production : Bool
  pub status : Text
  pub commit_sha : Option Text
  pub started_at : Option ℕ
  pub finished_at : Option ℕ
  pub raw_data : Fields
  pub updated_at : ℕ
  pub version : ℕ

-- deployment_pull_requests
pub record LinkRow : Type 0 where
  pub deployment_id : ℕ
  pub pull_request_id : ℕ
  pub link_method : Text
  pub created_at : ℕ

-- pull_requests, as far as metrics read it
pub record PullRequestRow : Type 0 where
  pub id : ℕ
  pub repository_id : ℕ
  pub state : Text
  pub author_login : Option Text
  pub base_ref : Text
  pub head_sha : Option Text
  pub merge_commit_sha : Option Text
  pub opened_at : Option ℕ
  pub first_commit_at : Option ℕ
  pub merged_at : Option ℕ
  pub ready_for_review_at : Option ℕ

-- pull_request_commits
pub record CommitRow : Type 0 where
  pub pull_request_id : ℕ
  pub commit_sha : Text
  pub committed_at : ℕ

-- pull_request_reviews
pub record ReviewRow : Type 0 where
  pub pull_request_id : ℕ
  pub github_review_id : ℕ
  pub reviewer_login : Option Text
  pub reviewer_is_bot : Bool
  pub state : Text
  pub submitted_at : ℕ

-- incidents
pub record IncidentRow : Type 0 where
  pub id : ℕ
  pub workspace_id : ℕ
  pub repository_id : ℕ
  pub source : Text
  pub title : Option Text
  pub status : Text
  pub failed_deployment_id : Option ℕ
  pub recovery_deployment_id : Option ℕ
  pub detected_at : ℕ
  pub resolved_at : Option ℕ
  pub updated_at : ℕ
  pub version : ℕ
