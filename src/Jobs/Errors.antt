-- ===== src/Jobs/Errors.antt =====
-- The exceptions that app/jobs raises and catches, and a transaction as a function from the table
-- to a result and the table that is committed: the old one, where the transaction rolls back.
use adept_engine.Base.{ℕ, Option, Text, codes}

pub data JobError : Type 0 where
  -- `ValueError`, and `OverflowError` of `float()`
  value_error overflow_error : Text → JobError
  -- `JobOwnershipError`
  job_ownership : Text → JobError
  -- `RequeueWithPayloadError`
  requeue_with_payload : JobError
  -- `PermanentJobError`
  permanent_job : Text → JobError
  -- `ProviderError` with its `retry_after_seconds`
  provider : Text → Option ℕ → JobError
  -- `JobScopeBusy` with the key of the lock
  scope_busy : Text → JobError
  -- any other exception
  other : Text → JobError

-- `str(exc)`
abbrev pub message : JobError → Text
message (JobError.value_error m) = m
message (JobError.overflow_error m) = m
message (JobError.job_ownership m) = m
message JobError.requeue_with_payload = codes ""
message (JobError.permanent_job m) = m
message (JobError.provider m _) = m
message (JobError.scope_busy m) = m
message (JobError.other m) = m

pub data Result {ℓ} (A : Type ℓ) : Type ℓ where
  ok : A → Result A
  err : JobError → Result A

infixl 5 ◌>>=◌
abbrev pub ◌>>=◌ {ℓ κ} : {A : Type ℓ} {B : Type κ} → Result A → (A → Result B) → Result B
ok a >>= f = f a
err e >>= f = err e
