-- ===== src/Jobs/Errors.antt =====
-- The exceptions that the job operations raise, one for each place.
pub data JobError : Type 0 where
  invalid_job_type unbounded_key unbounded_queue_name invalid_max_attempts : JobError
  invalid_timeout long_dedupe_key no_active_dataset invalid_envelope : JobError
  conflict_not_reconciled unbounded_worker_id invalid_lease job_not_running : JobError
  unknown_dispatch unknown_dataset duplicate_dispatch : JobError
