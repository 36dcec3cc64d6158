-- ===== src/Jobs/Samples.antt =====
-- A queued job, and the same job claimed, for the tests of the job tables.
use Prim.Native.Nat.{ℕ}
use mathlib.Core.Bool.{Bool, false}
use mathlib.Core.Option.{none, some}
use mathlib.Core.List.{[], ◌∷◌}
use foundation_intelligence.Jobs.Schema.{Db, Dispatch, JobRun, JobStatus, ProfileRow, ProfileStatus}
use foundation_intelligence.Jobs.Enqueue.{
  queued_event, EnqueueRequest, EnqueueReply, new_run, job_envelope, new_dispatch,
}
use foundation_intelligence.Jobs.Claim.{claimed_run, claim_run}
use foundation_intelligence.Jobs.System.{empty_db}

abbrev pub sample_request : EnqueueRequest
sample_request = record {
  job_type = "hydrate";
  payload = "{}";
  actor_id = "analyst";
  idempotency_key = "key-1";
  queue_name = "default";
  max_attempts = 2;
  timeout_seconds = 30;
  active_dedupe_key = some "profile-7";
}

abbrev pub start_db : Db
start_db = record empty_db { active_dataset = some "v1" }

abbrev pub sample_run : JobRun
sample_run = new_run 10 1 "v1" sample_request

abbrev pub queued_db : Db
queued_db = record start_db {
  job_runs = sample_run ∷ [];
  outbox = new_dispatch 10 5 sample_run (job_envelope sample_run) ∷ [];
  events = queued_event 10 1 "analyst" "hydrate" ∷ [];
}

abbrev pub sample_reply : EnqueueReply
sample_reply = record {
  job_id = 1;
  status = JobStatus.queued;
  requested_at = 10;
  idempotent_noop = false;
}

-- No row is locked by another session.
abbrev pub unlocked : ℕ → Bool
unlocked _ = false

abbrev pub busy_run : JobRun
busy_run = claimed_run 20 60 sample_run

abbrev pub busy_db : Db
busy_db = (claim_run 20 "worker-1" "default" 60 sample_run queued_db).0

-- A profile that waits for the job.
abbrev pub waiting_profile : ProfileRow
waiting_profile = record {
  source_funder_key = "funder-7";
  status = ProfileStatus.pending;
  payload = none;
  error = none;
  updated_at = 10;
  job_token = some 1;
}

-- A second request, with other keys, and its job queued beside the first.
abbrev pub second_request : EnqueueRequest
second_request = record sample_request { idempotency_key = "key-2"; active_dedupe_key = none }

abbrev pub second_run : JobRun
second_run = new_run 15 2 "v1" second_request

abbrev pub both_db : Db
both_db = record queued_db {
  job_runs = sample_run ∷ second_run ∷ [];
  outbox =
      new_dispatch 10 5 sample_run (job_envelope sample_run)
      ∷ new_dispatch 15 6 second_run (job_envelope second_run)
      ∷ [];
  events = queued_event 10 1 "analyst" "hydrate" ∷ queued_event 15 2 "analyst" "hydrate" ∷ [];
}

abbrev pub second_reply : EnqueueReply
second_reply = record sample_reply { job_id = 2; requested_at = 15 }

abbrev pub sample_dispatch : Dispatch
sample_dispatch = new_dispatch 10 5 sample_run (job_envelope sample_run)
