-- ===== src/Jobs/Tests.antt =====
-- The theorems on the job tables at concrete histories.
use mathlib.Core.Path.{◌≡◌, refl}
use mathlib.Core.Logic.{inl}
use mathlib.Core.Option.{some}
use mathlib.Core.List.{[]}
use native.Mathlib.Omega.{arith}
use foundation_intelligence.Durable.Envelope.{payload}
use foundation_intelligence.Common.{strip, ok, In}
use foundation_intelligence.Jobs.Schema.{Db, JobRun}
use foundation_intelligence.Jobs.Enqueue.{
  EnqueueReply, checked_request, active_dataset, enqueue, enqueue_checked, insert_job,
  normalized_dedupe_key, noop_reply,
}
use foundation_intelligence.Jobs.Enqueue.Idempotent.{enqueue_repeated}
use foundation_intelligence.Jobs.Enqueue.Total.{enqueue_total}
use foundation_intelligence.Jobs.Events.{last_sequence}
use foundation_intelligence.Jobs.Claim.{candidate, claim, claim_checked, claim_run}
use foundation_intelligence.Jobs.Claim.Order.{Claims, claim-Claims}
use foundation_intelligence.Jobs.Invariant.{IsValid}
use foundation_intelligence.Jobs.System.{
  Reach, enqueues, claims, commits, here, next, activates, Reach-empty-IsValid, empty_db,
}
use foundation_intelligence.Jobs.History.{Later, Reach-Later}
use foundation_intelligence.Jobs.Samples.{
  sample_request, start_db, sample_run, queued_db, sample_reply, unlocked, busy_run, busy_db,
}

-- The sample request in the empty tables.
enqueue_sample : enqueue 10 1 5 [] [] sample_request start_db ≡ ok (queued_db, sample_reply)
unfolding enqueue checked_request enqueue_checked active_dataset insert_job strip
    normalized_dedupe_key payload last_sequence
enqueue_sample = refl

checked_sample : checked_request sample_request ≡ ok sample_request
unfolding checked_request strip normalized_dedupe_key
checked_sample = refl

active_sample : active_dataset start_db ≡ ok "v1"
unfolding active_dataset
active_sample = refl

active_busy : active_dataset busy_db ≡ ok "v1"
unfolding active_dataset claim_run
active_busy = refl

claim_sample : claim 20 unlocked "worker-1" "default" 60 queued_db ≡ ok (busy_db, some busy_run)
unfolding claim claim_checked candidate claim_run strip
claim_sample = refl

sample_enqueues :
    Reach (record { clock = 0; db = empty_db }) (record { clock = 10; db = queued_db })
sample_enqueues = next (next here (commits 10 start_db (omega arith) (activates (some "v1")))) (
    commits 10 queued_db (omega arith)
      (enqueues 1 5 [] [] sample_request (queued_db, sample_reply) enqueue_sample))

sample_claims : Reach (record { clock = 10; db = queued_db }) (record { clock = 20; db = busy_db })
sample_claims = next here (
    commits 20 busy_db (omega arith)
      (claims unlocked "worker-1" "default" 60 (busy_db, some busy_run) claim_sample))

start_db-IsValid : IsValid 10 start_db
start_db-IsValid =
    Reach-empty-IsValid 10 (next here (commits 10 start_db (omega arith) (activates (some "v1"))))

queued_db-IsValid : IsValid 10 queued_db
queued_db-IsValid = Reach-empty-IsValid 0 sample_enqueues

Reach-empty-IsValid_example : IsValid 10 queued_db
Reach-empty-IsValid_example = Reach-empty-IsValid 0 sample_enqueues

Reach-Later_example : (r : JobRun) × In r busy_db.job_runs × Later sample_run r
Reach-Later_example = Reach-Later sample_run sample_claims queued_db-IsValid (inl refl)

enqueue_repeated_example :
    (run : JobRun) × (enqueue 25 2 6 busy_db.job_runs [] sample_request busy_db
      ≡ ok (busy_db, noop_reply run))
    × (run.job_run_id ≡ 1)
    × (run.input ≡ "{}")
enqueue_repeated_example =
    enqueue_repeated 10 1 5 [] [] sample_request sample_request start_db (queued_db, sample_reply)
      25 2 6 [] sample_request sample_request "v1" start_db-IsValid checked_sample enqueue_sample
      refl sample_claims checked_sample refl refl active_busy

enqueue_total_example :
    (out : Db × EnqueueReply) × (enqueue 10 1 5 [] [] sample_request start_db ≡ ok out)
enqueue_total_example =
    enqueue_total 10 1 5 sample_request sample_request "v1" start_db checked_sample active_sample tt
      tt

claim-Claims_example : Claims 20 unlocked "default" 60 queued_db (busy_db, some busy_run)
unfolding strip
claim-Claims_example =
    claim-Claims 20 unlocked "worker-1" "default" 60 queued_db (busy_db, some busy_run) claim_sample
