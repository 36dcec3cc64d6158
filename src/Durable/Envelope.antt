-- ===== src/Durable/Envelope.antt =====
-- `QueueEnvelope` of src/pipelines/durable.py: the message that announces a job to a queue.
use Prim.Native.Nat.{ℕ}
use Prim.Native.String.{String}
use mathlib.Core.Bool.{◌||◌, not}
use text.Mathlib.Text.{◌==◌ as str_eq}
use foundation_intelligence.Common.{Result, ok, ◌>>◌, raise_if, is_blank, ltb}

pub record QueueEnvelope : Type 0 where
  pub schema_version : String
  pub job_id : ℕ
  pub job_type : String
  pub queue_name : String
  pub requested_at : ℕ
  pub attempt : ℕ
  pub max_attempts : ℕ

pub data EnvelopeError : Type 0 where
  unsupported_version missing_names invalid_attempt : EnvelopeError

-- `QueueEnvelope.validate`
unfoldable pub validate : QueueEnvelope → Result EnvelopeError (Unit {0})
validate e = do
  raise_if (not (str_eq e.schema_version "job-envelope-v1")) unsupported_version
  raise_if (is_blank e.job_type || is_blank e.queue_name) missing_names
  raise_if (ltb e.attempt 1 || ltb e.max_attempts e.attempt) invalid_attempt

-- `QueueEnvelope.payload`: the fields, once they are valid.
unfoldable pub payload : QueueEnvelope → Result EnvelopeError QueueEnvelope
unfolding validate
payload e = do validate e; ok e
