-- ===== src/Durable/Tests.antt =====
-- The theorems on sources and objects at concrete values.
use Prim.Native.String.{String}
use mathlib.Core.Path.{◌≡◌, refl}
use mathlib.Core.Bool.{true, false}
use mathlib.Core.Option.{some}
use mathlib.Core.List.{List, [], ◌∷◌}
use foundation_intelligence.Common.{ok, All, all_distinct, is_nil, is_sha256, strip}
use foundation_intelligence.Durable.Sources.{
  SourceConfiguration, load_source_configurations, validate_sources, validate_source,
  is_source_name, source_names,
}
use foundation_intelligence.Durable.Sources.Scheduled.{
  IsSchedulable, load_source_configurations-All,
}
use foundation_intelligence.Durable.Objects.{
  StorageObject, Bytes, Objects, put_if_absent, validate_object, get,
}
use foundation_intelligence.Durable.Objects.Immutable.{
  IsIntact, puts, put_if_absent-get, puts-IsIntact,
}

abbrev sample_source : SourceConfiguration
sample_source = record {
  source_name = "philea-members";
  source_owner = "data";
  technical_owner = "platform";
  legal_status = "approved";
  licence_status = "approved";
  rate_limit_per_minute = 10;
  user_agent = "bot";
  freshness_sla_hours = 24;
  schedule_expression = "daily";
  enabled = true;
  governance_blocked = false;
  classification = "public";
  retention_class = "raw";
  schema_version = "1";
  retry_limit = 3;
  timeout_seconds = 30;
  maximum_pages = 5;
  maximum_records = 100;
}

loaded : load_source_configurations (sample_source ∷ []) ≡ ok (sample_source ∷ [])
unfolding load_source_configurations validate_sources validate_source is_source_name strip
loaded = refl

load_source_configurations-All_example :
    (is_nil (sample_source ∷ []) ≡ false)
    × (all_distinct (source_names (sample_source ∷ [])) ≡ true)
    × All IsSchedulable (sample_source ∷ [])
load_source_configurations-All_example =
    load_source_configurations-All (sample_source ∷ []) (sample_source ∷ []) loaded

-- A stand-in for the digest.
abbrev sample_digest : Bytes → String
sample_digest _ = "0123456789abcdef0123456789abcdef0123456789abcdef0123456789abcdef"

abbrev sample_object : StorageObject
sample_object = record {
  zone = "raw";
  bucket_alias = "main";
  object_key = "raw/a";
  object_version = "1";
  checksum = "0123456789abcdef0123456789abcdef0123456789abcdef0123456789abcdef";
  content_length = 2;
  content_type = "text/plain";
  immutable = true;
}

abbrev sample_bytes : Bytes
sample_bytes = 7 ∷ 8 ∷ []

abbrev stored : Objects
stored = (sample_object, sample_bytes) ∷ []

put_sample : put_if_absent sample_digest sample_object sample_bytes [] ≡ ok stored
unfolding put_if_absent validate_object is_sha256 strip
put_sample = refl

abbrev other_puts : List (StorageObject × Bytes)
other_puts =
    (sample_object, 9 ∷ 9 ∷ []) ∷ (record sample_object { object_key = "raw/b" }, sample_bytes) ∷ []

put_if_absent-get_example :
    (get sample_object (puts sample_digest other_puts stored) ≡ some sample_bytes)
    × ((q : Bytes) (out : Objects)
        → put_if_absent sample_digest sample_object q (puts sample_digest other_puts stored)
          ≡ ok out
        → (q ≡ sample_bytes) × (out ≡ puts sample_digest other_puts stored))
put_if_absent-get_example =
    put_if_absent-get sample_digest sample_object sample_bytes [] stored other_puts put_sample

puts-IsIntact_example : All (IsIntact sample_digest) (puts sample_digest other_puts [])
puts-IsIntact_example = puts-IsIntact sample_digest other_puts [] tt
