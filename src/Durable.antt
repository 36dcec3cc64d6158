-- ===== src/Durable.antt =====
-- The contracts of src/pipelines/durable.py: queue envelopes, source configurations and the
-- immutable object store.
pub mod Envelope
pub mod Sources
pub mod Objects
pub mod Tests
