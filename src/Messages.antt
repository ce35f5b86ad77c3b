-- ===== src/Messages.antt =====
-- Messages of a stream: `recover_pending_messages` of backend/app/core/recovery.py and the duplicates of
-- backend/app/core/dedup.py. Ids, payloads and hashes of events are numbers, times are in seconds. What Redis
-- answers is an argument.
pub mod Recovery
pub mod Dedup
pub mod Retries
pub mod Scan
