-- ===== src/Monitor.antt =====
-- The monitor (src/monitor): the transfer-reason ring, the events and the two loops.
pub mod XferRing
pub mod Events
pub mod FastLoop
pub mod SlowPoll
