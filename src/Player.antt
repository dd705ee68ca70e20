-- ===== src/Player.antt =====
-- Manual Next and the deck handoff (player/orchestration.py). The requests of one station, its
-- worker and its native events are steps of one system.
pub mod Requests
pub mod Execute
pub mod Worker
pub mod Results
pub mod Order
pub mod Serial
pub mod Confirmed
pub mod Handoff
pub mod HandoffLaws
