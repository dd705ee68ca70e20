-- ===== src/Station.antt =====
-- Station Start and Stop (station/service.py): the order of the callbacks, and what is undone on a failure.
-- The callbacks are a record over an abstract world, and each call that they get is recorded.
pub mod Actions
pub mod Start
pub mod Tracking
pub mod StartLaws
pub mod Stop
pub mod StopLaws
