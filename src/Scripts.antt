-- ===== src/Scripts.antt =====
-- The script engine of app.py. A moment is a number of seconds, as in Scheduler.
pub mod Worker
pub mod WorkerLaws
pub mod Coverage
pub mod CatchUp
pub mod Wait
pub mod Candidates
pub mod WaitLaws
