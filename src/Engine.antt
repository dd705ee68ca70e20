-- ===== src/Engine.antt =====
-- What the program makes of the native engine's events (audio_engine/lifecycle.py, events.py).
pub mod Lifecycle
pub mod Tracked
pub mod Dedupe
pub mod Once
pub mod Stuck
pub mod Identity
pub mod IdentityLaws
pub mod Loads
pub mod LoadsLaws
pub mod Bus
pub mod BusLaws
