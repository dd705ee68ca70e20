-- ===== src/Tests.antt =====
-- Each theorem of the list in Lib.antt at a concrete input, and runs of the models.
mod Storage
mod Autodj
mod Station
mod Player
mod Engine
mod Identity
mod Scheduler
mod Annotate
mod Scripts
mod Bus
