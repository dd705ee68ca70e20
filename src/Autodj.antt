-- ===== src/Autodj.antt =====
-- AutoDJ (autodj/service.py): the choice of a track for a rotation entry, and one filling of the
-- queue. What the callbacks and `random` return at one attempt is a `View`.
pub mod Pick
pub mod Unlike
pub mod Allowed
pub mod Rules
pub mod Fill
pub mod FillLaws
pub mod Startup
pub mod StartupLaws
