-- ===== src/RemoteConfig.antt =====
-- internal/remoteconfig: the policy document of /v2/config.
pub mod Json
pub mod MergePatch
pub mod Document
pub mod Validate
pub mod Match
pub mod Effective
pub mod Examples
