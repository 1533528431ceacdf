-- ===== src/Store.antt =====
-- frontend/src/store: the slices of the one store that the pages share.
pub mod Settings
pub mod Hubs
pub mod Notifications
pub mod Metrics
pub mod Jobs
pub mod Agents
pub mod Panel
mod Tests
mod SettingsTests
