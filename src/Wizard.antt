-- ===== src/Wizard.antt =====
-- frontend/src/components/hubs/HubCreateWizard.tsx and HubLinksPanel.tsx: the creation of a hub in
-- four steps, and the links from a hub to the hubs that it consumes.
pub mod Slug
pub mod Shape
pub mod Links
pub mod Form
pub mod Flow
pub mod Status
pub mod Matrix
pub mod Stale
mod Tests
