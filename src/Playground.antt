-- ===== src/Playground.antt =====
-- frontend/src/components/PlaygroundPage.tsx: the sessions, the attachments and the conversation
-- with a model. A call of the gateway is cut where the handler waits; what the handler then still
-- reads is what it saw when it was called.

pub mod Chat
pub mod Data
pub mod Events
pub mod Calls
pub mod Late
pub mod Models
mod Tests
