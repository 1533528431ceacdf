-- ===== src/Workflow.antt =====
-- The visual workflow editor, frontend/src/components/hubs/workflow: its graph data, the canvas
-- that connects nodes (WorkflowCanvas.tsx) and the editor that keeps the graph
-- (WorkflowEditor.tsx).
pub mod Position
pub mod Ports
pub mod Graph
pub mod Canvas
pub mod Editor
pub mod Draft
pub mod Linked
pub mod Run
mod Tests
mod RunTests
