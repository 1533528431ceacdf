-- ===== src/Lib.antt =====
-- A verification library for the frontend of ContAIned, the TypeScript under frontend/src. Each part
-- of the program is a module; a handler of the program is one function on a record of its state, and
-- what comes from the browser, the gateway or the clock is an argument of it.
--
-- The parts, and the files that model them:
--   Permissions    frontend/src/hooks/useHubPermissions.ts,
--                  frontend/src/components/hubs/HubContext.tsx and Gated.tsx there, and the
--                  archived banner of HubShell.tsx there. `evaluate`, `can` and `deny_reason` are
--                  the functions of the same names; Permissions/Laws has the theorems.
--   Routes         frontend/src/routes.ts: the builders that lead into a hub, as one `build` on
--                  `HubRoute`, and `parse_hub_route`. Routes/Text has the operations on paths,
--                  Routes/RoundTrip and Routes/Builders the way there and back.
--   Wizard         frontend/src/components/hubs: HubCreateWizard.tsx (Slug, Form) and
--                  HubLinksPanel.tsx (Links). Shape, Flow, Status, Stale and Matrix have the
--                  theorems: the slug, the steps, the status of the slug and the hubs on offer.
--   Workflow       frontend/src/components/hubs/workflow. Workflow/Graph, Position and Ports have
--                  the data; Workflow/Canvas drafts a connection and searches for the cycle that
--                  it would close (WorkflowCanvas.tsx); Workflow/Editor has the handlers of
--                  WorkflowEditor.tsx, with its undo history; Workflow/Editor/Actions composes the
--                  canvas with the editor, as `onAddEdge = handleAddEdge` does;
--                  Workflow/Editor/Nodes adds nodes and binds hub resources. The proofs stand
--                  below the module that they are about.
--                  Workflow/Draft loads and keeps the local draft and removes it on a save, Workflow/Linked fetches from
--                  the linked hubs, Workflow/Run is the run modal (WorkflowRunModal.tsx).
--   Playground     frontend/src/components/PlaygroundPage.tsx: Data, Chat and Events have the page
--                  and its handlers, Models the list of models; Calls and Late the theorems.
--   Palette        frontend/src/components/layout/CommandPalette.tsx; Leads and Inside are about
--                  its commands and its highlight.
--   Directory      frontend/src/components/hubs/HubDirectory.tsx; Filters and Address are about the
--                  selected types and the address that keeps them.
--   Upload         frontend/src/components/hubs/ingestion/IngestionUploadModal.tsx; Models has the
--                  models on offer, Sent is about what is sent.
--   AgentPage      frontend/src/components/hubs/agent/AgentDetail.tsx: Data and Events have the state and
--                  the events, Linked the knowledge tab; Kept, Lost and Bound the theorems.
--   Suite          frontend/src/components/hubs/eval/SuiteDetailWorkspace.tsx: Data, Runs and Shown
--                  with the handlers; Idle, Payloads and Refresh the theorems.
--   Collections    frontend/src/components/hubs/ingestion/CollectionsWorkspace.tsx; Asked and Refusals are
--                  about the two dialogs before a deletion.
--   Tools          frontend/src/components/MCPHubPage.tsx; Drawer has the test of a tool.
--   Api            frontend/src/services/api.ts, the function `request`: one pass through its
--                  `try` is `attempt_once`, its `for` loop is `request_loop`. Api/Client has the
--                  configuration and the headers, Api/Endpoints the calls inside a hub; Verdict
--                  says what a reply means by its status, Public which endpoints take no token.
--   Telemetry      frontend/src/services/telemetry.ts, one handler for each event of the
--                  connection; it writes the metrics of Store/Metrics, as the service calls the
--                  store.
--   Store          frontend/src/store: hubSlice.ts (Hubs), notificationSlice.ts (Notifications),
--                  metricsSlice.ts (Metrics), ingestionSlice.ts (Jobs), agentSlice.ts (Agents),
--                  workflowSlice.ts (Panel), settingsSlice.ts with useStore.ts (Settings).
--   Auth           frontend/src/store/authSlice.ts and the guards of frontend/src/components/auth.
--   Table          frontend/src/components/shared/DataTable.tsx.
--   Toasts         frontend/src/components/shared/ToastProvider.tsx.
--   Base           shared names, lists, texts, dictionaries, and handlers that send requests (Action).
--
-- State is passed explicitly: a `set(...)` of the store or a `setState` of React is a field of the new
-- record. Handlers run one after the other, as JavaScript runs them; an action that waits for the
-- gateway is either split where it waits (`begin_save`, `finish_save`) or taken to run to its end.
--
-- Fuel and bounds: `creates_cycle` takes fuel and returns `none` when it runs out, since the
-- recursion of the source has no bound; how much is enough follows from a topological order.
-- `slot_loop` takes 61 rounds, one more than the grid has slots, so that its own test ends it. The
-- loop of `request` recurses on the attempts that are left. All other loops go down a list or a
-- text.
--
-- Parameters: what `JSON` reads and writes, the type of JavaScript's floating-point numbers where
-- they are only stored (Store, Telemetry, Playground, Upload), what the records `Host` and `Texts`
-- take from JavaScript's texts and arrays, `toLowerCase` and `toUpperCase`, the fixed wording of
-- messages (`Wording`), the replies of the gateway, new ids and times. What is relied on of `JSON`,
-- `join` and `split` is a hypothesis of the theorem that needs it. Numbers that are counted are
-- natural numbers; positions on the canvas are whole pixels.
--
-- Not modelled: rendering, drawing and the viewport of the canvas, the pages and dialogs over single
-- requests but those above, the calls of services/api.ts outside a hub, the fixed paths of routes.ts, and
-- everything outside frontend/src, which is in other languages.
mod Base
pub mod Permissions
pub mod Routes
pub mod Directory
pub mod Upload
pub mod Palette
pub mod Playground
pub mod Workflow
pub mod Store
pub mod Api
pub mod Telemetry
pub mod Auth
pub mod Table
pub mod AgentPage
pub mod Suite
pub mod Tools
pub mod Collections
pub mod Toasts
pub mod Wizard
