-- ===== src/Workflow/Graph.antt =====
-- The graph data of WorkflowCanvas.tsx and WorkflowNodeCard.tsx.
use cont_ained.Base.{String, List, Option}
use cont_ained.Base.Dict.{Dict}
use cont_ained.Workflow.Position.{Position}
use cont_ained.Workflow.Ports.{NodePorts}

-- `WorkflowEdge`.
pub record WorkflowEdge : Type 0 where
  pub id : String
  pub source : String
  pub source_handle : String
  pub target : String
  pub target_handle : String

-- `WorkflowNodeData`; of `data` the texts that the editor reads and writes.
pub record WorkflowNodeData : Type 0 where
  pub id : String
  pub node_type : String
  pub label : String
  pub config : Dict String
  pub position : Position
  pub ports : Option NodePorts

-- What the editor keeps in `nodes` and `edges`, and in each entry of its history.
pub record Snapshot : Type 0 where
  pub nodes : List WorkflowNodeData
  pub edges : List WorkflowEdge
