-- ===== src/Workflow/Ports.antt =====
-- The ports of a node, `getDefaultPortsForType` of WorkflowNodeCard.tsx.
use cont_ained.Base.{String, Option, List, [], ◌∷◌, map, ◌==◌, ◌||◌, get_or, if◌then◌else◌}
use Prim.Native.String.{◌++◌}

-- `NodePort["type"]` and `NodePort["kind"]`.
pub data PortType : Type 0 where
  input output : PortType

pub data PortKind : Type 0 where
  data_port true_port false_port error_port route_port : PortKind

-- `NodePort`.
pub record NodePort : Type 0 where
  pub id : String
  pub label : String
  pub port_type : PortType
  pub kind : PortKind

pub record NodePorts : Type 0 where
  pub inputs : List NodePort
  pub outputs : List NodePort

abbrev port : String → String → PortType → PortKind → NodePort
port id label t kind = record { id = id; label = label; port_type = t; kind = kind }

abbrev default_routes : List String
default_routes = "support" ∷ "billing" ∷ "fallback" ∷ []

-- `getDefaultPortsForType(nodeType, dataConfig)`; the second argument is `dataConfig.routes`.
unfoldable pub get_default_ports_for_type : String → Option (List String) → NodePorts
get_default_ports_for_type node_type routes =
    if node_type == "start"
    then record { inputs = []; outputs = port "out" "Payload Out" output data_port ∷ [] }
    else if node_type == "if_else"
    then record {
      inputs = port "in" "Input Data" input data_port ∷ [];
      outputs =
          port "true" "True Branch" output true_port
          ∷ port "false" "False Branch" output false_port
          ∷ [];
    }
    else if node_type == "router"
    then record {
      inputs = port "in" "Input Query" input data_port ∷ [];
      outputs =
          map (λ r. port ("route_" ++ r) ("Route: " ++ r) output route_port)
            (get_or routes default_routes);
    }
    else if node_type == "final_message"
    then record { inputs = port "in" "Result In" input data_port ∷ []; outputs = [] }
    else if node_type == "gather" || node_type == "GatherNode"
    then record {
      inputs =
          port "in_multi" "Branch 1" input data_port
          ∷ port "in_multi_2" "Branch 2" input data_port
          ∷ [];
      outputs = port "out" "Merged Array" output data_port ∷ [];
    }
    else record {
      inputs = port "in" "Input Data" input data_port ∷ [];
      outputs =
          port "out" "Output Data" output data_port
          ∷ port "error" "On Error" output error_port
          ∷ [];
    }
