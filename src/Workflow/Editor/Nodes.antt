-- ===== src/Workflow/Editor/Nodes.antt =====
-- `handleAddNode`, the auto-binding of hub resources and the validation badge of WorkflowEditor.tsx,
-- with the labels of `NODE_CONFIGS` in WorkflowNodeCard.tsx.
pub mod Binding
use Prim.Native.String.{◌++◌ as join}
use cont_ained.Base.{
  ℕ, zero, suc, ◌+◌, ◌≡◌, ◌≢◌, refl, Bool, true, false, ◌&&◌, ◌||◌, not, Option, none, some, List,
  [], ◌∷◌, String, map, ◌==◌, eq_iff, arith, length, filter, if◌then◌else◌, get_or, eq-false_of_ne,
  eq_refl, inl, inr, Bool-cases,
}
use cont_ained.Base.Dict.{Dict, lookup, insert, lookup-insert}
use cont_ained.Workflow.Position.{Position}
use cont_ained.Workflow.Ports.{get_default_ports_for_type}
use cont_ained.Workflow.Graph.{WorkflowNodeData}
use cont_ained.Workflow.Editor.{Editor, append_node, free_slot}

-- What the handlers use of JavaScript's texts: `toUpperCase` and a number in a template.
pub record Texts : Type 0 where
  pub to_upper_case : String → String
  pub of_number : ℕ → String

-- An agent or an eval suite, as the property drawer has them.
pub record Resource : Type 0 where
  pub id : String
  pub name : Option String
  pub hub_id : Option String

-- `o || d` on a text that may be missing.
abbrev pub or_text : Option String → String → String
or_text none d = d
or_text (some s) d = if s == "" then d else s

-- `!data[key]`.
abbrev pub is_blank : Option String → Bool
is_blank none = true
is_blank (some s) = s == ""

-- The labels of `NODE_CONFIGS`.
abbrev node_configs : Dict String
node_configs =
    ("start", "Workflow Input")
    ∷ ("webhook", "HTTP Webhook")
    ∷ ("WebhookNode", "HTTP Webhook")
    ∷ ("agent", "Agent Invocation")
    ∷ ("AgentNode", "Agent Invocation")
    ∷ ("multi_agent", "Multi-Agent Consensus")
    ∷ ("MultiAgentNode", "Multi-Agent Consensus")
    ∷ ("eval", "Eval Suite")
    ∷ ("EvalNode", "Eval Suite")
    ∷ ("api_call", "API Call")
    ∷ ("APICallNode", "API Call")
    ∷ ("classifier", "Classifier")
    ∷ ("ClassifierNode", "Classifier")
    ∷ ("if_else", "If / Else Condition")
    ∷ ("IfElseNode", "If / Else Condition")
    ∷ ("router", "Intent Router")
    ∷ ("RouterNode", "Intent Router")
    ∷ ("gather", "Gather / Merge")
    ∷ ("GatherNode", "Gather / Merge")
    ∷ ("transform", "Transform JSON")
    ∷ ("TransformNode", "Transform JSON")
    ∷ ("coding", "Code Script")
    ∷ ("CodingNode", "Code Script")
    ∷ ("synthesis", "LLM Synthesizer")
    ∷ ("SynthesisNode", "LLM Synthesizer")
    ∷ ("web_search", "Web Search")
    ∷ ("WebSearchNode", "Web Search")
    ∷ ("action", "Action")
    ∷ ("ActionNode", "Action")
    ∷ ("final_message", "Final Output")
    ∷ ("FinalMessageNode", "Final Output")
    ∷ []

-- The three fields that a bound resource leaves in `data`.
unfoldable pub bind_resource : String → String → String → Resource → Dict String → Dict String
bind_resource id_key name_key hub_id r config =
    insert "hub_id" (or_text r.hub_id hub_id)
      (insert name_key (or_text r.name r.id) (insert id_key r.id config))

-- `availableX.length > 0` and the first of them.
abbrev with_first : List Resource → (Resource → Dict String) → Dict String → Dict String
with_first [] f config = config
with_first (r ∷ rs) f config = f r

-- `initialData` of `handleAddNode`.
unfoldable pub initial_data : String → String → List Resource → List Resource → Dict String
unfolding bind_resource
initial_data hub_id node_type agents suites =
    if node_type == "agent"
    then with_first agents (λ r. bind_resource "agent_id" "agent_name" hub_id r []) []
    else if node_type == "eval"
    then with_first suites (λ r. bind_resource "suite_id" "suite_name" hub_id r []) []
    else []

-- `handleAddNode`; `new_id` is the text `node_${Date.now()}`.
unfoldable pub add_node :
    Texts
    → String
    → List Resource
    → List Resource
    → String
    → String
    → Option Position
    → Editor
    → Editor
unfolding append_node free_slot initial_data lookup get_default_ports_for_type
add_node texts hub_id agents suites new_id node_type override_pos s =
    let label : String = get_or (lookup node_type node_configs) (texts.to_upper_case node_type) in
    append_node
      (record {
        id = new_id;
        node_type = node_type;
        label = join label (join " " (texts.of_number (length s.nodes + 1)));
        config = initial_data hub_id node_type agents suites;
        position = get_or override_pos (free_slot (map (λ n. n.position) s.nodes));
        ports = some (get_default_ports_for_type node_type none);
      })
      s

-- The test of the auto-binding and of the validation badge: a node of this type with no resource.
abbrev pub lacks : String → String → WorkflowNodeData → Bool
lacks node_type key n = n.node_type == node_type && is_blank (lookup key n.config)

-- One `if` of the auto-binding; with no resource at hand the node stays.
abbrev bind_if :
    Bool → (Resource → Dict String) → List Resource → WorkflowNodeData → WorkflowNodeData
bind_if true f (r ∷ rs) n = record n { config = f r }
bind_if _ f _ n = n

-- The body of the auto-binding's `map`.
unfoldable pub bind_node :
    String → List Resource → List Resource → WorkflowNodeData → WorkflowNodeData
unfolding bind_resource
bind_node hub_id agents suites n =
    let m : WorkflowNodeData =
      bind_if (lacks "agent" "agent_id" n)
        (λ r. bind_resource "agent_id" "agent_name" hub_id r n.config) agents n in
    bind_if (lacks "eval" "suite_id" m)
      (λ r. bind_resource "suite_id" "suite_name" hub_id r m.config) suites m

-- The effect on new resources: `setNodes` alone, with no entry in the history and no dirty mark.
unfoldable pub auto_bind : String → List Resource → List Resource → Editor → Editor
unfolding bind_node
auto_bind hub_id agents suites s = record s { nodes = map (bind_node hub_id agents suites) s.nodes }

-- `validationStatus`: nothing on the canvas, nodes without their resource, or a valid graph.
pub data ValidationStatus : Type 0 where
  canvas_empty dag_valid : ValidationStatus
  missing_links : ℕ → ValidationStatus

unfoldable pub unlinked : WorkflowNodeData → Bool
unlinked n = lacks "agent" "agent_id" n || lacks "eval" "suite_id" n

abbrev of_count : ℕ → ValidationStatus
of_count n = elim n [ zero ↦ dag_valid | suc k ↦ missing_links (suc k) ]

unfoldable pub validation_status : List WorkflowNodeData → ValidationStatus
unfolding unlinked
validation_status [] = canvas_empty
validation_status (n ∷ ns) = of_count (length (filter unlinked (n ∷ ns)))
