-- ===== src/Tools/Drawer.antt =====
-- frontend/src/components/MCPHubPage.tsx: the drawer that tests a tool, the switches of the tools, and the
-- servers that are listed.
use Prim.Native.String.{◌++◌}
use mathlib.Core.Bool.{not-not}
use cont_ained.Base.{
  ℕ, String, true, false, ◌||◌, Option, none, some, List, [], ◌∷◌, ◌==◌, ◌≡◌, refl, filter, length,
  get_or, if◌then◌else◌, Bool-cases, inl, inr, ap, ◌∙◌,
}
use cont_ained.Base.Dict.{Dict}
use cont_ained.Base.Action.{Answer, ok, failed, try_catch}
use cont_ained.Tools.Data.{
  Host, Server, Property, Tool, TestResult, success, error, ToolsPage, Request, test_tool,
  ToolsWorld,
}
use cont_ained.Tools.{toast, complain, switched, toggled, handle_toggle_tool}

module _ {Json : Type 0} where
  -- The sample of `handleOpenTestDrawer`; the keys of the schema differ from one another.
  unfoldable pub sample_of : Host Json → Dict (Property Json) → Dict Json
  sample_of host [] = []
  sample_of host ((key, prop) ∷ props) =
      (
        key,
        get_or prop.default (if prop.type_name == "integer" then host.one else host.sample_value),
      )
      ∷ sample_of host props

  -- `handleOpenTestDrawer`.
  unfoldable pub open_test_drawer : Host Json → Tool Json → ToolsPage Json → ToolsPage Json
  unfolding sample_of
  open_test_drawer host t p = record p {
    testing_tool = some t;
    test_result = none;
    test_params = host.json_text (host.object (sample_of host (get_or t.properties [])));
  }

  -- `handleExecuteTest` up to its request.
  unfoldable pub run_test : Tool Json → Option Json → ToolsWorld Json → ToolsWorld Json
  run_test t none w = record w {
    page = record (toast "Invalid JSON parameters format" error w.page) {
      test_result = none;
      is_executing_test = false;
    };
  }
  run_test t (some params) w = record {
    page = record w.page { test_result = none; is_executing_test = true };
    sent = mathlib.Core.List.◌++◌ w.sent (test_tool t.server_id t.tool_name params ∷ []);
  }

  unfoldable pub begin_execute : Host Json → ToolsWorld Json → ToolsWorld Json
  unfolding run_test
  begin_execute host w = elim (w.page.testing_tool) [
    | none ↦ w
    | some t ↦ run_test t (host.parse w.page.test_params) w
  ]

  -- What follows the answer.
  unfoldable pub finish_execute :
      Host Json → Answer (TestResult Json) → ToolsPage Json → ToolsPage Json
  finish_execute host (ok r) p =
      record (toast ("Tool executed in " ++ (host.show_number r.execution_time_ms ++ "ms"))
        (if r.status == "success" then success else error) p) {
          test_result = some r;
          is_executing_test = false;
        }
  finish_execute host (failed message) p = record (complain "Tool execution failed" message p) {
    is_executing_test = false;
  }

  -- `filteredServers`, `healthyCount` and `internalCount`.
  unfoldable pub filtered_servers : Host Json → ToolsPage Json → List Server
  filtered_servers host p =
      let q : String = host.to_lower_case p.search_query in
      filter
        (λ s.
          host.includes (host.to_lower_case s.name) q || host.includes (host.to_lower_case s.url) q)
        p.servers

  unfoldable pub healthy_count : ToolsPage Json → ℕ
  healthy_count p = length (filter (λ s. s.health_status == "healthy") p.servers)

  unfoldable pub internal_count : ToolsPage Json → ℕ
  internal_count p = length (filter (λ s. s.is_internal) p.servers)

  -- If JSON reads back the sample that it wrote, then opening the drawer of a tool and running the
  -- test at once sends the sample of its schema, for that tool and its server, and nothing else.
  pub begin_execute-open_test_drawer :
      (host : Host Json) (t : Tool Json) (w : ToolsWorld Json)
      → let sample = host.object (sample_of host (get_or t.properties [])) in
        host.parse (host.json_text sample) ≡ some sample
        → (begin_execute host (record w { page = open_test_drawer host t w.page })).sent
          ≡ mathlib.Core.List.◌++◌ w.sent (test_tool t.server_id t.tool_name sample ∷ [])
  unfolding begin_execute open_test_drawer
  begin_execute-open_test_drawer host t w reads = rw reads refl

  -- If the drawer of one tool is open with parameters that parse, its test is run, and another tool's
  -- drawer is opened before the answer comes, then the result of the first tool, to which alone the
  -- request was sent, is shown under the second.
  pub late_result :
      (host : Host Json) (first second : Tool Json) (params : Json) (r : TestResult Json)
      (p : ToolsPage Json) (sent : List (Request Json))
      → host.parse p.test_params ≡ some params
      → let w =
          begin_execute host
            (record { page = record p { testing_tool = some first }; sent = sent }) in
        let q = finish_execute host (ok r) (open_test_drawer host second w.page) in
        (w.sent
          ≡ mathlib.Core.List.◌++◌ sent (test_tool first.server_id first.tool_name params ∷ []))
        × (q.testing_tool ≡ some second)
        × (q.test_result ≡ some r)
  unfolding begin_execute finish_execute open_test_drawer
  late_result host first second params r p sent parses = (rw parses refl, refl, refl)

  switched_twice : (id : String) (t : Tool Json) → switched id (switched id t) ≡ t
  switched_twice id t = elim (Bool-cases (t.id == id)) [
    | inl same ↦ rw same (rw same (ap (λ b. record t { is_enabled = b }) (not-not t.is_enabled)))
    | inr other ↦ rw other (rw other refl)
  ]

  toggled_twice : (id : String) (tools : List (Tool Json)) → toggled id (toggled id tools) ≡ tools
  unfolding toggled
  toggled_twice id [] = refl
  toggled_twice id (t ∷ tools) =
      ap (λ x. x ∷ toggled id (toggled id tools)) (switched_twice id t)
      ∙ ap (◌∷◌ t) (toggled_twice id tools)

  -- If both requests succeed, switching a tool twice leaves every tool as it was, whatever the two
  -- answers came after.
  pub handle_toggle_tool_twice :
      (t : Tool Json) (w : ToolsWorld Json)
      → (handle_toggle_tool t (ok tt) (handle_toggle_tool t (ok tt) w)).page.tools ≡ w.page.tools
  unfolding handle_toggle_tool try_catch
  handle_toggle_tool_twice t w = toggled_twice t.id w.page.tools
