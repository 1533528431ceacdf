-- ===== src/Tools.antt =====
-- frontend/src/components/MCPHubPage.tsx: the registered tool servers and the test of a tool. `Json` is the
-- type of JSON values; handlers run to their end, but the test of a tool, which is split.
pub mod Data
pub mod Drawer
mod Tests
use Prim.Native.String.{◌++◌}
use cont_ained.Base.{
  text_or, ℕ, String, Bool, true, false, ◌||◌, not, Option, none, some, List, [], ◌∷◌, ◌==◌, map,
  filter, length, or_text, get_or, if◌then◌else◌,
}
use cont_ained.Base.Dict.{Dict}
use cont_ained.Tools.Data.{
  Host, Server, Property, Tool, TestResult, ServerForm, ServerPayload, ToastType, ToolsPage,
  Request, ToolsWorld, success, error, warning, info, get_servers, get_tools, create_server,
  update_server, delete_server, check_health, sync_tools, toggle_tool, test_tool,
}
use cont_ained.Base.Action.{
  Answer, ok, failed, World, ◌>>=◌, ◌>>◌, post, await, update, send, try_catch,
}

-- The form of `handleOpenEditModal`, and the payload of `handleSaveServer`.
unfoldable pub edit_form : Server → ServerForm
edit_form s = record {
  name = s.name;
  url = s.url;
  transport = s.transport;
  auth_type = s.auth_type;
  auth_token = "";
}

unfoldable pub server_payload : ServerForm → ServerPayload
server_payload f = record {
  name = f.name;
  url = f.url;
  transport = f.transport;
  auth_type = f.auth_type;
  auth_token = if f.auth_token == "" then none else some f.auth_token;
}

abbrev saved_text : Option Server → String → String
saved_text none name = "Registered MCP server \"" ++ (name ++ "\"")
saved_text (some s) name = "Updated server \"" ++ (name ++ "\"")

module _ {Json : Type 0} where
  -- `addToast`.
  abbrev pub toast : String → ToastType → ToolsPage Json → ToolsPage Json
  toast text kind p = record p { toasts = mathlib.Core.List.◌++◌ p.toasts ((text, kind) ∷ []) }

  abbrev complain : String → Option String → ToolsPage Json → ToolsPage Json
  complain d message p = toast (text_or message d) error p

  -- `fetchData`.
  unfoldable pub fetch_data :
      Answer (List Server) → Answer (List (Tool Json)) → ToolsWorld Json → ToolsWorld Json
  fetch_data servers tools w =
      try_catch
        (do
          post get_servers
          post get_tools
          server_list ← await servers
          tool_list ← await tools
          update λ p. record p { servers = server_list; tools = tool_list })
        (complain "Failed to load MCP servers and tools") (λ p. record p { is_loading = false })
        (record w { page = record w.page { is_loading = true } })

  -- `handleOpenAddModal` and `handleOpenEditModal`.
  unfoldable pub open_add_modal : ToolsPage Json → ToolsPage Json
  open_add_modal p = record p {
    editing_server = none;
    form = record {
      name = "";
      url = "http://";
      transport = "sse";
      auth_type = "none";
      auth_token = "";
    };
    is_modal_open = true;
  }

  unfoldable pub open_edit_modal : Server → ToolsPage Json → ToolsPage Json
  unfolding edit_form
  open_edit_modal s p = record p {
    editing_server = some s;
    form = edit_form s;
    is_modal_open = true;
  }

  -- `handleSaveServer`, up to the `fetchData` that a success begins.
  unfoldable pub save_request : Option Server → ServerPayload → Request Json
  save_request none payload = create_server payload
  save_request (some s) payload = update_server s.id payload

  unfoldable pub handle_save_server : Answer (Unit {0}) → ToolsWorld Json → ToolsWorld Json
  unfolding server_payload save_request
  handle_save_server saved w =
      let form : ServerForm = w.page.form in
      let editing : Option Server = w.page.editing_server in
      if form.name == "" || form.url == ""
      then record w { page = toast "Name and URL are required" warning w.page }
      else try_catch
          (do
            send (save_request editing (server_payload form)) saved
            update λ p. record (toast (saved_text editing form.name) success p) {
              is_modal_open = false;
            })
          (complain "Failed to save MCP server") (λ p. record p { is_submitting = false })
          (record w { page = record w.page { is_submitting = true } })

  -- `handleDeleteServer`.
  unfoldable pub handle_delete_server :
      Server → Answer (Unit {0}) → ToolsWorld Json → ToolsWorld Json
  handle_delete_server s deleted w =
      if s.is_internal
      then record w { page = toast "Internal system servers cannot be deleted" error w.page }
      else try_catch
          (do
            send (delete_server s.id) deleted
            update λ p. record (toast ("Deleted server \"" ++ (s.name ++ "\"")) success p) {
              delete_server_target = none;
            })
          (λ message p. record (complain "Failed to delete server" message p) {
            delete_server_target = none;
          })
          (λ p. p) w

  -- `handleTriggerHealth` and `handleSyncTools`, up to the `fetchData` that a success begins.
  unfoldable pub handle_trigger_health :
      Host Json → Server → Answer String → ToolsWorld Json → ToolsWorld Json
  handle_trigger_health host s answer w =
      try_catch
        (do
          health ← send (check_health s.id) answer
          update (
              toast ("Health check for \"" ++ (s.name ++ ("\": " ++ host.to_upper_case health)))
                (if health == "healthy" then success else warning)))
        (complain "Health check request failed") (λ p. p) w

  unfoldable pub handle_sync_tools :
      Host Json → Server → Answer (List (Tool Json)) → ToolsWorld Json → ToolsWorld Json
  handle_sync_tools host s answer w =
      try_catch
        (do
          synced ← send (sync_tools s.id) answer
          update (
              toast
                ("Discovered "
                  ++ (host.show_number (length synced) ++ (" tools for \"" ++ (s.name ++ "\""))))
                success))
        (complain "Tool discovery failed") (λ p. p) w

  -- `handleToggleTool`.
  abbrev pub switched : String → Tool Json → Tool Json
  switched id t = if t.id == id then record t { is_enabled = not t.is_enabled } else t

  unfoldable pub toggled : String → List (Tool Json) → List (Tool Json)
  toggled id tools = map (switched id) tools

  unfoldable pub handle_toggle_tool :
      Tool Json → Answer (Unit {0}) → ToolsWorld Json → ToolsWorld Json
  unfolding toggled
  handle_toggle_tool t answer w =
      try_catch
        (do
          send (toggle_tool t.id) answer
          update λ p.
              toast
                ("Tool \""
                  ++ (t.tool_name ++ (if t.is_enabled then "\" disabled" else "\" enabled")))
                info (record p { tools = toggled t.id p.tools }))
        (complain "Failed to toggle tool") (λ p. p) w
