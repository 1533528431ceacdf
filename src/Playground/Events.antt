-- ===== src/Playground/Events.antt =====
-- frontend/src/components/PlaygroundPage.tsx: the events of the page.
use cont_ained.Base.{ℕ, String, Option, List}
use cont_ained.Playground.Data.{PlaygroundAttachment, PlaygroundSession, Host, Playground}
use cont_ained.Playground.Chat.{
  handle_new_session, handle_select_session, finish_delete, finish_rename, start_upload,
  finish_upload, finish_remove, handle_send_message, ChatReply, finish_chat, finish_save,
  clear_chat,
}

-- What happens to the page.
pub data PlaygroundEvent (Num : Type 0) : Type 0 where
  lists : List (PlaygroundSession Num) → PlaygroundEvent Num
  news : PlaygroundEvent Num
  selects : String → PlaygroundEvent Num
  deleted : Option String → String → PlaygroundEvent Num
  renamed : String → String → PlaygroundEvent Num
  uploads : PlaygroundEvent Num
  uploaded : Option PlaygroundAttachment → PlaygroundEvent Num
  removed : String → PlaygroundEvent Num
  types_prompt types_system picks_model : String → PlaygroundEvent Num
  sends : Option String → PlaygroundEvent Num
  chat_ends : ChatReply → PlaygroundEvent Num
  save_ends : Option (PlaygroundSession Num) → PlaygroundEvent Num
  picks_temperature : Num → PlaygroundEvent Num
  picks_max_tokens : ℕ → PlaygroundEvent Num
  clears : PlaygroundEvent Num

unfoldable pub playground_step :
    {Num : Type 0} → Host Num → PlaygroundEvent Num → Playground Num → Playground Num
playground_step host (lists sessions) p = record p { sessions = sessions }
playground_step host news p = handle_new_session p
playground_step host (selects id) p = handle_select_session host id p
playground_step host (deleted active id) p = finish_delete active id p
playground_step host (renamed id name) p = finish_rename id name p
playground_step host uploads p = start_upload p
playground_step host (uploaded reply) p = finish_upload reply p
playground_step host (removed id) p = finish_remove id p
playground_step host (types_prompt v) p = record p { input_prompt = v }
playground_step host (types_system v) p = record p { system_prompt = v }
playground_step host (picks_model v) p = record p { selected_model = v }
playground_step host (sends custom_prompt) p = handle_send_message host custom_prompt p
playground_step host (chat_ends reply) p = finish_chat host reply p
playground_step host (save_ends reply) p = finish_save reply p
playground_step host (picks_temperature t) p = record p { temperature = t }
playground_step host (picks_max_tokens n) p = record p { max_tokens = n }
playground_step host clears p = clear_chat p
