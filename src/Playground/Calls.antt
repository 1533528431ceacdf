-- ===== src/Playground/Calls.antt =====
-- The call that PlaygroundPage.tsx waits for.
use cont_ained.Base.{
  text_or, ℕ, String, Bool, true, false, Option, [], ◌∷◌, ◌++◌, ◌==◌, ◌≡◌, refl, arith,
}
use mathlib.Core.List.{append_assoc}
use cont_ained.Playground.Data.{
  Playground, PlaygroundSession, Host, Call, no_call, chatting, saving,
}
use cont_ained.Playground.Chat.{
  handle_new_session, handle_select_session, finish_delete, finish_rename, finish_upload,
  handle_send_message, finish_chat, saved_session, finish_save, clear_chat, ChatReply, answered,
  chat_failed, user_message, assistant_message,
}
use cont_ained.Playground.Events.{
  PlaygroundEvent, lists, news, selects, deleted, renamed, uploads, uploaded, removed, types_prompt,
  types_system, picks_model, sends, chat_ends, save_ends, picks_temperature, picks_max_tokens,
  clears, playground_step,
}

module _ {Num : Type 0} where
  abbrev pub is_call : Call Num → Bool
  is_call no_call = false
  is_call (chatting seen) = true
  is_call (saving seen) = true

  -- The page shows that it generates exactly while a call is open.
  abbrev pub IsCalling : Playground Num → Type 0
  IsCalling p = p.is_generating ≡ is_call p.call

  -- If the page shows that it generates exactly while it waits for the model or for the session to
  -- be saved, then that is so after every event.
  pub playground_step-IsCalling :
      (host : Host Num) (e : PlaygroundEvent Num) (p : Playground Num)
      → IsCalling p
      → IsCalling (playground_step host e p)
  unfolding playground_step handle_new_session handle_select_session finish_delete finish_rename
      finish_upload handle_send_message finish_chat saved_session finish_save clear_chat
  playground_step-IsCalling host (lists sessions) p h = h
  playground_step-IsCalling host news p h = h
  playground_step-IsCalling host (selects id) p h = ground arith
  playground_step-IsCalling host (deleted active id) p h = ground arith
  playground_step-IsCalling host (renamed id name) p h = h
  playground_step-IsCalling host uploads p h = h
  playground_step-IsCalling host (uploaded reply) p h = ground arith
  playground_step-IsCalling host (removed id) p h = h
  playground_step-IsCalling host (types_prompt v) p h = h
  playground_step-IsCalling host (types_system v) p h = h
  playground_step-IsCalling host (picks_model v) p h = h
  playground_step-IsCalling host (sends custom_prompt) p h = ground arith
  playground_step-IsCalling host (chat_ends (answered r n)) p h = ground arith
  playground_step-IsCalling host (chat_ends (chat_failed m)) p h = ground arith
  playground_step-IsCalling host (save_ends reply) p h = ground arith
  playground_step-IsCalling host (picks_temperature t) p h = h
  playground_step-IsCalling host (picks_max_tokens n) p h = h
  playground_step-IsCalling host clears p h = ground arith

  -- If the page generates exactly while a call is open, then once the model has answered or failed,
  -- and the session has been saved or not, the page takes the next message again.
  pub finish_save-finish_chat :
      (host : Host Num) (reply : ChatReply) (session : Option (PlaygroundSession Num))
      (p : Playground Num)
      → IsCalling p
      → (finish_save session (finish_chat host reply p)).is_generating ≡ false
  unfolding finish_chat saved_session finish_save
  finish_save-finish_chat host (answered r n) session p h = ground arith
  finish_save-finish_chat host (chat_failed m) session p h = ground arith

  -- If a message that is not blank is sent while nothing is generated, and the model answers, then
  -- the page shows the message and the answer after what it showed before, has no attachments left,
  -- and saves, under the session that is active, the messages that it shows with the model, the
  -- system prompt, the temperature, the limit of tokens and the attachments that it had when the
  -- message was sent.
  pub finish_chat-handle_send_message :
      (host : Host Num) (custom_prompt : Option String) (response : String) (n : ℕ)
      (p : Playground Num)
      → (host.trim (text_or custom_prompt p.input_prompt) == "") ≡ false
      → p.is_generating ≡ false
      → let after : Playground Num =
          finish_chat host (answered response n) (handle_send_message host custom_prompt p) in
        ((after.messages
            ≡ p.messages
              ++ user_message host (text_or custom_prompt p.input_prompt) p.attachments
                ∷ assistant_message host response n
                ∷ [])
          × (after.attachments ≡ []))
        × (after.call
            ≡ saving (record {
              active_session_id = after.active_session_id;
              model_id = p.selected_model;
              system_prompt = p.system_prompt;
              messages = after.messages;
              attachments = p.attachments;
              temperature = p.temperature;
              max_tokens = p.max_tokens;
            }))
  unfolding handle_send_message finish_chat
  finish_chat-handle_send_message host custom_prompt response n p blank idle =
      rw (blank, idle) ((append_assoc p.messages _ _, refl), refl)
