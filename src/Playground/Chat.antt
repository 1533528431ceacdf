-- ===== src/Playground/Chat.antt =====
-- frontend/src/components/PlaygroundPage.tsx: the handlers.
use cont_ained.Base.{
  text_or, or_text, ℕ, String, Bool, true, false, ◌||◌, not, Option, none, some, List, [], ◌∷◌,
  ◌++◌, ◌==◌, map, filter, find, get_or, eqb, if◌then◌else◌,
}
use cont_ained.Playground.Data.{
  user, assistant, PlaygroundMessage, PlaygroundAttachment, PlaygroundSession, Host, no_call,
  chatting, saving, Playground, default_model, default_prompt, quarter,
}

abbrev is_active : Option String → String → Bool
is_active none id = false
is_active (some a) id = a == id

-- The message that stands for an error.
unfoldable pub error_message : Option String → PlaygroundMessage
error_message message = record {
  role = assistant;
  content = Prim.Native.String.◌++◌ "Error: " (text_or message "Failed to generate completion");
  tokens = none;
  attachment_ids = none;
}

-- What the model answers: a response and its tokens, or an error with its message.
pub data ChatReply : Type 0 where
  answered : String → ℕ → ChatReply
  chat_failed : Option String → ChatReply

module _ {Num : Type 0} where
  -- The state that the page starts from.
  abbrev pub initial_playground : Host Num → Playground Num
  initial_playground host = record {
    sessions = [];
    active_session_id = none;
    selected_model = default_model;
    system_prompt = default_prompt;
    temperature = host.default_temperature;
    max_tokens = 1000;
    messages = [];
    attachments = [];
    input_prompt = "";
    is_generating = false;
    is_uploading = false;
    call = no_call;
  }

  -- `handleNewSession`.
  unfoldable pub handle_new_session : Playground Num → Playground Num
  handle_new_session p = record p {
    active_session_id = none;
    messages = [];
    attachments = [];
    system_prompt = default_prompt;
    input_prompt = "";
  }

  -- `handleSelectSession`.
  unfoldable pub handle_select_session : Host Num → String → Playground Num → Playground Num
  handle_select_session host id p = elim (find (λ s. s.id == id) p.sessions) [
    | none ↦ p
    | some s ↦ record p {
      active_session_id = some s.id;
      selected_model = text_or s.model_id default_model;
      system_prompt = text_or s.system_prompt "";
      messages = s.messages;
      attachments = get_or s.attachments [];
      temperature = get_or s.temperature host.default_temperature;
      max_tokens = get_or s.max_tokens 1000;
    }
  ]

  -- `handleDeleteSession` after the answer; the session that was active when it was called.
  unfoldable pub finish_delete : Option String → String → Playground Num → Playground Num
  unfolding handle_new_session
  finish_delete active id p =
      let rest : Playground Num = record p {
        sessions = filter (λ s. not (s.id == id)) p.sessions;
      } in
      if is_active active id then handle_new_session rest else rest

  -- `handleRenameSession` after the answer.
  unfoldable pub finish_rename : String → String → Playground Num → Playground Num
  finish_rename id name p = record p {
    sessions = map (λ s. if s.id == id then record s { name = name } else s) p.sessions;
  }

  -- `handleUploadFile` before and after the answer, if there is one.
  abbrev pub start_upload : Playground Num → Playground Num
  start_upload p = record p { is_uploading = true }

  unfoldable pub finish_upload : Option PlaygroundAttachment → Playground Num → Playground Num
  finish_upload none p = record p { is_uploading = false }
  finish_upload (some a) p = record p {
    attachments = p.attachments ++ a ∷ [];
    is_uploading = false;
  }

  -- `handleRemoveAttachment` after the answer, whatever it is.
  abbrev pub finish_remove : String → Playground Num → Playground Num
  finish_remove id p = record p {
    attachments = filter (λ a. not (a.attachment_id == id)) p.attachments;
  }

  -- The message that `handleSendMessage` sends.
  unfoldable pub user_message : Host Num → String → List PlaygroundAttachment → PlaygroundMessage
  user_message host prompt attachments = record {
    role = user;
    content = host.trim prompt;
    tokens = some (quarter (host.length prompt));
    attachment_ids = elim attachments [
      | [] ↦ none
      | a ∷ rest ↦ some (map (λ x. x.attachment_id) (a ∷ rest))
    ];
  }

  -- `handleSendMessage` up to the call of the model; `customPrompt` is a starter.
  unfoldable pub handle_send_message : Host Num → Option String → Playground Num → Playground Num
  handle_send_message host custom_prompt p =
      let prompt : String = text_or custom_prompt p.input_prompt in
      if (host.trim prompt == "") || p.is_generating then p else record p {
        messages = p.messages ++ user_message host prompt p.attachments ∷ [];
        input_prompt = if text_or custom_prompt "" == "" then "" else p.input_prompt;
        is_generating = true;
        call = chatting (record {
          active_session_id = p.active_session_id;
          model_id = p.selected_model;
          system_prompt = p.system_prompt;
          messages = p.messages ++ user_message host prompt p.attachments ∷ [];
          attachments = p.attachments;
          temperature = p.temperature;
          max_tokens = p.max_tokens;
        });
      }

  -- The answer of the model as a message.
  unfoldable pub assistant_message : Host Num → String → ℕ → PlaygroundMessage
  assistant_message host response output_tokens = record {
    role = assistant;
    content = or_text response "No response received.";
    tokens = some (if eqb output_tokens 0 then quarter (host.length response) else output_tokens);
    attachment_ids = none;
  }

  -- `handleSendMessage` after the answer of the model, up to the call that saves the session.
  unfoldable pub finish_chat : Host Num → ChatReply → Playground Num → Playground Num
  finish_chat host (answered response output_tokens) p = elim p.call [
    | chatting seen ↦
        let final : List PlaygroundMessage =
          seen.messages ++ assistant_message host response output_tokens ∷ [] in
        record p {
          messages = final;
          attachments = [];
          call = saving (record seen { messages = final });
        }
    | _ ↦ p
  ]
  finish_chat host (chat_failed message) p = elim p.call [
    | chatting seen ↦ record p {
      messages = seen.messages ++ error_message message ∷ [];
      is_generating = false;
      call = no_call;
    }
    | _ ↦ p
  ]

  -- `saveCurrentSession` after its answer, and the rest of `handleSendMessage`: the session is
  -- updated if one was active, and created if not.
  unfoldable pub saved_session :
      Option String → PlaygroundSession Num → Playground Num → Playground Num
  saved_session none created p = record p {
    active_session_id = some created.id;
    sessions = created ∷ p.sessions;
  }
  saved_session (some id) updated p = record p {
    sessions = map (λ s. if s.id == id then updated else s) p.sessions;
  }

  unfoldable pub finish_save : Option (PlaygroundSession Num) → Playground Num → Playground Num
  finish_save reply p = elim p.call [
    | saving seen ↦
        let saved : Playground Num = elim reply [
          | none ↦ p
          | some s ↦ saved_session seen.active_session_id s p
        ] in
        record saved { is_generating = false; call = no_call }
    | _ ↦ p
  ]

  -- The button that clears the conversation.
  unfoldable pub clear_chat : Playground Num → Playground Num
  clear_chat p = elim p.messages [
    | [] ↦ p
    | m ∷ rest ↦ record p { messages = []; attachments = [] }
  ]
