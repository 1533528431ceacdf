-- ===== src/Playground/Tests.antt =====
-- The playground on small inputs; the host counts every text as 8 characters and trims nothing.
use cont_ained.Base.{
  text_or, ℕ, String, true, false, none, some, List, [], ◌∷◌, ◌++◌, ◌≡◌, refl, any,
}
use cont_ained.Playground.Data.{Host, Playground, PlaygroundSession, Seen, saving, chatting}
use cont_ained.Playground.Chat.{
  initial_playground, handle_send_message, finish_chat, finish_save, answered, user_message,
  assistant_message,
}
use cont_ained.Playground.Events.{sends, playground_step}
use cont_ained.Playground.Calls.{
  IsCalling, playground_step-IsCalling, finish_save-finish_chat, finish_chat-handle_send_message,
}
use cont_ained.Playground.Late.{asked, typed, after_answer, late_answer}
use cont_ained.Playground.Models.{
  ModelRegistryEntry, RoleModels, listed, mentions, fetch_model_registry,
  listed-fetch_model_registry,
}

abbrev plain_host : Host ℕ
plain_host = record { trim = λ s. s; length = λ s. 8; default_temperature = 7 }

abbrev empty_page : Playground ℕ
empty_page = initial_playground plain_host

abbrev session_of : String → PlaygroundSession ℕ
session_of id = record {
  id = id;
  user_id = none;
  name = id;
  model_id = none;
  system_prompt = none;
  messages = [];
  attachments = none;
  temperature = none;
  max_tokens = none;
  created_at = "";
  updated_at = "";
}

-- A page with two sessions, the first one active.
abbrev two_sessions : Playground ℕ
two_sessions = record empty_page {
  sessions = session_of "s1" ∷ session_of "s2" ∷ [];
  active_session_id = some "s1";
}

playground_step-IsCalling_test :
    IsCalling (playground_step plain_host (sends (some "Hello")) two_sessions)
playground_step-IsCalling_test =
    playground_step-IsCalling plain_host (sends (some "Hello")) two_sessions refl

abbrev asking : Playground ℕ
asking = playground_step plain_host (sends (some "Hello")) two_sessions

finish_save-finish_chat_test :
    (finish_save none (finish_chat plain_host (answered "Hi" 1) asking)).is_generating ≡ false
unfolding playground_step handle_send_message
finish_save-finish_chat_test = finish_save-finish_chat plain_host (answered "Hi" 1) none asking refl

finish_chat-handle_send_message_example :
    let after : Playground ℕ =
      finish_chat plain_host
        (answered "Hi" 1)
        (handle_send_message plain_host (some "Hello") two_sessions) in
    ((after.messages
        ≡ two_sessions.messages
          ++ user_message plain_host
              (text_or (some "Hello") two_sessions.input_prompt)
              two_sessions.attachments
            ∷ assistant_message plain_host "Hi" 1
            ∷ [])
      × (after.attachments ≡ []))
    × (after.call
        ≡ saving (record {
          active_session_id = after.active_session_id;
          model_id = two_sessions.selected_model;
          system_prompt = two_sessions.system_prompt;
          messages = after.messages;
          attachments = two_sessions.attachments;
          temperature = two_sessions.temperature;
          max_tokens = two_sessions.max_tokens;
        }))
finish_chat-handle_send_message_example =
    finish_chat-handle_send_message plain_host (some "Hello") "Hi" 1 two_sessions refl refl

abbrev hello_seen : Seen ℕ
hello_seen = record {
  active_session_id = some "s1";
  model_id = two_sessions.selected_model;
  system_prompt = two_sessions.system_prompt;
  messages = user_message plain_host "Hello" [] ∷ [];
  attachments = [];
  temperature = 7;
  max_tokens = 1000;
}

abbrev waiting : Playground ℕ
waiting = record two_sessions {
  messages = user_message plain_host "Hello" [] ∷ [];
  is_generating = true;
  call = chatting hello_seen;
}

late_answer_example :
    asked
      (handle_send_message plain_host none
        (typed "Next" (finish_save none (after_answer plain_host "s2" "Hi" 1 waiting)))).call
    ≡ some (
      some "s2",
      (hello_seen.messages ++ assistant_message plain_host "Hi" 1 ∷ [])
          ++ user_message plain_host "Next" [] ∷ [],
    )
late_answer_example =
    late_answer plain_host "s2" "Hi" "Next" "s1" 1 hello_seen (session_of "s2") none waiting refl
      refl refl refl

abbrev entry : String → ModelRegistryEntry
entry id = record { model_id = id; display_name = id; provider = "p"; is_selectable = none }

abbrev two_roles : List RoleModels
two_roles =
    record { active = some (entry "m1"); available = some (entry "m1" ∷ entry "m2" ∷ []) }
    ∷ record { active = none; available = none }
    ∷ []

listed-fetch_model_registry_test :
    listed "m2" (fetch_model_registry (some two_roles) []) ≡ any (mentions "m2") two_roles
listed-fetch_model_registry_test = listed-fetch_model_registry "m2" "m1" two_roles [] refl
