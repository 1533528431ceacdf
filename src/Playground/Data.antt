-- ===== src/Playground/Data.antt =====
-- frontend/src/components/PlaygroundPage.tsx: what the page keeps. `Num` is the type of the temperature;
-- `trim`, `length` and the temperature of a new session are parameters.
use cont_ained.Base.{ℕ, ◌+◌, ◌/◌, String, Bool, Option, List}

pub data Role : Type 0 where
  user assistant system : Role

-- `PlaygroundMessage`.
pub record PlaygroundMessage : Type 0 where
  pub role : Role
  pub content : String
  pub tokens : Option ℕ
  pub attachment_ids : Option (List String)

-- `PlaygroundAttachment`, as far as `handleUploadFile` fills it.
pub record PlaygroundAttachment : Type 0 where
  pub attachment_id : String
  pub filename : String
  pub file_type : String
  pub extracted_text_preview : Option String
  pub created_at : String

-- `PlaygroundSession`.
pub record PlaygroundSession (Num : Type 0) : Type 0 where
  pub id : String
  pub user_id : Option String
  pub name : String
  pub model_id : Option String
  pub system_prompt : Option String
  pub messages : List PlaygroundMessage
  pub attachments : Option (List PlaygroundAttachment)
  pub temperature : Option Num
  pub max_tokens : Option ℕ
  pub created_at : String
  pub updated_at : String

-- What the page takes from JavaScript.
pub record Host (Num : Type 0) : Type 0 where
  pub trim : String → String
  pub length : String → ℕ
  pub default_temperature : Num

-- What a handler has seen of the page when it was called, with the messages that it sends.
pub record Seen (Num : Type 0) : Type 0 where
  pub active_session_id : Option String
  pub model_id : String
  pub system_prompt : String
  pub messages : List PlaygroundMessage
  pub attachments : List PlaygroundAttachment
  pub temperature : Num
  pub max_tokens : ℕ

-- Where `handleSendMessage` is: nowhere, at `playgroundChat`, or at `saveCurrentSession`.
pub data Call (Num : Type 0) : Type 0 where
  no_call : Call Num
  chatting saving : Seen Num → Call Num

-- What the page keeps, less what only opens and closes its panels.
pub record Playground (Num : Type 0) : Type 0 where
  pub sessions : List (PlaygroundSession Num)
  pub active_session_id : Option String
  pub selected_model : String
  pub system_prompt : String
  pub temperature : Num
  pub max_tokens : ℕ
  pub messages : List PlaygroundMessage
  pub attachments : List PlaygroundAttachment
  pub input_prompt : String
  pub is_generating : Bool
  pub is_uploading : Bool
  pub call : Call Num

abbrev pub default_model : String
default_model = "gemini/gemini-3.5-flash"

abbrev pub default_prompt : String
default_prompt = "You are a helpful, expert AI assistant within the ContAIned platform."

-- `Math.ceil(n / 4)`.
abbrev pub quarter : ℕ → ℕ
quarter n = (n + 3) / 4
