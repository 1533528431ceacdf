-- ===== src/Playground/Late.antt =====
-- The session that changes while the model answers, in PlaygroundPage.tsx.
use cont_ained.Base.{
  ℕ, String, false, Option, none, some, List, [], ◌∷◌, ◌++◌, ◌==◌, ◌≡◌, refl, find, ap, ◌∙◌,
}
use cont_ained.Playground.Data.{
  Playground, PlaygroundMessage, PlaygroundAttachment, PlaygroundSession, Host, Call, Seen, no_call,
  chatting, saving,
}
use cont_ained.Playground.Chat.{
  handle_select_session, handle_send_message, finish_chat, saved_session, finish_save, answered,
  user_message, assistant_message,
}

-- The session, the conversation and the attachments.
abbrev Shown : Type 0
Shown = (Option String × List PlaygroundMessage) × List PlaygroundAttachment

module _ {Num : Type 0} where
  -- The session and the messages of the call that waits for the model.
  abbrev pub asked : Call Num → Option (Option String × List PlaygroundMessage)
  asked no_call = none
  asked (chatting seen) = some (seen.active_session_id, seen.messages)
  asked (saving seen) = none

  -- The answer comes after another session was selected.
  abbrev pub after_answer : Host Num → String → String → ℕ → Playground Num → Playground Num
  after_answer host id response n p =
      finish_chat host (answered response n) (handle_select_session host id p)

  -- A text is typed into the field of the page.
  abbrev pub typed : String → Playground Num → Playground Num
  typed prompt p = record p { input_prompt = prompt }

  abbrev shown : Playground Num → Shown
  shown p = ((p.active_session_id, p.messages), p.attachments)

  switched :
      (host : Host Num) (id response : String) (n : ℕ) (seen : Seen Num)
      (session : PlaygroundSession Num) (p : Playground Num)
      → p.call ≡ chatting seen
      → find (λ s. s.id == id) p.sessions ≡ some session
      → (shown (after_answer host id response n p)
          ≡ ((some session.id, seen.messages ++ assistant_message host response n ∷ []), []))
        × ((after_answer host id response n p).call
            ≡ saving (record seen {
              messages = seen.messages ++ assistant_message host response n ∷ [];
            }))
  unfolding finish_chat handle_select_session
  switched host id response n seen session p c f =
      rw (f, handle_select_session) (rw (c, finish_chat) (refl, refl))

  saved_shown :
      (saved : Option (PlaygroundSession Num)) (first : String) (seen : Seen Num)
      (q : Playground Num)
      → q.call ≡ saving seen
      → seen.active_session_id ≡ some first
      → (shown (finish_save saved q) ≡ shown q) × ((finish_save saved q).is_generating ≡ false)
  unfolding finish_save saved_session
  saved_shown none first seen q c a = rw (c, finish_save) (refl, refl)
  saved_shown (some s) first seen q c a = rw (c, finish_save) (rw (a, saved_session) (refl, refl))

  sent :
      (host : Host Num) (prompt : String) (q : Playground Num)
      → q.is_generating ≡ false
      → (host.trim prompt == "") ≡ false
      → asked (handle_send_message host none (typed prompt q)).call
        ≡ some (q.active_session_id, q.messages ++ user_message host prompt q.attachments ∷ [])
  unfolding handle_send_message
  sent host prompt q g t = rw (t, g) refl

  -- While the model answers a message of one session, another session is selected. When the answer
  -- has come and the first session was saved, or could not be, the next message that is typed and
  -- not blank goes to the model with the conversation of the first session, to be saved under the second.
  pub late_answer :
      (host : Host Num) (id response prompt first : String) (n : ℕ) (seen : Seen Num)
      (session : PlaygroundSession Num) (saved : Option (PlaygroundSession Num))
      (p : Playground Num)
      → p.call ≡ chatting seen
      → seen.active_session_id ≡ some first
      → find (λ s. s.id == id) p.sessions ≡ some session
      → (host.trim prompt == "") ≡ false
      → asked
          (handle_send_message host none
            (typed prompt (finish_save saved (after_answer host id response n p)))).call
        ≡ some (
          some session.id,
          (seen.messages ++ assistant_message host response n ∷ [])
              ++ user_message host prompt [] ∷ [],
        )
  unfolding finish_save saved_session handle_send_message
  late_answer host id response prompt first n seen session saved p c a f t =
      sent host prompt q (saved_shown saved first _ answer found.1 a).1 t
      ∙ ap (λ x. some (x.0.0, x.0.1 ++ user_message host prompt x.1 ∷ []))
          ((saved_shown saved first _ answer found.1 a).0 ∙ found.0)
    where
      answer : Playground Num
      answer = after_answer host id response n p

      q : Playground Num
      q = finish_save saved answer

      found :
          (shown answer
            ≡ ((some session.id, seen.messages ++ assistant_message host response n ∷ []), []))
          × (answer.call
              ≡ saving (record seen {
                messages = seen.messages ++ assistant_message host response n ∷ [];
              }))
      found = switched host id response n seen session p c f
