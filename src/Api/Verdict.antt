-- ===== src/Api/Verdict.antt =====
-- What one reply means for a call of `request`, by its status and its body: it decides the call, or
-- the loop goes on behind it.
use cont_ained.Base.{
  ℕ, ◌+◌, ◌≤◌, ◌<◌, String, Bool, true, false, ◌&&◌, ◌||◌, Option, none, some, [], ◌≡◌, ◌⊎◌, inl,
  inr, refl, leb, ltb, eqb, if◌then◌else◌, arith, Bool-cases, Option-cases,
}
use cont_ained.Api.{
  Response, Reply, unreachable, aborted, responds, Outcome, returned, no_content, hub_error, failed,
  Attempt, ends, server_error, raises, Wording, ErrorDetail, or_else, code_of, error_message,
  try_failed, attempt_once,
}
use cont_ained.Api.Loop.{fetch_count, notice_count}

-- A status of the 200s, or another; and the two that have no content.
abbrev pub IsOk : ℕ → Type 0
IsOk status = (200 ≤ status) × (status ≤ 299)

abbrev pub IsFailing : ℕ → Type 0
IsFailing status = (status < 200) ⊎ (299 < status)

abbrev pub IsEmpty : ℕ → Type 0
IsEmpty status = (status ≡ 240) ⊎ (status ≡ 204)

-- The message of an exception.
abbrev pub thrown : String → String
thrown message = or_else (some message) "Network request failed"

only_last : (last : Bool) → ((false ≡ true) ⊎ (last ≡ true)) → last ≡ true
only_last last h = ground (arith, h)

not_both : {A : Type 0} (last : Bool) → last ≡ true → last ≡ false → A
not_both last h k = absurd (ground (arith, h, k))

module _ {T : Type 0} where
  -- The notifications of a reply behind which the loop goes on: one for a failing status below 500.
  abbrev pub shown_count : Reply T → ℕ
  shown_count (unreachable m) = 0
  shown_count aborted = 0
  shown_count (responds r) =
      if ltb r.status 200 || (ltb 299 r.status && ltb r.status 500) then 1 else 0

  -- The loop goes on where an attempt is left: behind a network failure, a failing status without an
  -- error code, and a body that cannot be read.
  pub data Passes : Reply T → Type 0 where
    lost : (m : String) → Passes (unreachable m)
    uncoded :
        (r : Response T) → IsFailing r.status → code_of r.error_body ≡ none → Passes (responds r)
    unreadable :
        (r : Response T) → IsOk r.status → ¬ IsEmpty r.status → r.value ≡ none → Passes (responds r)

  -- The reply ends the call with an outcome, after a number of notifications of its own; `last` says
  -- that no attempt is left.
  pub data Decides (words : Wording) (last : Bool) : Reply T → Outcome T → ℕ → Type 0 where
    at_result :
        (r : Response T) (v : T)
        → IsOk r.status
        → ¬ IsEmpty r.status
        → r.value ≡ some v
        → Decides words last (responds r) (returned v) 0
    at_empty :
        (r : Response T)
        → IsOk r.status
        → IsEmpty r.status
        → Decides words last (responds r) no_content 0
    at_code :
        (r : Response T) (e : ErrorDetail)
        → IsFailing r.status
        → code_of r.error_body ≡ some e
        → Decides words last
            (responds r)
            (hub_error (record {
              message = error_message r.error_text r.error_body;
              code = or_else e.code "";
              status = r.status;
              hub_id = e.hub_id;
              target_hub_id = e.target_hub_id;
            }))
            0
    at_abort : Decides words last aborted (failed words.timed_out) 1
    at_lost : (m : String) → last ≡ true → Decides words last (unreachable m) (failed (thrown m)) 1
    at_uncoded :
        (r : Response T)
        → IsFailing r.status
        → code_of r.error_body ≡ none
        → last ≡ true
        → Decides words last (responds r) (failed (error_message r.error_text r.error_body)) 2
    at_unreadable :
        (r : Response T)
        → IsOk r.status
        → ¬ IsEmpty r.status
        → r.value ≡ none
        → last ≡ true
        → Decides words last (responds r) (failed (thrown r.parse_message)) 1

  -- What an attempt says of its reply.
  abbrev pub Says : Wording → Bool → Reply T → Attempt T → Type 0
  Says words last reply (ends o) = Decides words last reply o 0
  Says words last reply server_error = (last ≡ false) × (Passes reply × (shown_count reply ≡ 0))
  Says words last reply (raises es b m) =
      (fetch_count es ≡ 0)
      × ((((b ≡ true) ⊎ (last ≡ true)) → Decides words last reply (failed m) (notice_count es + 1))
          × (b ≡ false → last ≡ false → Passes reply × (notice_count es ≡ shown_count reply)))

  try_failed-Says :
      (words : Wording) (last : Bool) (r : Response T)
      → IsFailing r.status
      → Says words last (responds r) (try_failed words last r)
  unfolding try_failed
  try_failed-Says words last r f = elim (Option-cases (code_of r.error_body)) [
    | inr (e, c) ↦ rw (try_failed, c) (at_code r e f c)
    | inl n ↦ elim (Bool-cases (leb 500 r.status)) [
      | inl big ↦ elim (Bool-cases last) [
        | inl l ↦
            rw (try_failed, n, big, l)
              (refl, ((λ h. at_uncoded r f n refl), λ b k. not_both true refl k))
        | inr l ↦ rw (try_failed, n, big, l) (refl, (uncoded r f n, ground (arith, big)))
      ]
      | inr small ↦
          rw (try_failed, n, small)
            (
              refl,
              (
                (λ h. at_uncoded r f n (only_last last h)),
                λ b k. (uncoded r f n, ground (arith, small, f)),
              ),
            )
    ]
  ]

  body-Says :
      (words : Wording) (last : Bool) (r : Response T) (value : Option T)
      → r.value ≡ value
      → IsOk r.status
      → ¬ IsEmpty r.status
      → Says words last (responds r) (elim value [
        | some v ↦ ends (returned v)
        | none ↦ raises [] false (thrown r.parse_message)
      ])
  body-Says words last r (some v) e ok full = at_result r v ok full e
  body-Says words last r none e ok full = (
    refl,
    (
      (λ h. at_unreadable r ok full e (only_last last h)),
      λ b k. (unreadable r ok full e, ground (arith, ok)),
    ),
  )

  -- What one pass through the `try` says of its reply.
  pub attempt_once-Says :
      (words : Wording) (last : Bool) (reply : Reply T)
      → Says words last reply (attempt_once words last reply)
  unfolding attempt_once
  attempt_once-Says words last (unreachable m) =
      (refl, ((λ h. at_lost m (only_last last h)), λ b k. (lost m, refl)))
  attempt_once-Says words last aborted = (refl, ((λ h. at_abort), λ b k. not_both true refl b))
  attempt_once-Says words last (responds r) =
      elim (Bool-cases (leb 200 r.status && leb r.status 299)) [
        | inr bad ↦ rw bad (try_failed-Says words last r (ground (arith, bad)))
        | inl ok ↦ elim (Bool-cases (eqb r.status 240 || eqb r.status 204)) [
          | inl empty ↦ rw (ok, empty) (at_empty r (ground (arith, ok)) (ground (arith, empty)))
          | inr full ↦
              rw (ok, full)
                (body-Says words last r r.value refl (ground (arith, ok))
                  (λ h. ground (arith, full, h)))
        ]
      ]
