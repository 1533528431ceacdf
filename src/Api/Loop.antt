-- ===== src/Api/Loop.antt =====
-- How a call of `request` ends, against the replies that its attempts see.
use mathlib.Core.Path.{subst}
use cont_ained.Base.{
  ℕ, suc, ◌+◌, ◌*◌, ◌^◌, String, Bool, true, false, ◌&&◌, not, Option, some, List, [], ◌∷◌, ◌++◌,
  ◌≡◌, ◌≢◌, ◌⊎◌, inl, inr, refl, leb, eqb, if◌then◌else◌, arith, Option-cases,
}
use cont_ained.Api.{
  Response, Reply, unreachable, aborted, responds, Event, fetches, notifies, waits, Outcome, failed,
  Attempt, ends, server_error, raises, Wording, code_of, error_message, try_failed, attempt_once,
  request_loop,
}

-- The number of fetches, of notifications, and the milliseconds of all pauses.
abbrev pub fetch_count : List Event → ℕ
fetch_count [] = 0
fetch_count (fetches ∷ es) = suc (fetch_count es)
fetch_count (_ ∷ es) = fetch_count es

abbrev pub notice_count : List Event → ℕ
notice_count [] = 0
notice_count (notifies title message ∷ es) = suc (notice_count es)
notice_count (_ ∷ es) = notice_count es

abbrev pub paused : List Event → ℕ
paused [] = 0
paused (waits ms ∷ es) = ms + paused es
paused (_ ∷ es) = paused es

pub fetch_count-append :
    (es fs : List Event) → fetch_count (es ++ fs) ≡ fetch_count es + fetch_count fs
fetch_count-append [] fs = omega arith
fetch_count-append (fetches ∷ es) fs = omega (arith, fetch_count-append es fs)
fetch_count-append (notifies t m ∷ es) fs = fetch_count-append es fs
fetch_count-append (waits ms ∷ es) fs = fetch_count-append es fs

pub notice_count-append :
    (es fs : List Event) → notice_count (es ++ fs) ≡ notice_count es + notice_count fs
notice_count-append [] fs = omega arith
notice_count-append (fetches ∷ es) fs = notice_count-append es fs
notice_count-append (notifies t m ∷ es) fs = omega (arith, notice_count-append es fs)
notice_count-append (waits ms ∷ es) fs = notice_count-append es fs

module _ {T : Type 0} where
  pub Attempt-cases :
      (a : Attempt T)
      → ((o : Outcome T) × (a ≡ ends o))
        ⊎ ((a ≡ server_error)
            ⊎ ((es : List Event) × (b : Bool) × (m : String) × (a ≡ raises es b m)))
  Attempt-cases (ends o) = inl (o, refl)
  Attempt-cases server_error = inr (inl refl)
  Attempt-cases (raises es b m) = inr (inr (es, b, m, refl))

  -- What the `try` logs before it raises: notifications alone.
  abbrev pub Quiet : Attempt T → Type 0
  Quiet (raises es b m) = (fetch_count es ≡ 0) × (paused es ≡ 0)
  Quiet _ = Unit

  try_failed-Quiet :
      (words : Wording) (last : Bool) (r : Response T) → Quiet (try_failed words last r)
  unfolding try_failed
  try_failed-Quiet words last r = elim (Option-cases (code_of r.error_body)) [
    | inl n ↦ rw (Quiet, try_failed, n) (failed_quiet (leb 500 r.status && not last))
    | inr (e, c) ↦ rw (Quiet, try_failed, c) tt
  ]
    where
      failed_quiet :
          (b : Bool)
          → Quiet (
              if b
              then server_error
              else raises
                  (notifies (words.failed_title r.status) (error_message r.error_text r.error_body)
                    ∷ [])
                  false
                  (error_message r.error_text r.error_body))
      failed_quiet true = tt
      failed_quiet false = (refl, refl)

  pub attempt_once-Quiet :
      (words : Wording) (last : Bool) (reply : Reply T) → Quiet (attempt_once words last reply)
  unfolding attempt_once
  attempt_once-Quiet words last (unreachable m) = (refl, refl)
  attempt_once-Quiet words last aborted = (refl, refl)
  attempt_once-Quiet words last (responds r) =
      ground (arith, try_failed-Quiet words last r, Option-cases r.value)

  try_failed-last : (words : Wording) (r : Response T) → try_failed words true r ≢ server_error
  unfolding try_failed
  try_failed-last words r h = elim (Option-cases (code_of r.error_body)) [
    | inl n ↦ ground arith
    | inr (e, c) ↦ ground arith
  ]

  -- The last attempt does not go on for a server error.
  pub attempt_once-last :
      (words : Wording) (reply : Reply T) → attempt_once words true reply ≢ server_error
  unfolding attempt_once
  attempt_once-last words (unreachable m) h = cc
  attempt_once-last words aborted h = cc
  attempt_once-last words (responds r) h =
      ground (arith, try_failed-last words r, Option-cases r.value)

  module _ (words : Wording) (replies : ℕ → Reply T) (left attempt : ℕ)
      (last_error : Option String) where
    -- The rest of the loop, after an attempt that left this error.
    abbrev pub rest_of : Option String → List Event × Outcome T
    rest_of e = request_loop words replies left (attempt + 1) e

    pub loop_ends :
        (o : Outcome T)
        → attempt_once words (eqb left 0) (replies attempt) ≡ ends o
        → request_loop words replies (suc left) attempt last_error ≡ (fetches ∷ [], o)
    unfolding request_loop
    loop_ends o e = rw (request_loop, e) refl

    pub loop_server_error :
        attempt_once words (eqb left 0) (replies attempt) ≡ server_error
        → request_loop words replies (suc left) attempt last_error
          ≡ (fetches ∷ waits (2 ^ attempt * 1000) ∷ (rest_of last_error).0, (rest_of last_error).1)
    unfolding request_loop
    loop_server_error e = rw (request_loop, e) refl

    pub loop_goes_on :
        (es : List Event) (m : String)
        → attempt_once words (eqb left 0) (replies attempt) ≡ raises es false m
        → eqb left 0 ≡ false
        → request_loop words replies (suc left) attempt last_error ≡ (
          fetches ∷ es ++ waits (2 ^ attempt * 1000) ∷ (rest_of (some m)).0,
          (rest_of (some m)).1,
        )
    unfolding request_loop
    loop_goes_on es m e more = rw (request_loop, e, more) refl

    pub loop_stops :
        (es : List Event) (b : Bool) (m : String)
        → attempt_once words (eqb left 0) (replies attempt) ≡ raises es b m
        → (not (eqb left 0) && not b) ≡ false
        → request_loop words replies (suc left) attempt last_error
          ≡ (fetches ∷ es ++ notifies "API Error" m ∷ [], failed m)
    unfolding request_loop
    loop_stops es b m e stop = rw (request_loop, e, stop) refl

  -- What an attempt logs before it raises holds no fetch and no pause.
  pub raises-quiet :
      (words : Wording) (last : Bool) (reply : Reply T) (es : List Event) (b : Bool) (m : String)
      → attempt_once words last reply ≡ raises es b m
      → (fetch_count es ≡ 0) × (paused es ≡ 0)
  raises-quiet words last reply es b m e = subst Quiet e (attempt_once-Quiet words last reply)
