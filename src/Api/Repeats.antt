-- ===== src/Api/Repeats.antt =====
-- What `request` does on a client error.
use cont_ained.Base.{
  ℕ, zero, suc, ◌+◌, ◌≤◌, ◌<◌, String, Bool, true, false, ◌&&◌, Option, none, some, [], ◌∷◌, ◌≡◌,
  refl, eqb, leb, arith,
}
use cont_ained.Api.{
  Response, responds, notifies, Wording, code_of, error_message, raises, try_failed, attempt_once,
  request_loop, request,
}
use cont_ained.Api.Loop.{fetch_count, notice_count, loop_goes_on, loop_stops}

-- A response with a status of 400 to 499 and no error code in its body.
pub record IsClientError {T : Type 0} (r : Response T) : Type 0 where
  pub at_least : 400 ≤ r.status
  pub below : r.status < 500
  pub no_code : code_of r.error_body ≡ none

module _ {T : Type 0} where
  client_error-raises :
      (words : Wording) (last : Bool) (r : Response T)
      → IsClientError r
      → attempt_once words last (responds r)
        ≡ raises
            (notifies (words.failed_title r.status) (error_message r.error_text r.error_body) ∷ [])
            false
            (error_message r.error_text r.error_body)
  unfolding attempt_once try_failed
  client_error-raises words last r c =
      let not_ok : (leb 200 r.status && leb r.status 299) ≡ false = ground (arith, c.at_least) in
      let small : leb 500 r.status ≡ false = ground (arith, c.below) in
      rw (not_ok, try_failed, c.no_code, small) refl

  repeats :
      (words : Wording) (r : Response T) (left attempt : ℕ) (last_error : Option String)
      → IsClientError r
      → (fetch_count (request_loop words (λ i. responds r) (suc left) attempt last_error).0
          ≡ suc left)
        × (notice_count (request_loop words (λ i. responds r) (suc left) attempt last_error).0
            ≡ suc (suc left))
  repeats words r zero attempt last_error c =
      rw
        (loop_stops words (λ i. responds r) zero attempt last_error _ false _
          (client_error-raises words true r c) refl)
        (refl, refl)
  repeats words r (suc left) attempt last_error c =
      let (f, n) =
        repeats words r left (attempt + 1) (some (error_message r.error_text r.error_body)) c in
      rw
        (loop_goes_on words (λ i. responds r) (suc left) attempt last_error _ _
          (client_error-raises words (eqb (suc left) 0) r c) (ground arith))
        (omega (arith, f), omega (arith, n))

  -- A client error without an error code is fetched again on every attempt, and shown once for each
  -- of them and once more.
  pub request_repeats :
      (words : Wording) (r : Response T) (retries : ℕ)
      → 0 < retries
      → IsClientError r
      → (fetch_count (request words (λ i. responds r) retries).0 ≡ retries)
        × (notice_count (request words (λ i. responds r) retries).0 ≡ suc retries)
  unfolding request
  request_repeats words r zero h c = absurd (omega (arith, h))
  request_repeats words r (suc left) h c = repeats words r left 0 none c
