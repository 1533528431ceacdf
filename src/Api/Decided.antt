-- ===== src/Api/Decided.antt =====
-- How a call of `request` ends, against the replies that its attempts see: the attempt that decides
-- it, the fetches and the notifications.
use mathlib.Core.Path.{subst}
use cont_ained.Base.{
  ℕ, zero, suc, ◌+◌, ◌*◌, ◌^◌, ◌<◌, String, Bool, true, false, Option, none, some, List, ◌∷◌, ◌++◌,
  [], ◌≡◌, ◌⊎◌, inl, inr, refl, eqb, arith, Bool-cases,
}
use cont_ained.Api.{
  Reply, Event, fetches, notifies, waits, Outcome, failed, Attempt, ends, server_error, raises,
  Wording, attempt_once, request_loop, request,
}
use cont_ained.Api.Loop.{
  fetch_count, notice_count, Attempt-cases, fetch_count-append, notice_count-append, loop_ends,
  loop_server_error, loop_goes_on, loop_stops,
}
use cont_ained.Api.Verdict.{Passes, Decides, Says, shown_count, attempt_once-Says}

module _ {T : Type 0} where
  -- The notifications of `k` replies behind which the loop goes on, from number `attempt` on.
  abbrev pub shown_before : (ℕ → Reply T) → ℕ → ℕ → ℕ
  shown_before replies attempt zero = 0
  shown_before replies attempt (suc k) =
      shown_count (replies attempt) + shown_before replies (attempt + 1) k

  -- A call decided by the attempt `k` places on, with one fetch for each attempt.
  abbrev pub DecidedAt : Wording → (ℕ → Reply T) → ℕ → ℕ → List Event × Outcome T → ℕ → Type 0
  DecidedAt words replies left attempt r k =
      (k < left)
      × ((j : ℕ) → j < k → Passes (replies (attempt + j)))
      × (fetch_count r.0 ≡ k + 1)
      × ((n : ℕ) × Decides words (eqb (k + 1) left) (replies (attempt + k)) r.1 n
          × (notice_count r.0 ≡ shown_before replies attempt k + n))

  -- One more attempt in front of a decided call.
  DecidedAt-suc :
      (words : Wording) (replies : ℕ → Reply T) (left attempt : ℕ) (rest : List Event × Outcome T)
      (es : List Event)
      → (fetch_count es ≡ suc (fetch_count rest.0))
        × (notice_count es ≡ shown_count (replies attempt) + notice_count rest.0)
      → Passes (replies attempt)
      → (k : ℕ) → DecidedAt words replies left (attempt + 1) rest k
      → DecidedAt words replies (suc left) attempt (es, rest.1) (suc k)
  DecidedAt-suc words replies left attempt rest es (fs, ns) p k
        (lt, before, count, (n, dec, shown)) =
      (omega (arith, lt), earlier, omega (arith, fs, count), (n, decided, omega (arith, ns, shown)))
    where
      earlier : (j : ℕ) → j < suc k → Passes (replies (attempt + j))
      earlier zero h =
          let here_ : attempt ≡ attempt + 0 = omega arith in subst (λ i. Passes (replies i)) here_ p
      earlier (suc j) h =
          let next_ : attempt + 1 + j ≡ attempt + suc j = omega arith in
          subst (λ i. Passes (replies i)) next_ (before j (omega (arith, h)))

      decided : Decides words (eqb (suc k + 1) (suc left)) (replies (attempt + suc k)) rest.1 n
      decided =
          let same : eqb (k + 1) left ≡ eqb (suc k + 1) (suc left) = ground arith in
          let next_ : attempt + 1 + k ≡ attempt + suc k = omega arith in
          subst (λ i. Decides words (eqb (suc k + 1) (suc left)) (replies i) rest.1 n) next_
            (subst (λ b. Decides words b (replies (attempt + 1 + k)) rest.1 n) same dec)

  -- A call that the first attempt decides.
  DecidedAt-zero :
      (words : Wording) (replies : ℕ → Reply T) (left attempt n : ℕ) (es : List Event)
      (o : Outcome T)
      → (fetch_count es ≡ 1) × (notice_count es ≡ n)
      → Decides words (eqb left 0) (replies attempt) o n
      → DecidedAt words replies (suc left) attempt (es, o) 0
  DecidedAt-zero words replies left attempt n es o (fs, ns) dec = (
    omega arith,
    λ j h. absurd (omega (arith, h)),
    omega (arith, fs),
    (n, decided, omega (arith, ns)),
  )
    where
      decided : Decides words (eqb (0 + 1) (suc left)) (replies (attempt + 0)) o n
      decided =
          let same : eqb left 0 ≡ eqb (0 + 1) (suc left) = ground arith in
          let here_ : attempt ≡ attempt + 0 = omega arith in
          subst (λ i. Decides words (eqb (0 + 1) (suc left)) (replies i) o n) here_
            (subst (λ b. Decides words b (replies attempt) o n) same dec)

  -- A call with one attempt at least, by what its first attempt comes to.
  module _ (words : Wording) (replies : ℕ → Reply T) (left attempt : ℕ)
      (last_error : Option String) where
    abbrev call : List Event × Outcome T
    call = request_loop words replies (suc left) attempt last_error

    abbrev Found : List Event × Outcome T → Type 0
    Found r = (k : ℕ) × DecidedAt words replies (suc left) attempt r k

    says :
        (a : Attempt T)
        → attempt_once words (eqb left 0) (replies attempt) ≡ a
        → Says words (eqb left 0) (replies attempt) a
    says a e =
        subst (Says words (eqb left 0) (replies attempt)) e
          (attempt_once-Says words (eqb left 0) (replies attempt))

    -- The replies after the first.
    abbrev Later : Type 0
    Later =
        (e : Option String)
        → eqb left 0 ≡ false
        → (k : ℕ) × DecidedAt words replies left (attempt + 1)
            (request_loop words replies left (attempt + 1) e) k

    ended :
        (o : Outcome T) → attempt_once words (eqb left 0) (replies attempt) ≡ ends o → Found call
    ended o e = rw (loop_ends words replies left attempt last_error o e) (
      0,
      DecidedAt-zero words replies left attempt 0 (fetches ∷ []) o (refl, refl) (says (ends o) e),
    )

    passed : Later → attempt_once words (eqb left 0) (replies attempt) ≡ server_error → Found call
    passed later e =
        let (l, (p, quiet)) = says server_error e in
        let (k, d) = later last_error l in
        rw (loop_server_error words replies left attempt last_error e) (
          suc k,
          DecidedAt-suc words replies left attempt
              (request_loop words replies left (attempt + 1) last_error)
              (fetches
                ∷ waits (2 ^ attempt * 1000)
                ∷ (request_loop words replies left (attempt + 1) last_error).0)
              (refl, omega (arith, quiet)) p k d,
        )

    stopped :
        (es : List Event) (b : Bool) (m : String)
        → attempt_once words (eqb left 0) (replies attempt) ≡ raises es b m
        → (b ≡ true) ⊎ (eqb left 0 ≡ true)
        → Found call
    stopped es b m e why =
        let (quiet, (decides, passes)) = says (raises es b m) e in
        rw (loop_stops words replies left attempt last_error es b m e (ground (arith, why))) (
          0,
          DecidedAt-zero words replies left attempt (notice_count es + 1)
              (fetches ∷ es ++ notifies "API Error" m ∷ []) (failed m)
              (
                omega (arith, fetch_count-append es (notifies "API Error" m ∷ []), quiet),
                omega (arith, notice_count-append es (notifies "API Error" m ∷ [])),
              )
              (decides why),
        )

    raised :
        Later
        → (es : List Event) (b : Bool) (m : String)
        → attempt_once words (eqb left 0) (replies attempt) ≡ raises es b m
        → Found call
    raised later es true m e = stopped es true m e (inl refl)
    raised later es false m e = elim (Bool-cases (eqb left 0)) [
      | inl l ↦ stopped es false m e (inr l)
      | inr l ↦
          let (quiet, (decides, passes)) = says (raises es false m) e in
          let (p, shown) = passes refl l in
          let (k, d) = later (some m) l in
          let rest = request_loop words replies left (attempt + 1) (some m) in
          rw (loop_goes_on words replies left attempt last_error es m e l) (
            suc k,
            DecidedAt-suc words replies left attempt rest
                (fetches ∷ es ++ waits (2 ^ attempt * 1000) ∷ rest.0)
                (
                  omega (arith, fetch_count-append es (waits (2 ^ attempt * 1000) ∷ rest.0), quiet),
                  omega
                      (arith, notice_count-append es (waits (2 ^ attempt * 1000) ∷ rest.0), shown),
                )
                p k d,
          )
    ]

    decided_first : Later → Found call
    decided_first later = elim (Attempt-cases (attempt_once words (eqb left 0) (replies attempt))) [
      | inl (o, e) ↦ ended o e
      | inr (inl e) ↦ passed later e
      | inr (inr (es, b, m, e)) ↦ raised later es b m e
    ]

  request_loop-DecidedAt :
      (words : Wording) (replies : ℕ → Reply T) (left attempt : ℕ) (last_error : Option String)
      → (k : ℕ) × DecidedAt words replies
          (suc left)
          attempt
          (request_loop words replies (suc left) attempt last_error)
          k
  request_loop-DecidedAt words replies zero attempt last_error =
      decided_first words replies zero attempt last_error (λ e l. absurd (ground (arith, l)))
  request_loop-DecidedAt words replies (suc left) attempt last_error =
      decided_first words replies (suc left) attempt last_error
        (λ e l. request_loop-DecidedAt words replies left (attempt + 1) e)

  -- A call of `request` with one attempt at least is decided by one of its attempts, number `k` from
  -- 0, and `k + 1` fetches are made. The replies before it are network failures, failing statuses
  -- without an error code, client errors as well as server errors, and bodies that cannot be read.
  -- The one that decides is a result, an empty answer, an error with its code, the abort, or, when no
  -- attempt is left, one that the loop would have gone on behind. Each failing status below 500 among
  -- the replies before is notified once, the others are not; a result, an empty answer and an error
  -- with a code end the call without a notification, the abort, a network failure and a body that
  -- cannot be read with one, a failing status without a code with two.
  pub request-DecidedAt :
      (words : Wording) (replies : ℕ → Reply T) (retries : ℕ)
      → 0 < retries
      → (k : ℕ) × DecidedAt words replies retries 0 (request words replies retries) k
  unfolding request
  request-DecidedAt words replies zero h = absurd (omega (arith, h))
  request-DecidedAt words replies (suc left) h = request_loop-DecidedAt words replies left 0 none
