-- ===== src/Api/Backoff.antt =====
-- The pauses between the attempts of `request`.
use native.Mathlib.Nat.{two-pow-succ}
use mathlib.Core.Path.{subst}
use cont_ained.Base.{
  ap, ℕ, zero, suc, ◌+◌, ◌*◌, ◌^◌, ◌≤◌, String, true, false, Option, none, some, List, [], ◌∷◌,
  ◌++◌, ◌≡◌, inl, inr, refl, eqb, arith,
}
use cont_ained.Api.{
  Reply, Event, fetches, notifies, waits, Wording, attempt_once, request_loop, request,
}
use cont_ained.Api.Loop.{
  paused, Attempt-cases, attempt_once-last, raises-quiet, loop_ends, loop_server_error,
  loop_goes_on, loop_stops,
}

paused-append : (es fs : List Event) → paused (es ++ fs) ≡ paused es + paused fs
paused-append [] fs = omega arith
paused-append (fetches ∷ es) fs = paused-append es fs
paused-append (notifies t m ∷ es) fs = paused-append es fs
paused-append (waits ms ∷ es) fs = omega (arith, paused-append es fs)

pow-add_one : (n : ℕ) → 2 ^ (n + 1) ≡ 2 ^ n + 2 ^ n
pow-add_one n = let next_ : n + 1 ≡ suc n = omega arith in rw next_ (two-pow-succ n)

pow-grows : (n k : ℕ) → 2 ^ n ≤ 2 ^ (n + k)
pow-grows n zero = let same : n + 0 ≡ n = omega arith in rw same (omega arith)
pow-grows n (suc k) =
    let next_ : n + suc k ≡ suc (n + k) = omega arith in
    rw (next_, two-pow-succ (n + k)) (omega (arith, pow-grows n k))

pow-shift : (n k : ℕ) → 2 ^ (n + 1 + k) ≡ 2 ^ (n + suc k)
pow-shift n k = let same : n + 1 + k ≡ n + suc k = omega arith in ap (λ i. 2 ^ i) same

module _ {T : Type 0} where
  request_loop-paused :
      (words : Wording) (replies : ℕ → Reply T) (left attempt : ℕ) (last_error : Option String)
      → paused (request_loop words replies (suc left) attempt last_error).0 + 2 ^ attempt * 1000
        ≤ 2 ^ (attempt + left) * 1000
  request_loop-paused words replies zero attempt last_error =
      elim (Attempt-cases (attempt_once words true (replies attempt))) [
        | inl (o, e) ↦
            rw (loop_ends words replies zero attempt last_error o e)
              (omega (arith, pow-grows attempt 0))
        | inr (inl e) ↦ absurd (attempt_once-last words (replies attempt) e)
        | inr (inr (es, b, m, e)) ↦
            rw (loop_stops words replies zero attempt last_error es b m e refl) (
              omega (
                arith,
                pow-grows attempt 0,
                paused-append es (notifies "API Error" m ∷ []),
                (raises-quiet words true (replies attempt) es b m e).1,
              ))
      ]
  request_loop-paused words replies (suc left) attempt last_error =
      elim (Attempt-cases (attempt_once words (eqb (suc left) 0) (replies attempt))) [
        | inl (o, e) ↦
            rw (loop_ends words replies (suc left) attempt last_error o e)
              (omega (arith, pow-grows attempt (suc left)))
        | inr (inl e) ↦ rw (loop_server_error words replies (suc left) attempt last_error e) (
            omega (
              arith,
              pow-add_one attempt,
              pow-shift attempt left,
              request_loop-paused words replies left (attempt + 1) last_error,
            ))
        | inr (inr (es, true, m, e)) ↦
            rw (loop_stops words replies (suc left) attempt last_error es true m e (ground arith)) (
              omega (
                arith,
                pow-grows attempt (suc left),
                paused-append es (notifies "API Error" m ∷ []),
                (raises-quiet words (eqb (suc left) 0) (replies attempt) es true m e).1,
              ))
        | inr (inr (es, false, m, e)) ↦
            rw (loop_goes_on words replies (suc left) attempt last_error es m e (ground arith)) (
              omega (
                arith,
                pow-add_one attempt,
                pow-shift attempt left,
                paused-append es (
                    waits (2 ^ attempt * 1000)
                    ∷ (request_loop words replies (suc left) (attempt + 1) (some m)).0),
                (raises-quiet words (eqb (suc left) 0) (replies attempt) es false m e).1,
                request_loop-paused words replies left (attempt + 1) (some m),
              ))
      ]

  -- Whatever the replies are, a call of `request` with `n + 1` attempts pauses for at most
  -- 1000 * (2 ^ n - 1) milliseconds.
  pub request-paused :
      (words : Wording) (replies : ℕ → Reply T) (n : ℕ)
      → paused (request words replies (n + 1)).0 + 1000 ≤ 2 ^ n * 1000
  unfolding request
  request-paused words replies n =
      let next_ : n + 1 ≡ suc n = omega arith in
      let sum : 0 + n ≡ n = omega arith in
      rw next_ (
        subst (λ i. paused (request_loop words replies (suc n) 0 none).0 + 1000 ≤ 2 ^ i * 1000) sum
          (request_loop-paused words replies n 0 none))
