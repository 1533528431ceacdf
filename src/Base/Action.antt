-- ===== src/Base/Action.antt =====
-- An asynchronous handler that is taken to run to its end: it writes the state of its page, sends
-- requests whose answers are its arguments, and may end with an exception.
use mathlib.Core.Option.{Option}
use mathlib.Core.List.{List, [], ◌∷◌, ◌++◌}
use mathlib.Core.Path.{◌≡◌, refl}
use Prim.Native.String.{String}

-- What a request is answered, or the message of the exception that it throws.
pub data Answer (A : Type 0) : Type 0 where
  ok : A → Answer A
  failed : Option String → Answer A

-- `.catch(() => d)`.
abbrev pub catch_with : {A : Type 0} → A → Answer A → A
catch_with d (ok a) = a
catch_with d (failed e) = d

-- A page, with the requests that were sent so far, the first one in front.
pub record World (Page Request : Type 0) : Type 0 where
  pub page : Page
  pub sent : List Request

abbrev pub Action : Type 0 → Type 0 → Type 0 → Type 0
Action Page Request A = World Page Request → Answer A × World Page Request

module _ {Page Request : Type 0} where
  infixl 5 ◌>>=◌ ◌>>◌
  abbrev pub ◌>>=◌ :
      {A B : Type 0} → Action Page Request A → (A → Action Page Request B) → Action Page Request B
  ◌>>=◌ m f w = let (r, w') = m w in elim r [ ok a ↦ f a w' | failed e ↦ (failed e, w') ]

  abbrev pub ◌>>◌ :
      {B : Type 0} → Action Page Request (Unit {0}) → Action Page Request B → Action Page Request B
  m >> k = m >>= λ _. k

  -- One or more calls of `setState`.
  abbrev pub update : (Page → Page) → Action Page Request (Unit {0})
  update f w = (ok tt, record w { page = f w.page })

  -- `await` of a request.
  abbrev pub send : {A : Type 0} → Request → Answer A → Action Page Request A
  send q a w = (a, record w { sent = w.sent ++ q ∷ [] })

  -- A request that is begun, and the `await` of what it is answered, as in `Promise.all`.
  abbrev pub post : Request → Action Page Request (Unit {0})
  post q w = (ok tt, record w { sent = w.sent ++ q ∷ [] })

  abbrev pub await : {A : Type 0} → Answer A → Action Page Request A
  await a w = (a, w)

  -- `catch (err) { handler } finally { last }` after a body that has run.
  abbrev pub catch_finally :
      (Option String → Page → Page)
      → (Page → Page)
      → Answer (Unit {0}) × World Page Request
      → World Page Request
  catch_finally handler last (ok _, w) = record w { page = last w.page }
  catch_finally handler last (failed e, w) = record w { page = last (handler e w.page) }

  -- `try { body } catch (err) { handler } finally { last }`, where only the body may throw.
  unfoldable pub try_catch :
      Action Page Request (Unit {0})
      → (Option String → Page → Page)
      → (Page → Page)
      → World Page Request
      → World Page Request
  try_catch body handler last w = catch_finally handler last (body w)

  catch_finally-last :
      (handler : Option String → Page → Page) (last : Page → Page)
      (r : Answer (Unit {0}) × World Page Request)
      → (q : Page) × ((catch_finally handler last r).page ≡ last q)
  catch_finally-last handler last (ok _, w) = (w.page, refl)
  catch_finally-last handler last (failed e, w) = (handler e w.page, refl)

  -- `finally` has the last word on the page.
  pub try_catch-last :
      (body : Action Page Request (Unit {0})) (handler : Option String → Page → Page)
      (last : Page → Page) (w : World Page Request)
      → (q : Page) × ((try_catch body handler last w).page ≡ last q)
  unfolding try_catch
  try_catch-last body handler last w = catch_finally-last handler last (body w)
