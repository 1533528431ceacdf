-- ===== src/Api/Inside.antt =====
-- frontend/src/services/api.ts: the paths of the calls inside a hub, taken apart again.
use Prim.Native.Char.{Char, code}
use Prim.Native.String.{◌++◌}
use text.Mathlib.TextLemmas.{nil-append, cons-append, append-nil, append_assoc}
use cont_ained.Base.{
  String, true, false, ◌||◌, List, [], ◌∷◌, eqb, ◌≡◌, ap, ◌∙◌, arith, inl, inr, Bool-cases,
  if◌then◌else◌,
}
use mathlib.Core.List
use cont_ained.Routes.Text.{
  split_slash, NoSlash, split_slash-slash, split_slash-append, split_slash_of_NoSlash, is_slash,
}
use cont_ained.Api.Endpoints.{in_hub}

-- A path up to its query.
unfoldable pub pathname : String → String
pathname String.[] = ""
pathname (String.◌∷◌ c s) =
    let rest = pathname s in if eqb (code c) b'?' then "" else String.◌∷◌ c rest

abbrev pub NoQuery : String → Type 0
NoQuery String.[] = Unit {0}
NoQuery (String.◌∷◌ c s) = (eqb (code c) b'?' ≡ false) × NoQuery s

-- A text that is one part of a path.
abbrev pub IsPart : String → Type 0
IsPart s = NoSlash s × NoQuery s

-- A text that may follow a part: nothing, or one that starts with a slash or a query.
abbrev IsStart : String → Type 0
IsStart String.[] = ⊥
IsStart (String.◌∷◌ c s) = (eqb (code c) b'/' || eqb (code c) b'?') ≡ true

abbrev IsTail : String → Type 0
IsTail String.[] = Unit {0}
IsTail (String.◌∷◌ c s) = (eqb (code c) b'/' || eqb (code c) b'?') ≡ true

-- The parts of a path.
abbrev pub parts : String → List String
parts s = split_slash (pathname s)

pathname-append : (p s : String) → NoQuery p → pathname (p ++ s) ≡ p ++ pathname s
unfolding pathname
pathname-append String.[] s h = rw (nil-append, nil-append)
pathname-append (String.◌∷◌ c p) s h =
    rw (cons-append, cons-append) (rw (h.0, pathname-append p s h.1))

IsTail-append : (p s : String) → IsStart p → IsTail (p ++ s)
IsTail-append String.[] s h = absurd h
IsTail-append (String.◌∷◌ c p) s h = rw cons-append h

parts-slash : (s : String) → parts ("/" ++ s) ≡ "" ∷ parts s
parts-slash s = rw (pathname-append "/" s (ground arith)) (split_slash-slash (pathname s))

parts-append : (p s : String) → IsPart p → parts (p ++ ("/" ++ s)) ≡ p ∷ parts s
parts-append p s h =
    ap split_slash
      (pathname-append p ("/" ++ s) h.1 ∙ ap (◌++◌ p) (pathname-append "/" s (ground arith)))
    ∙ split_slash-append p (pathname s) h.0

slash-cons : (c : Char) (s : String) → eqb (code c) b'/' ≡ true → String.◌∷◌ c s ≡ "/" ++ s
slash-cons c s h = rw (cons-append, nil-append) (ap (λ d. String.◌∷◌ d s) (is_slash c h))

parts-tail :
    (p tail : String)
    → IsPart p
    → IsTail tail
    → (rest : List String) × (parts (p ++ tail) ≡ p ∷ rest)
unfolding pathname
parts-tail p String.[] h k =
    ([], ap split_slash (pathname-append p "" h.1 ∙ append-nil p) ∙ split_slash_of_NoSlash p h.0)
parts-tail p (String.◌∷◌ c s) h k = elim (Bool-cases (eqb (code c) b'/')) [
  | inl slash ↦ (parts s, ap (λ t. parts (p ++ t)) (slash-cons c s slash) ∙ parts-append p s h)
  | inr other ↦
      let query : eqb (code c) b'?' ≡ true = ground (arith, k, other) in
      (
        [],
        ap split_slash (pathname-append p (String.◌∷◌ c s) h.1 ∙ rw query (append-nil p))
            ∙ split_slash_of_NoSlash p h.0,
      )
]

-- What a call inside the hub, of a service if it names one, makes of its path.
abbrev pub LeadsInto : String → List String → String → Type 0
LeadsInto hub service path =
    (rest : List String) × (parts path ≡ "" ∷ "api" ∷ "hubs" ∷ hub ∷ (List.◌++◌ service rest))

api_hubs : (s : String) → "/api/hubs/" ++ s ≡ "/" ++ ("api" ++ ("/" ++ ("hubs" ++ ("/" ++ s))))
api_hubs s =
    append_assoc "/" "api/hubs/" s
    ∙ ap (◌++◌ "/") (
        append_assoc "api" "/hubs/" s
        ∙ ap (◌++◌ "api") (append_assoc "/" "hubs/" s ∙ ap (◌++◌ "/") (append_assoc "hubs" "/" s)))

parts-in_hub :
    (hub tail : String) → parts (in_hub hub tail) ≡ "" ∷ "api" ∷ "hubs" ∷ parts (hub ++ tail)
parts-in_hub hub tail =
    ap parts (api_hubs (hub ++ tail))
    ∙ parts-slash _
    ∙ ap (◌∷◌ "") (
        parts-append "api" _ (ground arith)
        ∙ ap (◌∷◌ "api") (parts-append "hubs" (hub ++ tail) (ground arith)))

-- A path right behind the hub.
pub in_hub-LeadsInto :
    (hub tail : String) → IsPart hub → IsTail tail → LeadsInto hub [] (in_hub hub tail)
in_hub-LeadsInto hub tail h k =
    let (rest, e) = parts-tail hub tail h k in
    (rest, parts-in_hub hub tail ∙ ap (λ l. "" ∷ "api" ∷ "hubs" ∷ l) e)

-- The same behind a literal that starts it.
pub in_hub-item-LeadsInto :
    (hub page item : String)
    → IsPart hub
    → IsStart page
    → LeadsInto hub [] (in_hub hub (page ++ item))
in_hub-item-LeadsInto hub page item h k =
    in_hub-LeadsInto hub (page ++ item) h (IsTail-append page item k)

-- A path of a service.
pub service-LeadsInto :
    (hub service tail : String)
    → IsPart hub
    → IsPart service
    → IsTail tail
    → LeadsInto hub (service ∷ []) (in_hub hub ("/" ++ (service ++ tail)))
service-LeadsInto hub service tail h k t =
    let (rest, e) = parts-tail service tail k t in
    (
      rest,
      parts-in_hub hub _
          ∙ ap (λ l. "" ∷ "api" ∷ "hubs" ∷ l)
              (parts-append hub (service ++ tail) h ∙ ap (◌∷◌ hub) e),
    )

pub service-item-LeadsInto :
    (hub service page item : String)
    → IsPart hub
    → IsPart service
    → IsStart page
    → LeadsInto hub (service ∷ []) (in_hub hub (("/" ++ (service ++ page)) ++ item))
service-item-LeadsInto hub service page item h k t =
    let e : ("/" ++ (service ++ page)) ++ item ≡ "/" ++ (service ++ (page ++ item)) =
      append_assoc "/" (service ++ page) item ∙ ap (◌++◌ "/") (append_assoc service page item) in
    rw e (service-LeadsInto hub service (page ++ item) h k (IsTail-append page item t))
