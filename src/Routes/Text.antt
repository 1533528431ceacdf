-- ===== src/Routes/Text.antt =====
-- What frontend/src/routes.ts uses of JavaScript's texts: `split("/")`, `join("/")` and
-- `replace(/\/$/, "")`, with their laws.
use Prim.Native.Char.{Char, code}
use cont_ained.Base.{
  String, true, false, List, [], ◌∷◌, eqb, inl, inr, Bool-cases, if◌then◌else◌, ◌≡◌, refl, arith,
  ◌≢◌, ap, ◌∙◌,
}
pub use Prim.Native.String.{◌++◌}
use text.Mathlib.TextEquality.{Char-path}
use text.Mathlib.TextLemmas.{nil-append, cons-append}

abbrev cons_head : Char → List String → List String
cons_head c [] = (String.◌∷◌ c "") ∷ []
cons_head c (p ∷ ps) = (String.◌∷◌ c p) ∷ ps

-- `s.split("/")`: never empty, and one part more than there are slashes.
unfoldable pub split_slash : String → List String
split_slash String.[] = "" ∷ []
split_slash (String.◌∷◌ c s) =
    let parts = split_slash s in if eqb (code c) b'/' then "" ∷ parts else cons_head c parts

-- `parts.join("/")`.
unfoldable pub join_slash : List String → String
join_slash [] = ""
join_slash (p ∷ []) = p
join_slash (p ∷ q ∷ ps) = p ++ ("/" ++ join_slash (q ∷ ps))

-- `s.replace(/\/$/, "")`: one slash at the very end goes.
unfoldable pub strip_slash : String → String
strip_slash String.[] = ""
strip_slash (String.◌∷◌ c String.[]) = if eqb (code c) b'/' then "" else String.◌∷◌ c ""
strip_slash (String.◌∷◌ c (String.◌∷◌ d s)) = String.◌∷◌ c (strip_slash (String.◌∷◌ d s))

abbrev pub NoSlash : String → Type 0
NoSlash String.[] = Unit {0}
NoSlash (String.◌∷◌ c s) = (eqb (code c) b'/' ≡ false) × NoSlash s

-- The text does not end in a slash.
abbrev pub NoEndSlash : String → Type 0
NoEndSlash s = strip_slash s ≡ s

pub split_slash-slash : (s : String) → split_slash ("/" ++ s) ≡ "" ∷ split_slash s
unfolding split_slash
split_slash-slash s = rw (cons-append, nil-append)

-- A part without slashes is split off whole.
pub split_slash-append :
    (p s : String) → NoSlash p → split_slash (p ++ ("/" ++ s)) ≡ p ∷ split_slash s
unfolding split_slash
split_slash-append String.[] s h = rw nil-append (split_slash-slash s)
split_slash-append (String.◌∷◌ c p) s h =
    rw cons-append (rw (h.0, split_slash) (rw (split_slash-append p s h.1)))

pub split_slash_of_NoSlash : (p : String) → NoSlash p → split_slash p ≡ p ∷ []
unfolding split_slash
split_slash_of_NoSlash String.[] h = refl
split_slash_of_NoSlash (String.◌∷◌ c p) h = rw (h.0, split_slash_of_NoSlash p h.1)

cons_head-join :
    (c : Char) (ps : List String) → join_slash (cons_head c ps) ≡ String.◌∷◌ c (join_slash ps)
unfolding join_slash
cons_head-join c [] = refl
cons_head-join c (p ∷ []) = refl
cons_head-join c (p ∷ q ∷ ps) = rw cons-append

split_slash-cons : (s : String) → (p : String) × (ps : List String) × (split_slash s ≡ p ∷ ps)
unfolding split_slash
split_slash-cons String.[] = ("", [], refl)
split_slash-cons (String.◌∷◌ c s) = elim (Bool-cases (eqb (code c) b'/')) [
  | inl slash ↦ ("", split_slash s, rw slash)
  | inr plain ↦ let (p, ps, e) = split_slash-cons s in (String.◌∷◌ c p, ps, rw (plain, e))
]

pub is_slash : (c : Char) → eqb (code c) b'/' ≡ true → c ≡ "/"
is_slash c h = Char-path c "/" (ground arith)

join_slash-slash :
    (s : String) (ps : List String) (p : String) (qs : List String)
    → ps ≡ p ∷ qs
    → join_slash ps ≡ s
    → join_slash ("" ∷ ps) ≡ "/" ++ s
unfolding join_slash
join_slash-slash s ps p qs e h = rw e (rw nil-append (ap (◌++◌ "/") (rw e at h)))

-- Joining the parts of a text again gives the text.
pub join_slash-split_slash : (s : String) → join_slash (split_slash s) ≡ s
unfolding split_slash
join_slash-split_slash String.[] = unfold join_slash in refl
join_slash-split_slash (String.◌∷◌ c s) = elim (Bool-cases (eqb (code c) b'/')) [
  | inl slash ↦
      let (p, ps, e) = split_slash-cons s in
      rw (slash, is_slash c slash)
        (join_slash-slash s (split_slash s) p ps e (join_slash-split_slash s)
          ∙ rw (cons-append, nil-append))
  | inr plain ↦
      rw plain (cons_head-join c (split_slash s) ∙ ap (String.◌∷◌ c) (join_slash-split_slash s))
]

pub strip_slash-append : (p s : String) → s ≢ "" → strip_slash (p ++ s) ≡ p ++ strip_slash s
unfolding strip_slash
strip_slash-append String.[] s h = rw (nil-append, nil-append)
strip_slash-append (String.◌∷◌ c String.[]) String.[] h = absurd (h refl)
strip_slash-append (String.◌∷◌ c String.[]) (String.◌∷◌ d s) h =
    rw (cons-append, nil-append, cons-append, nil-append)
strip_slash-append (String.◌∷◌ c (String.◌∷◌ d p)) s h =
    let ih = strip_slash-append (String.◌∷◌ d p) s h in
    simp cons-append (ap (String.◌∷◌ c) (simp cons-append at ih))

pub NoSlash-NoEndSlash : (s : String) → NoSlash s → NoEndSlash s
unfolding strip_slash
NoSlash-NoEndSlash String.[] h = refl
NoSlash-NoEndSlash (String.◌∷◌ c String.[]) h = rw (h.0)
NoSlash-NoEndSlash (String.◌∷◌ c (String.◌∷◌ d s)) h =
    ap (String.◌∷◌ c) (NoSlash-NoEndSlash (String.◌∷◌ d s) h.1)
