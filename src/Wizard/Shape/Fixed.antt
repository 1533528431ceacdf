-- ===== src/Wizard/Shape/Fixed.antt =====
-- Slugs that Wizard/Slug.antt leaves as they are.
use Prim.Native.Char.{Char}
use mathlib.Core.Path.{subst}
use text.Mathlib.TextEquality.{Char-path}
use cont_ained.Base.{String, Bool, true, false, ◌≡◌, refl, arith, inl, inr, Bool-cases, ap}
use cont_ained.Wizard.Slug.{is_word, is_dash, dash_runs, strip_first, strip_last, derived_slug}
use cont_ained.Wizard.Shape.{
  words, is_slug, words-word, dash_runs-word, dash_runs-dash, strip_last-word, is_dash_of_word,
  words_after, first-word, derived_slug-is_slug,
}

dash_path : (c : Char) → is_dash c ≡ true → Path Char "-" c
unfolding is_dash
dash_path c h = Char-path "-" c (ground arith)

-- Words are left as they are.
dash_runs-words : (b : Bool) (s : String) → words b s ≡ true → dash_runs b s ≡ s
unfolding dash_runs words
dash_runs-words b String.[] h = refl
dash_runs-words b (String.◌∷◌ c s) h = elim (Bool-cases (is_word c)) [
  | inl w ↦
      rw (dash_runs-word c s b w)
        (ap (String.◌∷◌ c) (dash_runs-words false s (subst (λ b. b ≡ true) (words-word c s b w) h)))
  | inr w ↦ dashed w (words_after b c s w h) (λ k. dash_runs-words true s k)
]
  where
    dashed :
        is_word c ≡ false
        → (is_dash c ≡ true) × ((b ≡ false) × (words true s ≡ true))
        → (words true s ≡ true → dash_runs true s ≡ s)
        → dash_runs b (String.◌∷◌ c s) ≡ String.◌∷◌ c s
    dashed w (k, (e, t)) ih =
        rw (e, dash_runs-dash c s w, ih t) (ap (λ a. String.◌∷◌ a s) (dash_path c k))

strip_last_fixed : (b : Bool) (s : String) → words b s ≡ true → strip_last s ≡ s
unfolding strip_last words
strip_last_fixed b String.[] h = refl
strip_last_fixed b (String.◌∷◌ c String.[]) h = elim (Bool-cases (is_word c)) [
  | inl w ↦ strip_last-word c w
  | inr w ↦ absurd (ground (arith, words_after b c "" w h))
]
strip_last_fixed b (String.◌∷◌ c (String.◌∷◌ d s)) h =
    ap (String.◌∷◌ c) (elim (Bool-cases (is_word c)) [
      | inl w ↦
          strip_last_fixed false (String.◌∷◌ d s)
            (subst (λ b. b ≡ true) (words-word c (String.◌∷◌ d s) b w) h)
      | inr w ↦ strip_last_fixed true (String.◌∷◌ d s) (words_after b c (String.◌∷◌ d s) w h).1.1
    ])

strip_first-fixed : (s : String) → is_slug s ≡ true → strip_first s ≡ s
unfolding strip_first
strip_first-fixed String.[] h = refl
strip_first-fixed (String.◌∷◌ c s) h = rw (is_dash_of_word c (first-word c s h)) refl

dash_runs-slug : (s : String) → is_slug s ≡ true → dash_runs false s ≡ s
unfolding dash_runs
dash_runs-slug String.[] h = refl
dash_runs-slug (String.◌∷◌ c s) h = dash_runs-words false (String.◌∷◌ c s) (
    rw (words-word c s false (first-word c s h))
      (subst (λ b. b ≡ true) (words-word c s true (first-word c s h)) h))

strip_last-slug : (s : String) → is_slug s ≡ true → strip_last s ≡ s
unfolding strip_last
strip_last-slug String.[] h = refl
strip_last-slug (String.◌∷◌ c s) h = strip_last_fixed true (String.◌∷◌ c s) h

derived_slug-slug :
    (to_lower_case : String → String) (s : String)
    → to_lower_case s ≡ s
    → is_slug s ≡ true
    → derived_slug to_lower_case s ≡ s
unfolding derived_slug
derived_slug-slug to_lower_case s e h =
    rw (e, dash_runs-slug s h, strip_first-fixed s h) (strip_last-slug s h)

-- Deriving a slug twice changes nothing more, if `toLowerCase` leaves slugs as they are.
derived_slug-derived_slug :
    (to_lower_case : String → String) (name : String)
    → ((s : String) → is_slug s ≡ true → to_lower_case s ≡ s)
    → derived_slug to_lower_case (derived_slug to_lower_case name) ≡ derived_slug to_lower_case name
derived_slug-derived_slug to_lower_case name fixed =
    derived_slug-slug to_lower_case (derived_slug to_lower_case name)
      (fixed (derived_slug to_lower_case name) (derived_slug-is_slug to_lower_case name))
      (derived_slug-is_slug to_lower_case name)
