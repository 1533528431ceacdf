-- ===== src/Wizard/Shape.antt =====
-- The shape of the slugs that Wizard/Slug.antt derives.
mod Fixed
use Prim.Native.Char.{Char}
use cont_ained.Base.{
  String, Bool, true, false, ◌&&◌, not, leb, ◌≡◌, refl, arith, inl, inr, Bool-cases, ap,
}
use mathlib.Core.Path.{subst}
use cont_ained.Wizard.Slug.{
  is_word, is_dash, dash_runs, strip_first, strip_last, derived_slug, slug_length, all_slug,
  is_valid_slug,
}

and_true : (a b : Bool) → (a && b) ≡ true → (a ≡ true) × (b ≡ true)
and_true a b h = ground arith

-- Words of letters and digits with single dashes between them; the flag says that a word must
-- start here.
unfoldable pub words : Bool → String → Bool
words start String.[] = not start
words start (String.◌∷◌ c s) = elim (is_word c) [
  | true ↦ words false s
  | false ↦ is_dash c && (not start && words true s)
]

-- The text is empty, or words joined by single dashes.
abbrev pub is_slug : String → Bool
is_slug String.[] = true
is_slug (String.◌∷◌ c s) = words true (String.◌∷◌ c s)

-- The text after a character: words that may be followed by one dash.
unfoldable tail_words : Bool → String → Bool
tail_words dashed String.[] = true
tail_words dashed (String.◌∷◌ c s) = elim (is_word c) [
  | true ↦ tail_words false s
  | false ↦ is_dash c && (not dashed && tail_words true s)
]

module _ (c : Char) (s : String) where
  pub words-word : (b : Bool) → is_word c ≡ true → words b (String.◌∷◌ c s) ≡ words false s
  unfolding words
  words-word b w = rw (w, words) refl

  words-other :
      (b : Bool)
      → is_word c ≡ false
      → words b (String.◌∷◌ c s) ≡ (is_dash c && (not b && words true s))
  unfolding words
  words-other b w = rw (w, words) refl

  tail_words-word :
      (b : Bool) → is_word c ≡ true → tail_words b (String.◌∷◌ c s) ≡ tail_words false s
  unfolding tail_words
  tail_words-word b w = rw (w, tail_words) refl

  tail_words-other :
      (b : Bool)
      → is_word c ≡ false
      → tail_words b (String.◌∷◌ c s) ≡ (is_dash c && (not b && tail_words true s))
  unfolding tail_words
  tail_words-other b w = rw (w, tail_words) refl

  pub dash_runs-word :
      (b : Bool)
      → is_word c ≡ true
      → dash_runs b (String.◌∷◌ c s) ≡ String.◌∷◌ c (dash_runs false s)
  unfolding dash_runs
  dash_runs-word b w = rw (w, dash_runs) refl

  dash_runs-run : is_word c ≡ false → dash_runs true (String.◌∷◌ c s) ≡ dash_runs true s
  unfolding dash_runs
  dash_runs-run w = rw (w, dash_runs) refl

  pub dash_runs-dash :
      is_word c ≡ false → dash_runs false (String.◌∷◌ c s) ≡ String.◌∷◌ "-" (dash_runs true s)
  unfolding dash_runs
  dash_runs-dash w = rw (w, dash_runs) refl

pub is_dash_of_word : (c : Char) → is_word c ≡ true → is_dash c ≡ false
unfolding is_word is_dash
is_dash_of_word c h = ground arith

dash_runs-tail : (b : Bool) (s : String) → tail_words b (dash_runs b s) ≡ true
unfolding dash_runs tail_words is_word is_dash
dash_runs-tail b String.[] = refl
dash_runs-tail b (String.◌∷◌ c s) = elim (Bool-cases (is_word c)) [
  | inl w ↦
      rw (dash_runs-word c s b w, tail_words-word c (dash_runs false s) b w)
        (dash_runs-tail false s)
  | inr w ↦ other b w (dash_runs-tail true s)
]
  where
    other :
        (b : Bool)
        → is_word c ≡ false
        → tail_words true (dash_runs true s) ≡ true
        → tail_words b (dash_runs b (String.◌∷◌ c s)) ≡ true
    other true w h = rw (dash_runs-run c s w) h
    other false w h = rw (dash_runs-dash c s w) h

strip_first-tail : (s : String) → tail_words false s ≡ true → tail_words true (strip_first s) ≡ true
unfolding strip_first tail_words
strip_first-tail String.[] h = refl
strip_first-tail (String.◌∷◌ c s) h = elim (Bool-cases (is_word c)) [
  | inl w ↦
      rw (is_dash_of_word c w, tail_words-word c s true w)
        (subst (λ b. b ≡ true) (tail_words-word c s false w) h)
  | inr w ↦ ground (arith, tail_words-other c s false w)
]

pub strip_last-word : (c : Char) → is_word c ≡ true → strip_last (String.◌∷◌ c "") ≡ String.◌∷◌ c ""
unfolding strip_last
strip_last-word c w = rw (is_dash_of_word c w) refl

strip_last-words :
    (b : Bool) (c : Char) (s : String)
    → is_word c ≡ true
    → tail_words false s ≡ true
    → words b (strip_last (String.◌∷◌ c s)) ≡ true
unfolding strip_last words tail_words
strip_last-words b c String.[] w h = rw (strip_last-word c w, words-word c "" b w) refl
strip_last-words b c (String.◌∷◌ d String.[]) w h =
    rw (words-word c (strip_last (String.◌∷◌ d "")) b w) (elim (Bool-cases (is_word d)) [
      | inl v ↦ rw (strip_last-word d v, words-word d "" false v) refl
      | inr v ↦
          dashed v
            (and_true (is_dash d) true (subst (λ b. b ≡ true) (tail_words-other d "" false v) h)).0
    ])
  where
    dashed :
        is_word d ≡ false → is_dash d ≡ true → words false (strip_last (String.◌∷◌ d "")) ≡ true
    dashed v k = rw (k, strip_last) refl
strip_last-words b c (String.◌∷◌ d (String.◌∷◌ e s)) w h =
    rw (words-word c (strip_last (String.◌∷◌ d (String.◌∷◌ e s))) b w)
      (elim (Bool-cases (is_word d)) [
        | inl v ↦
            strip_last-words false d (String.◌∷◌ e s) v
              (subst (λ b. b ≡ true) (tail_words-word d (String.◌∷◌ e s) false v) h)
        | inr v ↦
            next v
              (and_true (is_dash d) (tail_words true (String.◌∷◌ e s))
                (subst (λ b. b ≡ true) (tail_words-other d (String.◌∷◌ e s) false v) h))
              (λ u k. strip_last-words true e s u k)
      ])
  where
    next :
        is_word d ≡ false
        → (is_dash d ≡ true) × (tail_words true (String.◌∷◌ e s) ≡ true)
        → (is_word e ≡ true
            → tail_words false s ≡ true
            → words true (strip_last (String.◌∷◌ e s)) ≡ true)
        → words false (strip_last (String.◌∷◌ d (String.◌∷◌ e s))) ≡ true
    next v (k, t) ih = elim (Bool-cases (is_word e)) [
      | inl u ↦
          rw (words-other d (strip_last (String.◌∷◌ e s)) false v, k)
            (ih u (subst (λ b. b ≡ true) (tail_words-word e s true u) t))
      | inr u ↦ ground (arith, tail_words-other e s true u)
    ]

is_slug_of_words : (s : String) → words true s ≡ true → is_slug s ≡ true
is_slug_of_words String.[] h = refl
is_slug_of_words (String.◌∷◌ c s) h = h

strip_last-is_slug : (s : String) → tail_words true s ≡ true → is_slug (strip_last s) ≡ true
unfolding strip_last
strip_last-is_slug String.[] h = refl
strip_last-is_slug (String.◌∷◌ c s) h = elim (Bool-cases (is_word c)) [
  | inl w ↦
      is_slug_of_words (strip_last (String.◌∷◌ c s))
        (strip_last-words true c s w (subst (λ b. b ≡ true) (tail_words-word c s true w) h))
  | inr w ↦ ground (arith, tail_words-other c s true w)
]

-- Words joined by single dashes, and nothing else.
pub derived_slug-is_slug :
    (to_lower_case : String → String) (name : String)
    → is_slug (derived_slug to_lower_case name) ≡ true
unfolding derived_slug
derived_slug-is_slug to_lower_case name =
    strip_last-is_slug (strip_first (dash_runs false (to_lower_case name))) (
      strip_first-tail (dash_runs false (to_lower_case name))
        (dash_runs-tail false (to_lower_case name)))

-- A word that does not start here has one dash before it.
pub words_after :
    (b : Bool) (c : Char) (s : String)
    → is_word c ≡ false
    → words b (String.◌∷◌ c s) ≡ true
    → (is_dash c ≡ true) × ((b ≡ false) × (words true s ≡ true))
words_after b c s w h = ground (arith, words-other c s b w)

-- A text that starts with a word.
pub first-word : (c : Char) (s : String) → words true (String.◌∷◌ c s) ≡ true → is_word c ≡ true
first-word c s h = elim (Bool-cases (is_word c)) [
  | inl w ↦ w
  | inr w ↦ absurd (ground (arith, words_after true c s w h))
]

words-all_slug : (b : Bool) (s : String) → words b s ≡ true → all_slug s ≡ true
unfolding words all_slug
words-all_slug b String.[] h = refl
words-all_slug b (String.◌∷◌ c s) h = elim (Bool-cases (is_word c)) [
  | inl w ↦ rw w (words-all_slug false s (subst (λ b. b ≡ true) (words-word c s b w) h))
  | inr w ↦ rw (w, (words_after b c s w h).0) (words-all_slug true s (words_after b c s w h).1.1)
]

-- Such a text passes the test for a slug by its length alone.
is_valid_slug-is_slug :
    (s : String)
    → is_slug s ≡ true
    → is_valid_slug s ≡ (leb 2 (slug_length s) && leb (slug_length s) 64)
unfolding is_valid_slug slug_length
is_valid_slug-is_slug String.[] h = refl
is_valid_slug-is_slug (String.◌∷◌ c s) h =
    rw
      (
        first-word c s h,
        words-all_slug false s (subst (λ b. b ≡ true) (words-word c s true (first-word c s h)) h),
      )
      (ground arith)

-- Whatever `toLowerCase` does, the slug derived from a name is empty or words of letters `a` to `z`
-- and digits, joined by single dashes, with no dash at either end, no two in a row and nothing else,
-- and it passes the test for a slug exactly if it has 2 to 64 characters.
pub derived_slug_lem :
    (to_lower_case : String → String) (name : String)
    → let slug : String = derived_slug to_lower_case name in
      (is_slug slug ≡ true)
      × (is_valid_slug slug ≡ (leb 2 (slug_length slug) && leb (slug_length slug) 64))
derived_slug_lem to_lower_case name = (
  derived_slug-is_slug to_lower_case name,
  is_valid_slug-is_slug (derived_slug to_lower_case name) (derived_slug-is_slug to_lower_case name),
)
