-- ===== src/Base/Texts.antt =====
-- The test of two texts for equality, as lemmas that `rw` takes.
use Prim.Native.String.{String}
use mathlib.Core.Path.{◌≡◌}
use mathlib.Core.Logic.{◌≢◌}
use mathlib.Core.Bool.{true, false}
use mathlib.Core.Option.{Option, none, some}
use native.Mathlib.Omega.{arith}
use text.Mathlib.Text.{◌==◌}
use cont_ained.Base.Tests.{if◌then◌else◌}
use text.Mathlib.TextEquality.{eq_iff}

pub eq-false_of_ne : (s t : String) → s ≢ t → (s == t) ≡ false
eq-false_of_ne s t h = ground (arith, eq_iff s t)

pub eq-true_of_eq : (s t : String) → s ≡ t → (s == t) ≡ true
eq-true_of_eq s t h = (eq_iff s t).1 h

pub eq_comm : (s t : String) → (s == t) ≡ (t == s)
eq_comm s t = ground (arith, eq_iff s t, eq_iff t s)

pub ne_of_eq-false : (s t : String) → (s == t) ≡ false → s ≢ t
ne_of_eq-false s t h = ground (arith, eq_iff s t)

-- `s || d` of the source, where an empty text counts as missing.
abbrev pub or_text : String → String → String
or_text s d = if s == "" then d else s

-- `o || d` on a text that may be missing.
abbrev pub text_or : Option String → String → String
text_or none d = d
text_or (some s) d = or_text s d
