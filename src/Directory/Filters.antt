-- ===== src/Directory/Filters.antt =====
-- The filters of HubDirectory.tsx and the address that keeps them.
use cont_ained.Base.{
  suc, ◌+◌, ◌≤◌, String, Bool, true, false, ◌&&◌, ◌||◌, not, List, [], ◌∷◌, ◌++◌, ◌==◌, ◌≡◌, refl,
  sym, arith, filter, length, length-append, ltb, Bool-cases, inl, inr, eq_iff, eq_comm,
}
use mathlib.Core.Path.{subst}
use cont_ained.Routes.{HubType, type_name}
use cont_ained.Directory.{Directory, has_text, toggle_type_filter}

-- No type stands twice.
abbrev pub distinct : List String → Bool
distinct [] = true
distinct (t ∷ types) = not (has_text t types) && distinct types

abbrev without : String → List String → List String
without t types = filter (λ k. not (k == t)) types

-- At least one type is selected, and none twice.
abbrev pub IsFilter : Directory → Type 0
IsFilter d = (1 ≤ length d.selected_types) × (distinct d.selected_types ≡ true)

pub has_text-append :
    (t u : String) (types : List String)
    → has_text t (types ++ u ∷ []) ≡ (has_text t types || (u == t))
has_text-append t u [] = ground arith
has_text-append t u (k ∷ types) = ground (arith, has_text-append t u types)

distinct-append :
    (t : String) (types : List String)
    → has_text t types ≡ false
    → distinct types ≡ true
    → distinct (types ++ t ∷ []) ≡ true
distinct-append t [] h d = refl
distinct-append t (k ∷ types) h d =
    ground (arith, has_text-append k t types, distinct-append t types, eq_comm k t, h, d)

has_text-without :
    (t k : String) (types : List String)
    → has_text k types ≡ false
    → has_text k (without t types) ≡ false
has_text-without t k [] h = refl
has_text-without t k (j ∷ types) h = ground (arith, has_text-without t k types, h)

distinct-without :
    (t : String) (types : List String) → distinct types ≡ true → distinct (without t types) ≡ true
distinct-without t [] d = refl
distinct-without t (k ∷ types) d =
    ground (arith, distinct-without t types, has_text-without t k types, d)

without_absent :
    (t : String) (types : List String) → has_text t types ≡ false → without t types ≡ types
without_absent t [] h = refl
without_absent t (k ∷ types) h = ground (arith, without_absent t types, h)

length-without :
    (t : String) (types : List String)
    → distinct types ≡ true
    → length types ≤ 1 + length (without t types)
length-without t [] d = omega arith
length-without t (k ∷ types) d = elim (Bool-cases (k == t)) [
  | inl same ↦ rw same (
      subst (λ l. suc (length types) ≤ 1 + length l)
        (sym (
          without_absent t types
            (subst (λ x. has_text x types ≡ false) ((eq_iff k t).0 same) (ground (arith, d)))))
        (omega arith))
  | inr other ↦ rw other (ground (arith, length-without t types, d))
]

-- If at least one type is selected and none twice, then that is so after a type is switched.
pub toggle_type_filter-IsFilter :
    (t : HubType) (d : Directory) → IsFilter d → IsFilter (toggle_type_filter t d)
unfolding toggle_type_filter
toggle_type_filter-IsFilter t d h = elim (Bool-cases (has_text (type_name t) d.selected_types)) [
  | inl on ↦ rw on (elim (Bool-cases (ltb 1 (length d.selected_types))) [
    | inl many ↦ rw many (
      ground (arith, length-without (type_name t) d.selected_types h.1, many),
      distinct-without (type_name t) d.selected_types h.1,
    )
    | inr one ↦ rw one h
  ])
  | inr off ↦ rw off (
    omega (arith, length-append d.selected_types (type_name t ∷ [])),
    distinct-append (type_name t) d.selected_types off h.1,
  )
]
