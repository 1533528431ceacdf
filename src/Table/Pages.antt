-- ===== src/Table/Pages.antt =====
-- The pages of the table in DataTable.tsx against its data.
use native.Mathlib.Nat.{add-mul, mod-lt, div-add-mod'}
use mathlib.Core.List.{append-nil, append_assoc}
use cont_ained.Base.{
  ℕ, zero, suc, ◌+◌, ◌-◌, ◌*◌, ◌/◌, ◌≤◌, ◌<◌, List, [], ◌∷◌, ◌++◌, ◌≡◌, refl, sym, ap, ◌∙◌, length,
  take, drop, drop-drop, arith, false, eqb, if◌then◌else◌,
}
use cont_ained.Table.{total_pages, paginated_data, previous_page, next_page}

-- The pages reach the end of the data.
total_pages-le : (count size : ℕ) → 0 < size → count ≤ total_pages count size * size
unfolding total_pages
total_pages-le count size h =
    by_zero ((count + (size - 1)) / size)
      (omega (arith, div-add-mod' (count + (size - 1)) size, mod-lt (count + (size - 1)) h))
  where
    by_zero : (q : ℕ) → count ≤ q * size → count ≤ (if eqb q 0 then 1 else q) * size
    by_zero zero le = omega (arith, le)
    by_zero (suc q) le = let nonzero : eqb (suc q) 0 ≡ false = ground arith in rw nonzero le

module _ {ℓ} {A : Type ℓ} where
  -- Pages `i + 1` to `i + n`, one after the other.
  unfoldable pub pages : ℕ → ℕ → ℕ → List A → List A
  pages zero i size xs = []
  pages (suc n) i size xs = paginated_data (i + 1) size xs ++ pages n (i + 1) size xs

  take-drop : (n : ℕ) (xs : List A) → take n xs ++ drop n xs ≡ xs
  take-drop zero xs = refl
  take-drop (suc n) [] = refl
  take-drop (suc n) (x ∷ xs) = ap (λ t. x ∷ t) (take-drop n xs)

  drop-all : (n : ℕ) (xs : List A) → length xs ≤ n → drop n xs ≡ []
  drop-all zero [] h = refl
  drop-all zero (x ∷ xs) h = absurd (omega (arith, h))
  drop-all (suc n) [] h = refl
  drop-all (suc n) (x ∷ xs) h = drop-all n xs (omega (arith, h))

  page-drop :
      (i size : ℕ) (xs : List A)
      → paginated_data (i + 1) size xs ++ drop ((i + 1) * size) xs ≡ drop (i * size) xs
  unfolding paginated_data
  page-drop i size xs =
      let before : i + 1 - 1 ≡ i = omega arith in
      let width : (i + 1) * size - i * size ≡ size = omega (arith, add-mul i 1 size) in
      let step : (i + 1) * size ≡ i * size + size = omega (arith, add-mul i 1 size) in
      rw (before, width)
        (ap (λ t. take size (drop (i * size) xs) ++ t)
            (sym (drop-drop size (i * size) ((i + 1) * size) xs step))
          ∙ take-drop size (drop (i * size) xs))

  pages-drop :
      (n i size : ℕ) (xs : List A)
      → pages n i size xs ++ drop ((i + n) * size) xs ≡ drop (i * size) xs
  unfolding pages
  pages-drop zero i size xs = let same : i + 0 ≡ i = omega arith in rw same refl
  pages-drop (suc n) i size xs =
      let same : i + suc n ≡ i + 1 + n = omega arith in
      rw same (
        append_assoc (paginated_data (i + 1) size xs) (pages n (i + 1) size xs)
          (drop ((i + 1 + n) * size) xs)
        ∙ ap (λ t. paginated_data (i + 1) size xs ++ t) (pages-drop n (i + 1) size xs)
        ∙ page-drop i size xs)

  -- For a page size above 0, the pages from the first to the last, one after the other, are the rows
  -- of the table, each once and in order.
  pub pages-total_pages :
      (size : ℕ) (xs : List A) → 0 < size → pages (total_pages (length xs) size) 0 size xs ≡ xs
  pages-total_pages size xs h =
      sym (append-nil (pages (total_pages (length xs) size) 0 size xs))
      ∙ ap (λ t. pages (total_pages (length xs) size) 0 size xs ++ t)
          (sym (drop-all ((0 + total_pages (length xs) size) * size) xs reached))
      ∙ pages-drop (total_pages (length xs) size) 0 size xs
      ∙ ap (λ i. drop i xs) none_before
    where
      reached : length xs ≤ (0 + total_pages (length xs) size) * size
      reached =
          let same : 0 + total_pages (length xs) size ≡ total_pages (length xs) size =
            omega arith in
          rw same (total_pages-le (length xs) size h)

      none_before : 0 * size ≡ 0
      none_before = omega arith

-- From a page between the first and the last, both buttons lead to a page between the first and
-- the last.
pub next_page-bounds :
    (total p : ℕ)
    → 0 < p
    → p ≤ total
    → (0 < next_page total p)
      × (next_page total p ≤ total)
      × (0 < previous_page p)
      × (previous_page p ≤ total)
unfolding next_page previous_page
next_page-bounds total p h k = (ground arith, ground arith, ground arith, ground arith)
