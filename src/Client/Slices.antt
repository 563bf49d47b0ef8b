-- ===== src/Client/Slices.antt =====
-- The pages that `ApplyPaging` (pkg/client/filter.go) cuts out.
use db2rest_bridge.Base.{
  ℕ, zero, suc, ◌+◌, ◌≤◌, ◌<◌, min, List, [], ◌∷◌, ◌++◌, true, false, none, some, ◌≡◌, refl, ap,
  ◌∙◌, arith, length, take, drop, length-drop, ltb, Option, sym,
}
use db2rest_bridge.Base.Maybe
use db2rest_bridge.Base.Int.{ℤ, pos, int_of, int_max}
use db2rest_bridge.Client.Paging.{min_int, slice, page_from, apply_paging}

module _ {A : Type 0} where
  take-append : (n : ℕ) (xs ys : List A) → n ≤ length xs → take n (xs ++ ys) ≡ take n xs
  take-append zero xs ys h = refl
  take-append (suc n) [] ys h = absurd (omega arith)
  take-append (suc n) (x ∷ xs) ys h = rw (take-append n xs ys (omega arith))

  drop-append : (n : ℕ) (xs ys : List A) → n ≤ length xs → drop n (xs ++ ys) ≡ drop n xs ++ ys
  drop-append zero xs ys h = refl
  drop-append (suc n) [] ys h = absurd (omega arith)
  drop-append (suc n) (x ∷ xs) ys h = drop-append n xs ys (omega arith)

int_of_small : (n : ℕ) → n < int_max → int_of n ≡ pos n
unfolding int_of
int_of_small n h = ground arith

ltb-false : (a b : ℕ) → b ≤ a → ltb a b ≡ false
ltb-false a b h = ground arith

ltb-true : (a b : ℕ) → a < b → ltb a b ≡ true
ltb-true a b h = ground arith

min_eq : (a b : ℕ) → a ≤ b → min a b ≡ a
min_eq a b h = omega arith

module _ {A : Type 0} (items spare : List A) where
  slice_within :
      (o n : ℕ) → o + n ≤ length items → slice items spare o (pos n) ≡ some (take n (drop o items))
  unfolding slice
  slice_within o n h = rw (ltb-false (length items + length spare) (o + n) (omega arith)) (
      rw (drop-append o items spare (omega arith))
        (rw (take-append n (drop o items) spare (omega (arith, length-drop o items)))))

  page_from_int :
      (o : ℕ) (size : ℤ)
      → o < int_max
      → apply_paging items spare (record { offset = o; size = size })
        ≡ page_from items spare (pos o) size
  unfolding apply_paging
  page_from_int o size h = ap (λ i. page_from items spare i size) (int_of_small o h)

  page_within :
      (o n : ℕ)
      → o + n ≤ length items
      → page_from items spare (pos o) (pos n) ≡ some (take n (drop o items))
  unfolding min_int
  page_within o n h = rw (ltb-false (length items) o (omega arith)) (
      ap (λ m. slice items spare o (pos m)) (min_eq n (o + length items) (omega arith))
      ∙ slice_within o n h)

  -- A page that lies within the items, with an offset below 2^63, is cut out of them, whatever
  -- lies behind them in the array.
  pub apply_paging_within :
      (o n : ℕ)
      → o + n ≤ length items
      → o < int_max
      → apply_paging items spare (record { offset = o; size = pos n })
        ≡ some (take n (drop o items))
  apply_paging_within o n h small = page_from_int o (pos n) small ∙ page_within o n h

module _ {A : Type 0} (items : List A) where
  page_overrun :
      (o n : ℕ)
      → 0 < o
      → o ≤ length items
      → length items < o + n
      → page_from items [] (pos o) (pos n) ≡ none
  unfolding min_int slice
  page_overrun o n first inside beyond =
      rw (ltb-false (length items) o (omega arith))
        (rw (ltb-true (length items + 0) (o + min n (o + length items)) (omega arith)))

  -- A page that starts within the items, behind the first one, and ends behind the last one panics
  -- if the array ends with the items, in place of being shorter.
  pub apply_paging_overrun :
      (o n : ℕ)
      → 0 < o
      → o ≤ length items
      → length items < o + n
      → o < int_max
      → apply_paging items [] (record { offset = o; size = pos n }) ≡ none
  apply_paging_overrun o n first inside beyond small =
      page_from_int items [] o (pos n) small ∙ page_overrun o n first inside beyond

-- Pages of the sizes given, each from where the one before it ends
abbrev pub pages : {A : Type 0} → List A → List A → ℕ → List ℕ → Option (List A)
pages items spare o [] = some []
pages items spare o (n ∷ sizes) =
    Maybe.◌>>=◌ (apply_paging items spare (record { offset = o; size = pos n }))
      λ page. Maybe.◌>>=◌ (pages items spare (o + n) sizes) λ rest. some (page ++ rest)

abbrev sum : List ℕ → ℕ
sum [] = 0
sum (n ∷ ns) = n + sum ns

take-drop_append : {A : Type 0} (n : ℕ) (xs : List A) → take n xs ++ drop n xs ≡ xs
take-drop_append zero xs = refl
take-drop_append (suc n) [] = refl
take-drop_append (suc n) (x ∷ xs) = ap (λ ys. x ∷ ys) (take-drop_append n xs)

take_all : {A : Type 0} (xs : List A) → take (length xs) xs ≡ xs
take_all [] = refl
take_all (x ∷ xs) = ap (λ ys. x ∷ ys) (take_all xs)

drop_all : {A : Type 0} (n : ℕ) (xs : List A) → length xs ≡ n → drop n xs ≡ []
drop_all zero [] h = refl
drop_all zero (x ∷ xs) h = absurd (omega arith)
drop_all (suc n) [] h = refl
drop_all (suc n) (x ∷ xs) h = drop_all n xs (omega arith)

drop-nil : {A : Type 0} (n : ℕ) → drop {A = A} n [] ≡ []
drop-nil zero = refl
drop-nil (suc n) = refl

drop-drop : {A : Type 0} (o n m : ℕ) (xs : List A) → m ≡ o + n → drop m xs ≡ drop n (drop o xs)
drop-drop zero n m xs h = let e : m ≡ n = omega arith in ap (λ k. drop k xs) e
drop-drop (suc o) n zero xs h = absurd (omega arith)
drop-drop (suc o) n (suc m) [] h = sym (drop-nil n)
drop-drop (suc o) n (suc m) (x ∷ xs) h = drop-drop o n m xs (omega arith)

module _ {A : Type 0} (items spare : List A) where
  pages-drop :
      (o : ℕ) (sizes : List ℕ)
      → length items ≡ o + sum sizes
      → length items < int_max
      → pages items spare o sizes ≡ some (drop o items)
  pages-drop o [] h small = ap some (sym (drop_all o items (omega arith)))
  pages-drop o (n ∷ sizes) h small =
      rw (apply_paging_within items spare o n (omega arith) (omega arith)) (
        rw (pages-drop (o + n) sizes (omega arith) small) (
          ap (λ ys. some (take n (drop o items) ++ ys)) (drop-drop o n (o + n) items refl)
          ∙ ap some (take-drop_append n (drop o items))))

  first_page :
      (n : ℕ)
      → length items ≤ n
      → apply_paging items spare (record { offset = 0; size = pos n }) ≡ some items
  unfolding min_int
  first_page n h =
      page_from_int items spare 0 (pos n) (ground arith)
      ∙ rw (ltb-false (length items) 0 (omega arith)) (
          ap (λ m. slice items spare 0 (pos m)) (least n h)
          ∙ slice_within items spare 0 (length items) (omega arith)
          ∙ ap some (take_all items))
    where
      least : (n : ℕ) → length items ≤ n → min n (0 + length items) ≡ length items
      least n h = omega arith

  -- For fewer than 2^63 items, whatever lies behind them in the array: pages of any sizes that add
  -- up to the number of items, each from where the one before it ends, are together the items,
  -- each of them once and in order, and a first page that is at least as large as the items is all
  -- of them.
  pub apply_paging_all :
      (sizes : List ℕ) (n : ℕ)
      → length items ≡ sum sizes
      → length items ≤ n
      → length items < int_max
      → (pages items spare 0 sizes ≡ some items)
        × (apply_paging items spare (record { offset = 0; size = pos n }) ≡ some items)
  apply_paging_all sizes n h large small =
      (pages-drop 0 sizes (omega arith) small, first_page n large)
