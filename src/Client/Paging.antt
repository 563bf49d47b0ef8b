-- ===== src/Client/Paging.antt =====
-- `ApplyPaging` (pkg/client/filter.go).
use db2rest_bridge.Base.{
  ℕ, ◌+◌, min, List, [], ◌++◌, Option, none, some, length, take, drop, ltb, if◌then◌else◌,
}
use db2rest_bridge.Base.Int.{ℤ, pos, negsuc, int_of}
use db2rest_bridge.Query.Page.{Page}

-- `min` of an `int` and a number
unfoldable pub min_int : ℤ → ℕ → ℤ
min_int (pos n) m = pos (min n m)
min_int (negsuc n) m = negsuc n

-- `items[from : from + size]`: it may reach into `spare`, what the array holds behind the slice, up to
-- its capacity; beyond that, or with a negative size, it panics.
unfoldable pub slice : {A : Type 0} → List A → List A → ℕ → ℤ → Option (List A)
slice items spare from (negsuc n) = none
slice items spare from (pos n) =
    if ltb (length items + length spare) (from + n)
    then none
    else some (take n (drop from (items ++ spare)))

abbrev pub page_from : {A : Type 0} → List A → List A → ℤ → ℤ → Option (List A)
page_from items spare (negsuc n) size = none
page_from items spare (pos offset) size =
    if ltb (length items) offset
    then some []
    else slice items spare offset (min_int size (offset + length items))

unfoldable pub apply_paging : {A : Type 0} → List A → List A → Page → Option (List A)
unfolding slice min_int int_of
apply_paging items spare p = page_from items spare (int_of p.offset) p.size
