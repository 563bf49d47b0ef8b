-- ===== src/Client/Complete.antt =====
-- `LoadAllInBatch` (pkg/client/misc.go) over a client that answers truthfully.
use db2rest_bridge.Base.{
  ℕ, zero, suc, ◌+◌, ◌<◌, ◌≤◌, ◌==◌, ◌%◌, ==_iff, true, false, List, [], some, ◌∷◌, ◌++◌,
  append_assoc, append-nil, Bool-cases, inl, inr, if◌then◌else◌, ◌≡◌, ◌≢◌, refl, sym, ap, ◌∙◌,
  arith, length, take, drop, length-append, length-take, length-drop, Outcome, ok,
}
use db2rest_bridge.Base.Int.{ℤ, pos, uint64, u64_mod}
use db2rest_bridge.Query.Order.{Order}
use db2rest_bridge.Query.Filter.{FilterExpression}
use db2rest_bridge.Query.Data.{
  QryData, Builder, build, set_paging, set_filter, new_builder, order_by,
}
use db2rest_bridge.Client.LoadAll.{is_total, order_all, round_query, load_rounds, load_all_in_batch}

drop-append_exact : {A : Type 0} (xs ys : List A) → drop (length xs) (xs ++ ys) ≡ ys
drop-append_exact [] ys = refl
drop-append_exact (x ∷ xs) ys = drop-append_exact xs ys

take-drop : {A : Type 0} (n : ℕ) (xs : List A) → take n xs ++ drop n xs ≡ xs
take-drop zero xs = refl
take-drop (suc n) [] = refl
take-drop (suc n) (x ∷ xs) = ap (λ ys. x ∷ ys) (take-drop n xs)

length_zero : {A : Type 0} (xs : List A) → length xs ≡ 0 → xs ≡ []
length_zero [] h = refl
length_zero (x ∷ xs) h = absurd (omega (arith, h))

order_all_fields :
    {F : Type 0} (os : List Order) (b : Builder F)
    → ((order_all os b).ords ≡ b.ords ++ os)
      × ((order_all os b).fe ≡ b.fe)
      × ((order_all os b).pg ≡ b.pg)
unfolding order_all order_by
order_all_fields [] b = (sym (append-nil b.ords), refl, refl)
order_all_fields (o ∷ os) b =
    let rest = order_all_fields os (record b { ords = b.ords ++ o ∷ [] }) in
    (rest.0 ∙ append_assoc b.ords (o ∷ []) os, rest.1, rest.2)

mod_small : (o : ℕ) → o < u64_mod → o % u64_mod ≡ o
mod_small o h = ground arith

-- What a round asks for
module _ {F : Type 0} (fe : FilterExpression F) (size : ℤ) (orders : List Order) (o : ℕ) where
  pub query_filter : (round_query fe size orders o).filter ≡ fe
  unfolding round_query build set_paging set_filter new_builder
  query_filter = (order_all_fields orders (set_paging (pos o) size (set_filter fe new_builder))).1

  query_orders : (round_query fe size orders o).orders ≡ orders
  unfolding round_query build set_paging set_filter new_builder
  query_orders = (order_all_fields orders (set_paging (pos o) size (set_filter fe new_builder))).0

  pub query_paging :
      o < u64_mod
      → (round_query fe size orders o).paging ≡ some (record { offset = o; size = size })
  unfolding round_query build set_paging set_filter new_builder uint64
  query_paging h = ap some (
      (order_all_fields orders (set_paging (pos o) size (set_filter fe new_builder))).2
      ∙ ap (λ w. record { offset = w; size = size }) (mod_small o h))

is_equal : {a b : ℕ} → (a == b) ≡ true → a ≡ b
is_equal {a = a} {b = b} h = (==_iff a b).0 h

is_total_self : (n : ℕ) → is_total (0 + n) (pos n) ≡ true
is_total_self n = ground arith

is_other : {a b : ℕ} → (a == b) ≡ false → a ≢ b
is_other {a = a} {b = b} h = ground arith

take_full : {A : Type 0} (n : ℕ) (xs : List A) → length (take n xs) ≡ length xs → take n xs ≡ xs
take_full zero [] h = refl
take_full zero (x ∷ xs) h = absurd (omega arith)
take_full (suc n) [] h = refl
take_full (suc n) (x ∷ xs) h = ap (λ ys. x ∷ ys) (take_full n xs (omega arith))

module _ {A : Type 0} {rows : List A} (n : ℕ) (done rest : List A)
    (whole : done ++ rest ≡ rows) where
  last_page : length done + length (take n rest) ≡ length rows → done ++ take n rest ≡ rows
  last_page h =
      ap (λ xs. done ++ xs)
        (take_full n rest (omega (arith, length-append done rest, ap length whole)))
      ∙ whole

  smaller :
      0 < n → length done + length (take n rest) ≢ length rows → length (drop n rest) < length rest
  smaller h k =
      omega
        (arith, length-append done rest, ap length whole, length-take n rest, length-drop n rest)

  next_page : (done ++ take n rest) ++ drop n rest ≡ rows
  next_page =
      append_assoc done (take n rest) (drop n rest)
      ∙ ap (λ xs. done ++ xs) (take-drop n rest)
      ∙ whole

module _ {F A E S : Type 0} (list : QryData F → S → Outcome E (List A × ℤ) × S) where
  load_step :
      (fe : FilterExpression F) (orders : List Order) (size : ℤ) (fuel loaded : ℕ)
      (done page : List A) (total : ℤ) (s : S)
      → (list (round_query fe size orders loaded) s).0 ≡ ok (page, total)
      → load_rounds list (suc fuel) fe size orders loaded done s ≡ (
          let t = (list (round_query fe size orders loaded) s).1 in
          let now = loaded + length page in
          if is_total now total
          then (ok (done ++ page), t)
          else load_rounds list fuel fe size orders now (done ++ page) t)
  unfolding load_rounds
  load_step fe orders size fuel loaded done page total s h = rw (h, load_rounds)

  module _ (P : S → Type 0) where
    -- In the states of `P`, which listing does not leave, every page of the query that starts at one of the
    -- rows or behind the last one is answered by the rows it names and the number of all rows.
    abbrev pub IsTruthful : FilterExpression F → List Order → List A → ℕ → Type 0
    IsTruthful fe orders rows size =
        (q : QryData F) (s : S) (o : ℕ)
        → P s
        → o ≤ length rows
        → q.filter ≡ fe
        → q.orders ≡ orders
        → q.paging ≡ some (record { offset = o; size = pos size })
        → ((list q s).0 ≡ ok (take size (drop o rows), pos (length rows))) × P (list q s).1

    round_answer :
        (fe : FilterExpression F) (orders : List Order) (rows : List A) (size : ℕ)
        (done rest : List A) (s : S)
        → IsTruthful fe orders rows size
        → length rows < u64_mod
        → done ++ rest ≡ rows
        → P s
        → ((list (round_query fe (pos size) orders (length done)) s).0
            ≡ ok (take size rest, pos (length rows)))
          × P (list (round_query fe (pos size) orders (length done)) s).1
    round_answer fe orders rows size done rest s truthful fits whole good =
        let (answer, kept) =
          truthful _ s (length done) good (omega (arith, length-append done rest, ap length whole))
            (query_filter fe (pos size) orders (length done))
            (query_orders fe (pos size) orders (length done))
            (query_paging fe (pos size) orders (length done)
              (omega (arith, length-append done rest, ap length whole))) in
        (
          answer
              ∙ ap (λ xs. ok (take size xs, pos (length rows)))
                  (ap (drop (length done)) (sym whole) ∙ drop-append_exact done rest),
          kept,
        )

    load_rounds_all :
        (fe : FilterExpression F) (orders : List Order) (rows : List A) (size fuel : ℕ)
        (done rest : List A) (s : S)
        → IsTruthful fe orders rows size
        → length rows < u64_mod
        → 0 < size
        → done ++ rest ≡ rows
        → length rest < fuel
        → P s
        → (load_rounds list fuel fe (pos size) orders (length done) done s).0 ≡ ok rows
    load_rounds_all fe orders rows size (suc fuel) done rest s truthful fits positive whole enough
          good =
        let (answer, kept) =
          round_answer fe orders rows size done rest s truthful fits whole good in
        ap (λ r. r.0) (load_step fe orders (pos size) fuel (length done) done _ _ s answer)
        ∙ elim (Bool-cases (length done + length (take size rest) == length rows)) [
          | inl last ↦ rw last (ap ok (last_page size done rest whole (is_equal last)))
          | inr more ↦
              rw (more, sym (length-append done (take size rest)))
                (load_rounds_all fe orders rows size fuel (done ++ take size rest) (drop size rest)
                  _ truthful fits positive (next_page size done rest whole)
                  (omega (arith, smaller size done rest whole positive (is_other more))) kept)
        ]
    load_rounds_all fe orders rows size zero done rest s truthful fits positive whole enough good =
        absurd (omega arith)

    -- Over a client that answers every page of the query with its rows and the number of all rows,
    -- with fewer than 2^64 rows, a positive batch size and more rounds allowed than there are rows,
    -- the loop ends and has collected all rows, in order.
    pub load_all_in_batch_all :
        (fe : FilterExpression F) (orders : List Order) (rows : List A) (size fuel : ℕ) (s : S)
        → IsTruthful fe orders rows size
        → length rows < u64_mod
        → 0 < size
        → length rows < fuel
        → P s
        → (load_all_in_batch list fuel fe (pos size) orders s).0 ≡ ok rows
    unfolding load_all_in_batch
    load_all_in_batch_all fe orders rows size fuel s truthful fits positive enough good =
        load_rounds_all fe orders rows size fuel [] rows s truthful fits positive refl enough good

  -- A client that gives the number of the rows of the page as the total ends the loop after one page.
  pub load_all_in_batch_first_page :
      (fe : FilterExpression F) (orders : List Order) (page : List A) (size : ℤ) (fuel : ℕ) (s : S)
      → (list (round_query fe size orders 0) s).0 ≡ ok (page, pos (length page))
      → load_all_in_batch list (suc fuel) fe size orders s
        ≡ (ok page, (list (round_query fe size orders 0) s).1)
  unfolding load_all_in_batch
  load_all_in_batch_first_page fe orders page size fuel s h =
      load_step fe orders size fuel 0 [] page _ s h ∙ rw (is_total_self (length page)) refl
