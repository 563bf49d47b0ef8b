-- ===== src/Crud/Statements.antt =====
-- The texts that the SQL builders of pkg/crud/misc.go write.
use text.Mathlib.TextLemmas.{append-nil as string-append-nil, append_assoc as string-append_assoc}
use db2rest_bridge.Base.{
  ℕ, zero, suc, true, false, ◌+◌, ◌-◌, String, List, [], ◌∷◌, ◌++◌, map, append_assoc, append-nil,
  ◌≡◌, refl, sym, ap, ◌∙◌, arith, ◌<>◌, join, repeat, length, ltb,
}
use db2rest_bridge.Base.Dict.{Dict, keys, sort}
use db2rest_bridge.Crud.Sql.{
  backquoted, assignment, value_of, insert_loop, create_insert_or_replace_query, update_loop,
  create_update_query, create_multi_delete_query,
}

abbrev placeholder : String → String
placeholder col = "?"

-- The separator is written exactly where another column follows.
last_test : (count i : ℕ) → count ≡ i + 1 → ltb i (count - 1) ≡ false
last_test count i h = ground arith

next_test : (count i n : ℕ) → count ≡ i + suc (suc n) → ltb i (count - 1) ≡ true
next_test count i n h = ground arith

module _ {V : Type 0} (nil_value : V) (body : Dict V) where
  insert_loop_lem :
      (count i : ℕ) (cols : List String) (csb vsb : String) (values : List V)
      → count ≡ i + length cols
      → insert_loop nil_value body count i cols csb vsb values ≡ (
        csb <> join "," (map backquoted cols),
        vsb <> join "," (map placeholder cols),
        values ++ map (value_of nil_value body) cols,
      )
  unfolding insert_loop
  insert_loop_lem count i [] csb vsb values h = simp (string-append-nil, append-nil)
  insert_loop_lem count i (col ∷ []) csb vsb values h =
      rw (last_test count i h) (simp (string-append-nil))
  insert_loop_lem count i (col ∷ c ∷ cols) csb vsb values h =
      rw (next_test count i (length cols) h) (
        insert_loop_lem count (i + 1) (c ∷ cols) (csb <> "`" <> col <> "`" <> ",")
          (vsb <> "?" <> ",") (values ++ value_of nil_value body col ∷ []) (omega arith)
        ∙ simp (string-append_assoc, append_assoc))

  update_loop_lem :
      (count i : ℕ) (cols : List String) (sb : String) (values : List V)
      → count ≡ i + length cols
      → update_loop nil_value body count i cols sb values
        ≡ (sb <> join ", " (map assignment cols), values ++ map (value_of nil_value body) cols)
  unfolding update_loop
  update_loop_lem count i [] sb values h = simp (string-append-nil, append-nil)
  update_loop_lem count i (col ∷ []) sb values h =
      rw (last_test count i h) (simp (string-append-nil))
  update_loop_lem count i (col ∷ c ∷ cols) sb values h = rw (next_test count i (length cols) h) (
      update_loop_lem count (i + 1) (c ∷ cols) (sb <> "`" <> col <> "` = ?" <> ", ")
        (values ++ value_of nil_value body col ∷ []) (omega arith)
      ∙ simp (string-append_assoc, append_assoc))

  -- An INSERT or REPLACE statement lists the sorted columns of the body, with as many
  -- placeholders, and its values are those of the columns, in that order.
  pub create_insert_or_replace_query_lem :
      (verb entity : String)
      → let cols = sort (keys body) in
        create_insert_or_replace_query nil_value body verb entity ≡ (
          verb
              <> " INTO `"
              <> entity
              <> "` "
              <> "("
              <> join "," (map backquoted cols)
              <> ")"
              <> " VALUES("
              <> join "," (map placeholder cols)
              <> ")",
          map (value_of nil_value body) cols,
        )
  unfolding create_insert_or_replace_query
  create_insert_or_replace_query_lem verb entity =
      rw
        (insert_loop_lem (length (sort (keys body))) 0 (sort (keys body)) "(" " VALUES(" []
          (omega arith))
        (simp string-append_assoc)

  -- An UPDATE statement assigns each column of the body, in sorted order, its values are those of
  -- the columns, in that order, and its filter on the ID column takes one more.
  pub create_update_query_lem :
      (entity id_column : String)
      → let cols = sort (keys body) in
        create_update_query nil_value body entity id_column ≡ (
          "UPDATE `"
              <> entity
              <> "` SET "
              <> join ", " (map assignment cols)
              <> " "
              <> "WHERE "
              <> "`"
              <> id_column
              <> "`"
              <> " = ?"
              <> " LIMIT 1",
          map (value_of nil_value body) cols,
        )
  unfolding create_update_query
  create_update_query_lem entity id_column =
      rw
        (update_loop_lem (length (sort (keys body))) 0 (sort (keys body))
          ("UPDATE `" <> entity <> "` SET ") [] (omega arith))
        (simp string-append_assoc)

abbrev replicate : ℕ → String → List String
replicate zero s = []
replicate (suc n) s = s ∷ replicate n s

repeat-join : (n : ℕ) → repeat n "?," <> "?" ≡ join "," (replicate (suc n) "?")
repeat-join zero = refl
repeat-join (suc n) =
    string-append_assoc "?," (repeat n "?,") "?"
    ∙ ap (λ s. "?," <> s) (repeat-join n)
    ∙ string-append_assoc "?" "," (join "," (replicate (suc n) "?"))

-- For at least one ID, the statement that deletes several has one placeholder for each.
pub create_multi_delete_query_lem :
    (entity id_column : String) (n : ℕ)
    → create_multi_delete_query entity id_column (suc n)
      ≡ "DELETE FROM `"
        <> entity
        <> "` "
        <> "WHERE "
        <> "`"
        <> id_column
        <> "`"
        <> " IN ("
        <> join "," (replicate (suc n) "?")
        <> ")"
unfolding create_multi_delete_query
create_multi_delete_query_lem entity id_column n =
    let close : repeat n "?," <> "?)" ≡ join "," (replicate (suc n) "?") <> ")" =
      sym (string-append_assoc (repeat n "?,") "?" ")") ∙ ap (λ s. s <> ")") (repeat-join n) in
    let one_less : suc n - 1 ≡ n = omega arith in rw one_less (rw close (simp string-append_assoc))
