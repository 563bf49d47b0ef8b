-- ===== src/Client/Decoded.antt =====
-- The decoding of rows (pkg/client/ops.go), and parts of them.
use db2rest_bridge.Base.{
  ℕ, zero, suc, List, [], ◌∷◌, map, ok, ◌≡◌, refl, ap, sym, ◌∙◌, length, take, drop, >>=-eq-ok,
}
use db2rest_bridge.Base.Dict.{Dict}
use db2rest_bridge.Types.Errors.{Go}
use db2rest_bridge.Client.Http.{decode_all}

-- What is decoded of a part of the objects is that part of what is decoded of all.
module _ {T V : Type 0} (dec_fn : Dict V → Go T) (wire : Dict V → Dict V) where
  abbrev read_all : List (Dict V) → Go (List T)
  read_all ds = decode_all dec_fn (map wire ds)

  decoded_cons :
      (d : Dict V) (ds : List (Dict V)) {xs : List T}
      → read_all (d ∷ ds) ≡ ok xs
      → (x : T) × (ys : List T) × (dec_fn (wire d) ≡ ok x) × (read_all ds ≡ ok ys) × (xs ≡ x ∷ ys)
  unfolding decode_all
  decoded_cons d ds h =
      let (x, one, h') = >>=-eq-ok (dec_fn (wire d)) _ h in
      let (ys, more, h'') = >>=-eq-ok (read_all ds) _ h' in (x, ys, one, more, cc)

  decoded_again :
      (d : Dict V) (ds : List (Dict V)) {x : T} {ys : List T}
      → dec_fn (wire d) ≡ ok x
      → read_all ds ≡ ok ys
      → read_all (d ∷ ds) ≡ ok (x ∷ ys)
  unfolding decode_all
  decoded_again d ds one more = rw one (rw more refl)

  decoded_none : {xs : List T} → read_all [] ≡ ok xs → xs ≡ []
  unfolding decode_all
  decoded_none h = cc

  pub length-decoded :
      (ds : List (Dict V)) (xs : List T) → read_all ds ≡ ok xs → length xs ≡ length ds
  length-decoded [] xs h = ap length (decoded_none h)
  length-decoded (d ∷ ds) xs h =
      let (x, ys, one, more, e) = decoded_cons d ds h in
      ap length e ∙ ap suc (length-decoded ds ys more)

  pub decoded-drop :
      (n : ℕ) (ds : List (Dict V)) (xs : List T)
      → read_all ds ≡ ok xs
      → read_all (drop n ds) ≡ ok (drop n xs)
  unfolding decode_all
  decoded-drop zero ds xs h = h
  decoded-drop (suc n) [] xs h = ap (λ ys. ok (drop (suc n) ys)) (sym (decoded_none h))
  decoded-drop (suc n) (d ∷ ds) xs h =
      let (x, ys, one, more, e) = decoded_cons d ds h in
      decoded-drop n ds ys more ∙ ap (λ zs. ok (drop (suc n) zs)) (sym e)

  pub decoded-take :
      (n : ℕ) (ds : List (Dict V)) (xs : List T)
      → read_all ds ≡ ok xs
      → read_all (take n ds) ≡ ok (take n xs)
  unfolding decode_all
  decoded-take zero ds xs h = refl
  decoded-take (suc n) [] xs h = ap (λ ys. ok (take (suc n) ys)) (sym (decoded_none h))
  decoded-take (suc n) (d ∷ ds) xs h =
      let (x, ys, one, more, e) = decoded_cons d ds h in
      decoded_again d (take n ds) one (decoded-take n ds ys more)
      ∙ ap (λ zs. ok (take (suc n) zs)) (sym e)
