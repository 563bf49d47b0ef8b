-- ===== src/Client/Views.antt =====
-- The map of the in-memory client (pkg/client/inmemory.go) after one change.
use db2rest_bridge.Base.{
  ℕ, ◌==◌, ==_iff, String, Bool, true, false, Option, none, some, find, All, if◌then◌else◌, str_eq,
  ◌≡◌, refl, ap, ◌∙◌, ◌≢◌, arith, Bool-cases, inl, inr, subst, sym,
}
use mathlib.Core.Bool.{true≢false}
use text.Mathlib.TextEquality.{eq_iff}
use db2rest_bridge.Client.InMemory.{Store, has_key, create, get, delete, update, set_at}
use db2rest_bridge.Client.Entries.{find-true, get-delete, get-delete_other, get-update}
use db2rest_bridge.Client.Replay.{keyed, value_of, view, created, updated}
use db2rest_bridge.Client.Searches.{
  find-cong, find-All, or_last, find-snoc, option_cases, All-of, All-map,
}

module _ {T : Type 0} (key_of : T → String) (s : Store T) where
  at_new : (a : ℕ) (t : T) → (set_at a t s).heap a ≡ t
  unfolding set_at
  at_new a t = ground arith

  at_old : (a b : ℕ) (t : T) → b ≢ a → (set_at a t s).heap b ≡ s.heap b
  unfolding set_at
  at_old a b t h = ground arith

  items_same : (a : ℕ) (t : T) → (set_at a t s).items ≡ s.items
  unfolding set_at
  items_same a t = refl

  -- What Get leads to, from what it finds
  view_found :
      (key : String) (o : Option ℕ)
      → get (keyed key_of) key s ≡ o
      → view key_of s key ≡ value_of key_of s o
  unfolding view
  view_found key o h = ap (value_of key_of s) h

module _ {T : Type 0} (key_of : T → String) where
  differ : (k key : String) → str_eq k key ≡ false → str_eq key k ≡ false
  differ k key h = elim (Bool-cases (str_eq key k)) [
    | inl same ↦ absurd (true≢false (sym ((eq_iff k key).1 (sym ((eq_iff key k).0 same))) ∙ h))
    | inr other ↦ other
  ]

  other_key :
      (k key : String) (t : T)
      → str_eq k key ≡ false
      → keyed key_of k t ≡ true
      → keyed key_of key t ≡ false
  other_key k key t h at = ap (λ x. str_eq x key) ((eq_iff (key_of t) k).0 at) ∙ h

  module _ (s : Store T) where
    -- A store in which all items have the keys that they had, and some are where they were
    view_kept :
        (key : String) (a : ℕ) (t : T)
        → All (λ b. keyed key_of key ((set_at a t s).heap b) ≡ keyed key_of key (s.heap b)) s.items
        → ((b : ℕ) → get (keyed key_of) key s ≡ some b → b ≢ a)
        → view key_of (set_at a t s) key ≡ view key_of s key
    unfolding view get set_at
    view_kept key a t same away =
        let found : get (keyed key_of) key (set_at a t s) ≡ get (keyed key_of) key s =
          find-cong (has_key (keyed key_of) key (set_at a t s)) (has_key (keyed key_of) key s)
            s.items same in
        elim (option_cases (get (keyed key_of) key s)) [
          | inl miss ↦
              view_found key_of (set_at a t s) key none (found ∙ miss)
              ∙ sym (view_found key_of s key none miss)
          | inr (b, hit) ↦
              view_found key_of (set_at a t s) key (some b) (found ∙ hit)
              ∙ ap some (at_old key_of s a b t (away b hit))
              ∙ sym (view_found key_of s key (some b) hit)
        ]

    view_elsewhere :
        (k key : String) (a : ℕ) (t : T)
        → str_eq k key ≡ false
        → keyed key_of k t ≡ true
        → keyed key_of k (s.heap a) ≡ true
        → view key_of (set_at a t s) key ≡ view key_of s key
    unfolding set_at get
    view_elsewhere k key a t other new old = view_kept key a t (All-of same s.items) λ b hit e.
        true≢false (
          sym (find-true (has_key (keyed key_of) key s) s.items b hit)
          ∙ ap (λ c. keyed key_of key (s.heap c)) e
          ∙ other_key k key (s.heap a) other old)
      where
        same : (b : ℕ) → keyed key_of key ((set_at a t s).heap b) ≡ keyed key_of key (s.heap b)
        same b = elim (Bool-cases (b == a)) [
          | inl here ↦
              ap (λ c. keyed key_of key (if c then t else s.heap b)) here
              ∙ other_key k key t other new
              ∙ sym (other_key k key (s.heap a) other old)
              ∙ ap (λ c. keyed key_of key (s.heap c)) (sym ((==_iff b a).0 here))
          | inr there ↦ ap (λ c. keyed key_of key (if c then t else s.heap b)) there
        ]

    pub view-deletion :
        (k key : String)
        → view key_of (delete (keyed key_of) k s) key
          ≡ (if str_eq k key then none else view key_of s key)
    unfolding view delete
    view-deletion k key = elim (Bool-cases (str_eq k key)) [
      | inl same ↦ rw same (
          subst (λ x. view key_of (delete (keyed key_of) k s) x ≡ none) ((eq_iff k key).0 same)
            (ap (value_of key_of (delete (keyed key_of) k s)) (get-delete (keyed key_of) k s)))
      | inr other ↦ rw other (
          ap (value_of key_of s) (
            get-delete_other (keyed key_of) k key s
              λ t at. other_key key k t (differ k key other) at))
    ]

    update_absent :
        (k : String) (t : T) → get (keyed key_of) k s ≡ none → update (keyed key_of) k t s ≡ s
    unfolding update get
    update_absent k t h = ap (λ o. elim o [ some a ↦ set_at a t s | none ↦ s ]) h

    update_present :
        (k : String) (t : T) (a : ℕ)
        → get (keyed key_of) k s ≡ some a
        → update (keyed key_of) k t s ≡ set_at a t s
    unfolding update get
    update_present k t a h = ap (λ o. elim o [ some b ↦ set_at b t s | none ↦ s ]) h

    view-updating :
        (k : String) (t : T)
        → keyed key_of k t ≡ true
        → view key_of (update (keyed key_of) k t s) k ≡ updated key_of t (view key_of s k)
    view-updating k t keeps = elim (option_cases (get (keyed key_of) k s)) [
      | inl miss ↦
          ap (λ s'. view key_of s' k) (update_absent k t miss)
          ∙ view_found key_of s k none miss
          ∙ sym (ap (updated key_of t) (view_found key_of s k none miss))
      | inr (a, hit) ↦
          let (found, new, items, rest) = get-update (keyed key_of) k t s a hit keeps in
          view_found key_of (update (keyed key_of) k t s) k (some a) found
          ∙ ap some new
          ∙ sym (ap (updated key_of t) (view_found key_of s k (some a) hit))
    ]

    pub view-update :
        (k key : String) (t : T)
        → key_of t ≡ k
        → view key_of (update (keyed key_of) k t s) key
          ≡ (if str_eq k key then updated key_of t (view key_of s key) else view key_of s key)
    unfolding get
    view-update k key t keeps = elim (Bool-cases (str_eq k key)) [
      | inl same ↦ rw same (
          subst
            (λ x. view key_of (update (keyed key_of) k t s) x ≡ updated key_of t (view key_of s x))
            ((eq_iff k key).0 same) (view-updating k t ((eq_iff (key_of t) k).1 keeps)))
      | inr other ↦ rw other (elim (option_cases (get (keyed key_of) k s)) [
        | inl miss ↦ ap (λ s'. view key_of s' key) (update_absent k t miss)
        | inr (a, hit) ↦
            ap (λ s'. view key_of s' key) (update_present k t a hit)
            ∙ view_elsewhere k key a t other ((eq_iff (key_of t) k).1 keeps)
                (find-true (has_key (keyed key_of) k s) s.items a hit)
      ])
    ]

    find_created :
        (a : ℕ) (t : T) (key : String)
        → All (λ b. b ≢ a) s.items
        → get (keyed key_of) key (create a (set_at a t s))
          ≡ or_last (get (keyed key_of) key s) (keyed key_of key t) a
    unfolding get create set_at
    find_created a t key fresh =
        let p = has_key (keyed key_of) key (set_at a t s) in
        find-snoc p s.items a
        ∙ ap (λ o. or_last o (p a) a)
            (find-cong p (has_key (keyed key_of) key s) s.items (
              All-map (λ b other. ap (keyed key_of key) (at_old key_of s a b t other)) s.items
                fresh))
        ∙ ap (λ u. or_last (find (has_key (keyed key_of) key s) s.items) (keyed key_of key u) a)
            (at_new key_of s a t)

    value_if :
        (a : ℕ) (t : T) (b : Bool)
        → value_of key_of (create a (set_at a t s)) (if b then some a else none)
          ≡ (if b then some t else none)
    unfolding create
    value_if a t true = ap some (at_new key_of s a t)
    value_if a t false = refl

    pub view-create :
        (a : ℕ) (t : T) (key : String)
        → All (λ b. b ≢ a) s.items
        → view key_of (create a (set_at a t s)) key ≡ created key_of key t (view key_of s key)
    unfolding create get
    view-create a t key fresh =
        let s' = create a (set_at a t s) in
        let found = find_created a t key fresh in
        elim (option_cases (get (keyed key_of) key s)) [
          | inl miss ↦
              view_found key_of s' key _ (found ∙ ap (λ o. or_last o (keyed key_of key t) a) miss)
              ∙ value_if a t (keyed key_of key t)
              ∙ sym (ap (created key_of key t) (view_found key_of s key none miss))
          | inr (b, hit) ↦
              view_found key_of s' key (some b)
                (found ∙ ap (λ o. or_last o (keyed key_of key t) a) hit)
              ∙ ap some (
                  at_old key_of s a b t
                    (find-All (λ c. c ≢ a) (has_key (keyed key_of) key s) s.items b fresh hit))
              ∙ sym (ap (created key_of key t) (view_found key_of s key (some b) hit))
        ]
