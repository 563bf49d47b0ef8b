-- ===== src/Client/Entries.antt =====
-- What the in-memory client (pkg/client/inmemory.go) finds after a change.
use db2rest_bridge.Base.{
  ℕ, ◌==◌, String, Bool, true, false, not, List, [], ◌∷◌, ◌++◌, none, some, find, keep,
  if◌then◌else◌, ◌≡◌, refl, ap, ◌∙◌, ◌≢◌, arith, Bool-cases, inl, inr, subst, sym,
}
use mathlib.Core.Bool.{true≢false}
use db2rest_bridge.Client.InMemory.{Store, has_key, create, get, delete, update, set_at}

find-keep-none :
    {A : Type 0} (p : A → Bool) (xs : List A) → find p (keep (λ x. not (p x)) xs) ≡ none
find-keep-none p [] = refl
find-keep-none p (x ∷ xs) = ground (arith, find-keep-none p xs)

find-append :
    {A : Type 0} (p : A → Bool) (xs : List A) (y : A)
    → find p xs ≡ none
    → p y ≡ true
    → find p (xs ++ y ∷ []) ≡ some y
find-append p [] y h k = rw k
find-append p (x ∷ xs) y h k = ground (arith, find-append p xs y)

find-keep :
    {A : Type 0} (p q : A → Bool) (xs : List A)
    → ((x : A) → p x ≡ true → q x ≡ true)
    → find p (keep q xs) ≡ find p xs
find-keep p q [] h = refl
find-keep p q (x ∷ xs) h = elim (Bool-cases (p x)) [
  | inl hit ↦ rw (h x hit) (rw hit)
  | inr miss ↦ ground (arith, find-keep p q xs h)
]

pub first_hit :
    {A : Type 0} (p : A → Bool) (x : A) (xs : List A) (a : A)
    → p x ≡ true
    → find p (x ∷ xs) ≡ some a
    → x ≡ a
first_hit p x xs a hit h =
    let e : some x ≡ some a = sym (ap (λ b. if b then some x else find p xs) hit) ∙ h in cc

pub later_hit :
    {A : Type 0} (p : A → Bool) (x : A) (xs : List A) (a : A)
    → p x ≡ false
    → find p (x ∷ xs) ≡ some a
    → find p xs ≡ some a
later_hit p x xs a miss h = sym (ap (λ b. if b then some x else find p xs) miss) ∙ h

pub find-true : {A : Type 0} (p : A → Bool) (xs : List A) (a : A) → find p xs ≡ some a → p a ≡ true
find-true p [] a h = cc
find-true p (x ∷ xs) a h = elim (Bool-cases (p x)) [
  | inl hit ↦ subst (λ y. p y ≡ true) (first_hit p x xs a hit h) hit
  | inr miss ↦ find-true p xs a (later_hit p x xs a miss h)
]

hit_other :
    {A : Type 0} (p : A → Bool) (x : A) (xs : List A) (a : A)
    → p x ≡ false
    → find p xs ≡ some a
    → x ≢ a
hit_other p x xs a miss h e = true≢false (sym (find-true p xs a h) ∙ sym (ap p e) ∙ miss)

-- The first hit stays the first one if nothing before it starts to hit.
find_changed :
    {A : Type 0} (p q : A → Bool) (xs : List A) (a : A)
    → find p xs ≡ some a
    → q a ≡ true
    → ((x : A) → p x ≡ false → x ≢ a → q x ≡ false)
    → find q xs ≡ some a
find_changed p q (x ∷ xs) a h k same = elim (Bool-cases (p x)) [
  | inl hit ↦ let e : x ≡ a = first_hit p x xs a hit h in rw (ap q e ∙ k) (ap some e)
  | inr miss ↦
      let rest : find p xs ≡ some a = later_hit p x xs a miss h in
      let other : x ≢ a = hit_other p x xs a miss rest in
      rw (same x miss other) (find_changed p q xs a rest k same)
]
find_changed p q [] a h k same = cc

module _ {T : Type 0} (is_key : String → T → Bool) where
  -- `a` is still the first item with the key, holds the new value, and nothing else has changed.
  abbrev IsUpdated : String → T → Store T → ℕ → Store T → Type 0
  IsUpdated key t s a s' =
      (get is_key key s' ≡ some a)
      × (s'.heap a ≡ t)
      × (s'.items ≡ s.items)
      × ((b : ℕ) → b ≢ a → s'.heap b ≡ s.heap b)

  set_at-IsUpdated :
      (key : String) (t : T) (s : Store T) (a : ℕ)
      → get is_key key s ≡ some a
      → is_key key t ≡ true
      → IsUpdated key t s a (set_at a t s)
  unfolding get set_at
  set_at-IsUpdated key t s a h k = (
    find_changed (has_key is_key key s) _ s.items a h (ap (is_key key) here ∙ k)
        λ b miss other. ap (is_key key) (there b other) ∙ miss,
    here,
    refl,
    there,
  )
    where
      here : (if a == a then t else s.heap a) ≡ t
      here = ground arith

      there : (b : ℕ) → b ≢ a → (if b == a then t else s.heap b) ≡ s.heap b
      there b other = ground arith

  -- After a deletion of a key, Get finds nothing under it.
  pub get-delete : (key : String) (s : Store T) → get is_key key (delete is_key key s) ≡ none
  unfolding get delete
  get-delete key s = find-keep-none (has_key is_key key s) s.items

  -- A deletion leaves what Get finds under another key, if no item has both keys.
  pub get-delete_other :
      (key other : String) (s : Store T)
      → ((t : T) → is_key other t ≡ true → is_key key t ≡ false)
      → get is_key other (delete is_key key s) ≡ get is_key other s
  unfolding get delete
  get-delete_other key other s h =
      find-keep _ (λ a. not (has_key is_key key s a)) s.items λ a k. ap not (h (s.heap a) k)

  -- After the creation of an item with a key that was absent, Get finds that item under it.
  get-create :
      (key : String) (a : ℕ) (s : Store T)
      → get is_key key s ≡ none
      → is_key key (s.heap a) ≡ true
      → get is_key key (create a s) ≡ some a
  unfolding get create
  get-create key a s h k = find-append (has_key is_key key s) s.items a h k

  -- After an update of a key that is present to a value with that key, Get finds the same item, it
  -- holds the new value, and no other item has changed.
  pub get-update :
      (key : String) (t : T) (s : Store T) (a : ℕ)
      → get is_key key s ≡ some a
      → is_key key t ≡ true
      → IsUpdated key t s a (update is_key key t s)
  unfolding get update
  get-update key t s a h k =
      let e : update is_key key t s ≡ set_at a t s =
        ap (λ o. elim o [ some b ↦ set_at b t s | none ↦ s ]) h in
      subst (IsUpdated key t s a) (sym e) (set_at-IsUpdated key t s a h k)
