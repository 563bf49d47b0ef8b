-- ===== src/Client/Searches.antt =====
-- Searches in lists, for the in-memory client (pkg/client/inmemory.go).
use db2rest_bridge.Base.{
  Bool, true, false, List, [], ◌∷◌, ◌++◌, Option, none, some, find, All, if◌then◌else◌, ◌⊎◌, ◌≡◌,
  refl, ap, ◌∙◌, Bool-cases, inl, inr, subst,
}
use db2rest_bridge.Client.Entries.{first_hit, later_hit}

pub find-cong :
    {A : Type 0} (p q : A → Bool) (xs : List A) → All (λ x. p x ≡ q x) xs → find p xs ≡ find q xs
find-cong p q [] h = refl
find-cong p q (x ∷ xs) (h, hs) =
    ap (λ b. if b then some x else find p xs) h
    ∙ ap (λ o. if q x then some x else o) (find-cong p q xs hs)

pub find-All :
    {A : Type 0} (P : A → Type 0) (p : A → Bool) (xs : List A) (a : A)
    → All P xs
    → find p xs ≡ some a
    → P a
find-All P p [] a h e = absurd (cc)
find-All P p (x ∷ xs) a (h, hs) e = elim (Bool-cases (p x)) [
  | inl hit ↦ subst P (first_hit p x xs a hit e) h
  | inr miss ↦ find-All P p xs a hs (later_hit p x xs a miss e)
]

abbrev pub or_last : {A : Type 0} → Option A → Bool → A → Option A
or_last (some x) b y = some x
or_last none b y = if b then some y else none

or_last_if :
    {A : Type 0} (c b : Bool) (x y : A) (o : Option A)
    → (if c then some x else or_last o b y) ≡ or_last (if c then some x else o) b y
or_last_if true b x y o = refl
or_last_if false b x y o = refl

pub find-snoc :
    {A : Type 0} (p : A → Bool) (xs : List A) (y : A)
    → find p (xs ++ y ∷ []) ≡ or_last (find p xs) (p y) y
find-snoc p [] y = refl
find-snoc p (x ∷ xs) y =
    ap (λ o. if p x then some x else o) (find-snoc p xs y) ∙ or_last_if (p x) (p y) x y (find p xs)

pub option_cases : {A : Type 0} (o : Option A) → (o ≡ none) ⊎ ((a : A) × (o ≡ some a))
option_cases none = inl refl
option_cases (some a) = inr (a, refl)

pub All-of : {A : Type 0} {P : A → Type 0} → ((x : A) → P x) → (xs : List A) → All P xs
All-of h [] = tt
All-of h (x ∷ xs) = (h x, All-of h xs)

pub All-map :
    {A : Type 0} {P Q : A → Type 0} → ((x : A) → P x → Q x) → (xs : List A) → All P xs → All Q xs
All-map h [] p = tt
All-map h (x ∷ xs) (p, ps) = (h x p, All-map h xs ps)
