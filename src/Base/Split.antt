-- ===== src/Base/Split.antt =====
-- Splitting at a character, and joining.
use Prim.Native.Char.{Char, code}
use Prim.Native.Nat.{ℕ}
use Prim.Native.String.{String}
use mathlib.Core.Path.{◌≡◌, refl, ap, ◌∙◌}
use mathlib.Core.Bool.{Bool, true, false}
use mathlib.Core.Logic.{inl, inr}
use mathlib.Core.List.{List, [], ◌∷◌, ◌++◌}
use native.Mathlib.Omega.{arith}
use text.Mathlib.TextLemmas.{nil-append, cons-append}
use db2rest_bridge.Base.Tests.{◌==◌, Bool-cases, if◌then◌else◌}
use db2rest_bridge.Base.Lists.{All}
use db2rest_bridge.Base.Text.{split_on, split_on-append, join, prepend, Lacks, ◌<>◌}

-- A text that lacks the separator is its only part.
split_on-lacking : (sep : ℕ) (s : String) → Lacks sep s → split_on sep s ≡ s ∷ []
unfolding split_on
split_on-lacking sep String.[] h = refl
split_on-lacking sep (String.◌∷◌ c s) h = ground (arith, split_on-lacking sep s h.1)

slash-append : (t : String) → "/" <> t ≡ String.◌∷◌ "/" t
slash-append t = cons-append "/" "" t ∙ ap (String.◌∷◌ "/") (nil-append t)

-- The parts of a path
pub split_on-join :
    (s : String) (ss : List String)
    → All (Lacks b'/') (s ∷ ss)
    → split_on b'/' (join "/" (s ∷ ss)) ≡ s ∷ ss
split_on-join s [] h = split_on-lacking b'/' s h.0
split_on-join s (t ∷ ss) h =
    ap (λ u. split_on b'/' (s <> u)) (slash-append (join "/" (t ∷ ss)))
    ∙ split_on-append b'/' s "/" (join "/" (t ∷ ss)) h.0 refl
    ∙ ap (λ ps. s ∷ ps) (split_on-join t ss h.1)

-- There is always a first part.
split_on-first :
    (sep : ℕ) (s : String) → (p : String) × (ps : List String) × (split_on sep s ≡ p ∷ ps)
unfolding split_on
split_on-first sep String.[] = ("", [], refl)
split_on-first sep (String.◌∷◌ c s) =
    let (p, ps, e) = split_on-first sep s in
    elim (Bool-cases (code c == sep)) [
      | inl h ↦ ("", split_on sep s, rw h refl)
      | inr h ↦ (String.◌∷◌ c p, ps, rw h (ap (prepend c) e))
    ]

prepend-append :
    (c : Char) (sep : ℕ) (s : String) (ps : List String)
    → prepend c (split_on sep s ++ ps) ≡ prepend c (split_on sep s) ++ ps
prepend-append c sep s ps = let (p, qs, e) = split_on-first sep s in rw e refl

if_append :
    {A : Type 0} (b : Bool) (xs ys zs : List A)
    → (if b then xs ++ zs else ys ++ zs) ≡ (if b then xs else ys) ++ zs
if_append true xs ys zs = refl
if_append false xs ys zs = refl

-- At a separator, a text has the parts of what is before it and those of what is after it.
pub split_on-at :
    (s t : String) → split_on b'/' (s <> "/" <> t) ≡ split_on b'/' s ++ split_on b'/' t
unfolding split_on
split_on-at String.[] t = ap (split_on b'/') (nil-append ("/" <> t) ∙ slash-append t)
split_on-at (String.◌∷◌ c s) t =
    ap (split_on b'/') (cons-append c s ("/" <> t))
    ∙ ap (λ ps. if code c == b'/' then "" ∷ ps else prepend c ps) (split_on-at s t)
    ∙ ap (λ ps. if code c == b'/' then "" ∷ (split_on b'/' s ++ split_on b'/' t) else ps)
        (prepend-append c b'/' s (split_on b'/' t))
    ∙ if_append (code c == b'/') ("" ∷ split_on b'/' s) (prepend c (split_on b'/' s)) _
