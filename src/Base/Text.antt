-- ===== src/Base/Text.antt =====
-- Texts as the native `String`, with the functions of Go's `strings`, `strconv` and `fmt` that the
-- program calls.
use Prim.Native.Nat.{ℕ, zero, suc, ◌+◌, ◌/◌, ◌%◌}
use Prim.Native.Char.{Char, code}
use Prim.Native.String
use Prim.Native.String.{String}
use mathlib.Core.Path.{◌≡◌, refl}
use mathlib.Core.Bool.{Bool, true, false, ◌&&◌}
use mathlib.Core.Logic.{◌≢◌}
use mathlib.Core.List.{List, [], ◌∷◌, map}
use native.Mathlib.Omega.{arith}
use text.Mathlib.Text
use text.Mathlib.TextLemmas.{nil-append, cons-append}
use text.Mathlib.Text.{is_lt}
use db2rest_bridge.Base.Tests.{ltb, leb, ◌==◌, if◌then◌else◌}

infixr 65 ◌<>◌
abbrev pub ◌<>◌ : String → String → String
s <> t = String.◌++◌ s t

abbrev pub str_eq : String → String → Bool
str_eq s t = Text.◌==◌ s t

-- The order of `slices.Sort` on texts: by bytes.
abbrev pub str_lt : String → String → Bool
str_lt s t = is_lt (String.compare s t)

-- `strings.Join`
abbrev pub join : String → List String → String
join sep [] = ""
join sep (s ∷ []) = s
join sep (s ∷ t ∷ ss) = s <> sep <> join sep (t ∷ ss)

-- `strings.Repeat`, for a count that is not negative
abbrev pub repeat : ℕ → String → String
repeat zero s = ""
repeat (suc n) s = s <> repeat n s

abbrev pub prepend : Char → List String → List String
prepend c [] = []
prepend c (s ∷ ss) = String.◌∷◌ c s ∷ ss

-- `strings.Split` at one ASCII character: always at least one part
unfoldable pub split_on : ℕ → String → List String
split_on sep String.[] = "" ∷ []
split_on sep (String.◌∷◌ c s) =
    let parts = split_on sep s in if code c == sep then "" ∷ parts else prepend c parts

abbrev pub codes : String → List ℕ
codes String.[] = []
codes (String.◌∷◌ c s) = code c ∷ codes s

abbrev lower_code : ℕ → ℕ
lower_code c = if leb b'A' c && leb c b'Z' then c + 32 else c

-- The runes of `strings.ToLower`, over ASCII. (Of the other runes, the Kelvin sign and the dotted I
-- have ASCII letters for lower case, k and i.)
abbrev pub to_lower : String → List ℕ
to_lower s = map lower_code (codes s)

abbrev pub codes_eq : List ℕ → List ℕ → Bool
codes_eq [] [] = true
codes_eq (c ∷ cs) (d ∷ ds) = c == d && codes_eq cs ds
codes_eq _ _ = false

-- The text has no character with this code.
abbrev pub Lacks : ℕ → String → Type 0
Lacks sep String.[] = Unit
Lacks sep (String.◌∷◌ c s) = (code c ≢ sep) × Lacks sep s

-- A part that lacks the separator is split off whole.
pub split_on-append :
    (sep : ℕ) (s : String) (c : Char) (t : String)
    → Lacks sep s
    → code c ≡ sep
    → split_on sep (s <> String.◌∷◌ c t) ≡ s ∷ split_on sep t
unfolding split_on
split_on-append sep String.[] c t h e = rw nil-append (ground arith)
split_on-append sep (String.◌∷◌ d s) c t h e =
    rw cons-append (ground (arith, split_on-append sep s c t h.1 e))

abbrev digit : ℕ → String
digit zero = "0"
digit (suc zero) = "1"
digit (suc (suc zero)) = "2"
digit (suc (suc (suc zero))) = "3"
digit (suc (suc (suc (suc zero)))) = "4"
digit (suc (suc (suc (suc (suc zero))))) = "5"
digit (suc (suc (suc (suc (suc (suc zero)))))) = "6"
digit (suc (suc (suc (suc (suc (suc (suc zero))))))) = "7"
digit (suc (suc (suc (suc (suc (suc (suc (suc zero)))))))) = "8"
digit _ = "9"

digits : ℕ → ℕ → String
digits zero n = ""
digits (suc fuel) n =
    let more = digits fuel (n / 10) <> digit (n % 10) in if ltb n 10 then digit n else more

-- Decimal digits of a number (`%d`, `strconv.FormatUint`): more rounds than digits are given.
unfoldable pub show_nat : ℕ → String
unfolding digits
show_nat n = digits (suc n) n

show_nat_test : show_nat 18_446_744_073_709_551_615 ≡ "18446744073709551615"
unfolding show_nat
show_nat_test = refl
