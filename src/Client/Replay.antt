-- ===== src/Client/Replay.antt =====
-- The in-memory client (pkg/client/inmemory.go) as a map from keys to values.
use db2rest_bridge.Base.{
  ℕ, String, Bool, List, [], ◌∷◌, Option, none, some, All, if◌then◌else◌, str_eq, ◌≡◌, ◌≢◌,
}
use db2rest_bridge.Client.InMemory.{Store, create, get, delete, update, set_at}

-- A change: an object is allocated at an address and created, or one is updated or deleted by its key.
pub data Change (T : Type 0) : Type 0 where
  creation : ℕ → T → Change T
  updating : String → T → Change T
  deletion : String → Change T

module _ {T : Type 0} (key_of : T → String) where
  abbrev pub keyed : String → T → Bool
  keyed key t = str_eq (key_of t) key

  -- The changes, on the store
  unfoldable pub apply_change : Change T → Store T → Store T
  unfolding set_at create update delete
  apply_change (creation a t) s = create a (set_at a t s)
  apply_change (updating key t) s = update keyed key t s
  apply_change (deletion key) s = delete keyed key s

  unfoldable pub apply_all : List (Change T) → Store T → Store T
  unfolding apply_change
  apply_all [] s = s
  apply_all (c ∷ cs) s = apply_all cs (apply_change c s)

  -- What Get leads to, for every key
  abbrev pub value_of : Store T → Option ℕ → Option T
  value_of s none = none
  value_of s (some a) = some (s.heap a)

  unfoldable pub view : Store T → String → Option T
  unfolding get
  view s key = value_of s (get keyed key s)

  -- The changes, on a map: a key that is there keeps its value at a creation, and one that is not there
  -- gets none at an update.
  abbrev pub created : String → T → Option T → Option T
  created key t (some u) = some u
  created key t none = if keyed key t then some t else none

  abbrev pub updated : T → Option T → Option T
  updated t none = none
  updated t (some u) = some t

  unfoldable pub change_map : Change T → (String → Option T) → String → Option T
  change_map (creation a t) m key = created key t (m key)
  change_map (updating k t) m key = if str_eq k key then updated t (m key) else m key
  change_map (deletion k) m key = if str_eq k key then none else m key

  unfoldable pub replay : List (Change T) → (String → Option T) → String → Option T
  unfolding change_map
  replay [] m = m
  replay (c ∷ cs) m = replay cs (change_map c m)

  -- A new address holds no item yet, and an update leaves the key.
  abbrev pub IsSound : Change T → Store T → Type 0
  IsSound (creation a t) s = All (λ b. b ≢ a) s.items
  IsSound (updating key t) s = key_of t ≡ key
  IsSound (deletion key) s = Unit

  abbrev pub AreSound : List (Change T) → Store T → Type 0
  AreSound [] s = Unit
  AreSound (c ∷ cs) s = IsSound c s × AreSound cs (apply_change c s)
