-- ===== src/Client/Stored.antt =====
-- The in-memory client (pkg/client/inmemory.go) after any number of changes.
use db2rest_bridge.Base.{
  String, List, [], ◌∷◌, Option, none, str_eq, if◌then◌else◌, ◌≡◌, refl, ap, ◌∙◌,
}
use db2rest_bridge.Client.InMemory.{Store}
use db2rest_bridge.Client.Replay.{
  Change, creation, updating, deletion, apply_change, apply_all, view, change_map, replay, IsSound,
  AreSound, created, updated,
}
use db2rest_bridge.Client.Views.{view-create, view-update, view-deletion}

module _ {T : Type 0} (key_of : T → String) where
  view-apply_change :
      (c : Change T) (s : Store T) (m : String → Option T)
      → ((key : String) → view key_of s key ≡ m key)
      → IsSound key_of c s
      → (key : String) → view key_of (apply_change key_of c s) key ≡ change_map key_of c m key
  unfolding apply_change change_map
  view-apply_change (creation a t) s m same sound key =
      view-create key_of s a t key sound ∙ ap (created key_of key t) (same key)
  view-apply_change (updating k t) s m same sound key =
      view-update key_of s k key t sound
      ∙ ap (λ o. if str_eq k key then updated key_of t o else o) (same key)
  view-apply_change (deletion k) s m same sound key =
      view-deletion key_of s k key ∙ ap (λ o. if str_eq k key then none else o) (same key)

  apply_all-replay :
      (cs : List (Change T)) (s : Store T) (m : String → Option T)
      → ((key : String) → view key_of s key ≡ m key)
      → AreSound key_of cs s
      → (key : String) → view key_of (apply_all key_of cs s) key ≡ replay key_of cs m key
  unfolding apply_all replay
  apply_all-replay [] s m same sound key = same key
  apply_all-replay (c ∷ cs) s m same (h, hs) key =
      apply_all-replay cs (apply_change key_of c s) (change_map key_of c m)
        (view-apply_change c s m same h) hs key

  -- Through any changes of which each creation is at an address that holds no item and each update
  -- leaves the key of the value, the in-memory client implements a map from keys to values: what
  -- Get leads to, for every key, is what the same changes make of a map, where a creation leaves a
  -- key that is there as it was and an update leaves one that is absent.
  pub view-apply_all :
      (cs : List (Change T)) (s : Store T)
      → AreSound key_of cs s
      → (key : String)
      → view key_of (apply_all key_of cs s) key ≡ replay key_of cs (view key_of s) key
  view-apply_all cs s sound = apply_all-replay cs s (view key_of s) (λ key. refl) sound
