-- ===== src/Map/Static.antt =====
-- map.c and map.h: MAP_sinit, which makes a table or empties the one that is there, and MAP_clear.
use ban2fail.Map.Create.{clear_and_destroy-empties}
use ban2fail.Map.View.{IsValid, view}
use ban2fail.Map.{Key, MapNode, Map, construct, clear_and_destroy}
use ban2fail.Prelude.{ℕ, ◌≡◌, true, Option, none, some, [], Memory}
use ban2fail.PtrVec.{PtrVec}

module _ {ℓ} {I : Type ℓ} where
  -- `MAP_clear`: no destructor is called.
  unfoldable pub clear : Map I → Map I
  unfolding clear_and_destroy
  clear m = (clear_and_destroy (λ item. true) m).2

  -- `MAP_sinit`: the result, and the table that is there afterwards
  unfoldable pub sinit :
      Memory (PtrVec (MapNode I)) → Memory (MapNode I) → Option (Map I) → ℕ → ℕ → ℕ × Option (Map I)
  unfolding clear construct
  sinit arrays mem (some m) num_buckets slots_per_bucket = (0, some (clear m))
  sinit arrays mem none num_buckets slots_per_bucket =
      elim (construct arrays mem num_buckets slots_per_bucket) [
        | none ↦ (1, none)
        | some m ↦ (0, some m)
      ]

  -- A table that has been cleared is valid, and has nothing under any key.
  pub clear-IsValid :
      (m : Map I) → IsValid m → IsValid (clear m) × ((k : Key) → view (clear m) k ≡ [])
  unfolding clear
  clear-IsValid m valid =
      let (code, gone, ok, empty) = clear_and_destroy-empties (λ item. true) m valid in (ok, empty)
