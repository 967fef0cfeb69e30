-- ===== src/PtrVec/Ring.antt =====
-- The ring of ptrvec.c: its invariant, and where the item at a place stands.
use ban2fail.Prelude.{ℕ, ◌+◌, ◌-◌, ◌%◌, ◌^◌, ◌≤◌, ◌<◌, ◌≡◌, ◌⊎◌, arith, add32}
use ban2fail.Prelude.Order.{mod_ring}
use ban2fail.PtrVec.{PtrVec, slot}

-- Half of what an index of 32 bits can count, so that `head + maxItems` does not wrap.
abbrev pub max_slots : ℕ
max_slots = 2 ^ 31

pub record IsValid {ℓ} {A : Type ℓ} (v : PtrVec A) : Type 0 where
  pub roomy : 4 ≤ v.max_items
  pub small : v.max_items ≤ max_slots
  pub fits : v.num_items ≤ v.max_items
  pub head_in : v.head < v.max_items
  pub last : v.tail ≡ (v.head + (v.num_items - 1)) % v.max_items

module _ {ℓ} {A : Type ℓ} {v : PtrVec A} (valid : IsValid v) where
  -- The index of a place: straight on, or round the end once.
  pub slot_place :
      (i : ℕ)
      → i ≤ v.max_items
      → ((v.head + i < v.max_items) × (slot v i ≡ v.head + i))
        ⊎ ((v.max_items ≤ v.head + i) × (slot v i + v.max_items ≡ v.head + i))
  slot_place i h =
      let plain : add32 v.head i ≡ v.head + i = omega arith in
      rw plain (omega (arith, mod_ring (v.head + i) v.max_items))

  pub tail_place :
      ((v.head + (v.num_items - 1) < v.max_items) × (v.tail ≡ v.head + (v.num_items - 1)))
      ⊎ ((v.max_items ≤ v.head + (v.num_items - 1))
          × (v.tail + v.max_items ≡ v.head + (v.num_items - 1)))
  tail_place = omega (arith, mod_ring (v.head + (v.num_items - 1)) v.max_items)
