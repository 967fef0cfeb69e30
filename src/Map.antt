-- ===== src/Map.antt =====
-- map.c and map.h: a hash table from byte strings to pointers, whose buckets are PTRVECs of nodes.
-- Several items may stand under one key. A node is what `malloc` gave for it: it carries its
-- address, by which PTRVEC_remove finds it, its key (`len` is the length of the list) and the item.
pub mod Keys
pub mod View
pub mod Insert
pub mod Search
pub mod Omit
pub mod Remove
pub mod Visit
pub mod Create
pub mod AsStrMap
pub mod Entries
pub mod Static
use Prim.Native.Nat.{bit_xor}
use ban2fail.Prelude.{
  ℕ, zero, suc, ◌+◌, ◌-◌, ◌*◌, ◌/◌, ◌%◌, ◌^◌, Bool, true, false, not, ◌&&◌, Option, none, some,
  List, [], ◌∷◌, ◌++◌, ◌==◌, if◌then◌else◌, length, store, Memory, u32, add32,
}
use ban2fail.PtrVec
use ban2fail.PtrVec.{PtrVec, loop_fwd}

-- A byte string, as the caller's pointer and length give it.
abbrev pub Key : Type 0
Key = List ℕ

-- `struct MAP_node`
pub record MapNode {ℓ} (I : Type ℓ) : Type ℓ where
  pub addr : ℕ
  pub key : Key
  pub item_ptr : I

-- `MAP`
pub record Map {ℓ} (I : Type ℓ) : Type ℓ where
  pub num_buckets : ℕ
  pub bucket_arr : ℕ → PtrVec (MapNode I)

-- The loop of `hash`, then the last three steps.
unfoldable pub hash_loop : ℕ → Key → ℕ
hash_loop h [] = h
hash_loop h (k ∷ ks) =
    let a = add32 h k in let b = add32 a (a * 2 ^ 10 % u32) in hash_loop (bit_xor b (b / 2 ^ 6)) ks

unfoldable pub hash : Key → ℕ
unfolding hash_loop
hash key =
    let h = hash_loop 0 key in
    let a = add32 h (h * 2 ^ 3 % u32) in
    let b = bit_xor a (a / 2 ^ 11) in add32 b (b * 2 ^ 15 % u32)

-- `!memcmp` of two strings of one length
unfoldable pub same_bytes : Key → Key → Bool
same_bytes [] [] = true
same_bytes (a ∷ s) (b ∷ t) = a == b && same_bytes s t
same_bytes _ _ = false

module _ {ℓ} {I : Type ℓ} where
  -- The test that a node has the key.
  abbrev pub has_key : Key → MapNode I → Bool
  has_key key n = length key == length n.key && same_bytes n.key key

  -- Nodes are compared by address.
  abbrev pub same_node : MapNode I → MapNode I → Bool
  same_node a b = a.addr == b.addr

  unfoldable pub bucket_of : Map I → Key → ℕ
  bucket_of m key = hash key % m.num_buckets

  -- The loop that constructs the buckets from index `i` on, `n` of them.
  unfoldable pub construct_buckets :
      Memory (MapNode I) → ℕ → ℕ → ℕ → (ℕ → PtrVec (MapNode I)) → Option (ℕ → PtrVec (MapNode I))
  construct_buckets mem slots zero i arr = some arr
  construct_buckets mem slots (suc n) i arr = elim (PtrVec.construct mem slots) [
    | none ↦ none
    | some v ↦ construct_buckets mem slots n (i + 1) (store arr i v)
  ]

  -- A PTRVEC has 40 bytes.
  unfoldable pub construct :
      Memory (PtrVec (MapNode I)) → Memory (MapNode I) → ℕ → ℕ → Option (Map I)
  unfolding construct_buckets
  construct arrays mem num_buckets slots_per_bucket =
      if arrays.grants (num_buckets * 40)
      then elim (construct_buckets mem slots_per_bucket num_buckets 0 arrays.fresh) [
        | none ↦ none
        | some arr ↦ some (record { num_buckets = num_buckets; bucket_arr = arr })
      ]
      else none

  abbrev pub bucket : Map I → Key → PtrVec (MapNode I)
  bucket m key = m.bucket_arr (bucket_of m key)

  abbrev pub put_bucket : Map I → Key → PtrVec (MapNode I) → Map I
  put_bucket m key v = record m { bucket_arr = store m.bucket_arr (bucket_of m key) v }

  -- Returns 0, or 1 for failure. A node has 16 bytes before the key; `addr` is where it is put.
  unfoldable pub add_key : Memory (MapNode I) → ℕ → Map I → Key → I → ℕ × Map I
  add_key mem addr m key item =
      let n : MapNode I = record { addr = addr; key = key; item_ptr = item } in
      let (r, v) = PtrVec.add_tail mem (bucket m key) n in
      if not (mem.grants (16 + length key))
      then (1, m)
      else elim r [ none ↦ (1, put_bucket m key v) | some _ ↦ (0, put_bucket m key v) ]

  -- The loop of `MAP_findItems`: `none` for -1, else what `rtnArr` holds; `room` is left in it.
  unfoldable pub find_items_from : Key → ℕ → List (MapNode I) → Option (List I)
  find_items_from key room [] = some []
  find_items_from key room (n ∷ ns) =
      let rest = find_items_from key (room - 1) ns in
      let skip = find_items_from key room ns in
      if has_key key n
      then if room == 0
        then none
        else elim rest [ none ↦ none | some found ↦ some (n.item_ptr ∷ found) ]
      else skip

  unfoldable pub find_items : Map I → ℕ → Key → Option (List I)
  unfolding find_items_from
  find_items m rtn_arr_size key = find_items_from key rtn_arr_size (loop_fwd (bucket m key))

  -- The loop of `_MAP_findNode`.
  unfoldable pub find_node_from : Key → List (MapNode I) → Option (MapNode I)
  find_node_from key [] = none
  find_node_from key (n ∷ ns) = if has_key key n then some n else find_node_from key ns

  unfoldable pub find_node : Map I → Key → Option (MapNode I)
  unfolding find_node_from
  find_node m key = find_node_from key (loop_fwd (bucket m key))

  unfoldable pub find_item : Map I → Key → Option I
  unfolding find_node
  find_item m key = elim (find_node m key) [ none ↦ none | some n ↦ some n.item_ptr ]

  unfoldable pub remove_node : Map I → Key → MapNode I → Map I
  remove_node m key n = put_bucket m key (PtrVec.remove same_node (bucket m key) n).1

  unfoldable pub remove_item : Map I → Key → Option I × Map I
  unfolding find_node remove_node
  remove_item m key = elim (find_node m key) [
    | none ↦ (none, m)
    | some n ↦ (some n.item_ptr, remove_node m key n)
  ]

  -- The search of `MAP_removeSpecificItem`; items are compared by `same_item`.
  unfoldable pub find_specific : (I → I → Bool) → Key → I → List (MapNode I) → Option (MapNode I)
  find_specific same_item key item [] = none
  find_specific same_item key item (n ∷ ns) =
      if has_key key n && same_item n.item_ptr item
      then some n
      else find_specific same_item key item ns

  unfoldable pub remove_specific_item : (I → I → Bool) → Map I → Key → I → Option I × Map I
  unfolding find_specific remove_node
  remove_specific_item same_item m key item =
      elim (find_specific same_item key item (loop_fwd (bucket m key))) [
        | none ↦ (none, m)
        | some n ↦ (some n.item_ptr, remove_node m key n)
      ]

  -- The inner and the outer loop of `MAP_visitAllEntries`; `func` works on the caller's data.
  module _ {κ} {S : Type κ} (func : I → S → ℕ × S) where
    unfoldable pub visit_nodes : List (MapNode I) → S → ℕ × S
    visit_nodes [] s = (0, s)
    visit_nodes (n ∷ ns) s =
        let (rc, s') = func n.item_ptr s in
        let rest = visit_nodes ns s' in if rc == 0 then rest else (rc, s')

    unfoldable pub visit_buckets : Map I → ℕ → ℕ → S → ℕ × S
    unfolding visit_nodes
    visit_buckets m zero ndx s = (0, s)
    visit_buckets m (suc n) ndx s =
        let (rc, s') = visit_nodes (loop_fwd (m.bucket_arr ndx)) s in
        let rest = visit_buckets m n (ndx + 1) s' in if rc == 0 then rest else (rc, s')

    unfoldable pub visit_all_entries : Map I → S → ℕ × S
    unfolding visit_buckets
    visit_all_entries m s = visit_buckets m m.num_buckets 0 s

  -- The loop of `MAP_numItems`.
  unfoldable pub num_items_from : Map I → ℕ → ℕ → ℕ → ℕ
  num_items_from m zero ndx sum = sum
  num_items_from m (suc n) ndx sum =
      num_items_from m n (ndx + 1) (add32 sum (m.bucket_arr ndx).num_items)

  unfoldable pub num_items : Map I → ℕ
  unfolding num_items_from
  num_items m = num_items_from m m.num_buckets 0 0

  -- `load_arr` writes the item at the pointer and moves it on: the array so far is the state.
  unfoldable pub load_arr : I → List I → ℕ × List I
  load_arr item arr = (0, arr ++ (item ∷ []))

  unfoldable pub fetch_all_items : Map I → List I
  unfolding visit_all_entries load_arr
  fetch_all_items m = (visit_all_entries load_arr m []).1

  -- The inner loop of `MAP_clearAndDestroy`, with the items that it has handed to the destructor;
  -- `fuel` bounds the rounds. `destructor` says whether it succeeds.
  unfoldable pub drain :
      (I → Bool) → ℕ → PtrVec (MapNode I) → ℕ → List I → ℕ × List I × PtrVec (MapNode I)
  drain destructor zero v rtn gone = (rtn, gone, v)
  drain destructor (suc fuel) v rtn gone =
      let (r, w) = PtrVec.rem_head v in
      elim r [
        | none ↦ (rtn, gone, w)
        | some n ↦
            drain destructor fuel w (if destructor n.item_ptr then rtn else 1)
              (gone ++ (n.item_ptr ∷ []))
      ]

  -- The outer loop, from bucket `ndx` on.
  unfoldable pub clear_buckets : (I → Bool) → ℕ → ℕ → Map I → ℕ → List I → ℕ × List I × Map I
  unfolding drain
  clear_buckets destructor zero ndx m rtn gone = (rtn, gone, m)
  clear_buckets destructor (suc n) ndx m rtn gone =
      let v = m.bucket_arr ndx in
      let (rtn', gone', w) = drain destructor (v.num_items + 1) v rtn gone in
      clear_buckets destructor n (ndx + 1) (record m { bucket_arr = store m.bucket_arr ndx w }) rtn'
        gone'

  unfoldable pub clear_and_destroy : (I → Bool) → Map I → ℕ × List I × Map I
  unfolding clear_buckets
  clear_and_destroy destructor m = clear_buckets destructor m.num_buckets 0 m 0 []
