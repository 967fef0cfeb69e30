-- ===== src/Tests/Tables.antt =====
-- A MAP of one bucket with three items, two of which stand under one key.
use ban2fail.Map.Create.{items, verdict, construct-IsValid, clear_and_destroy-empties}
use ban2fail.Map.Insert.{Added, add_key-Added}
use ban2fail.Map.Omit.{rest}
use ban2fail.Map.Remove.{Leaves, remove_item-Leaves, remove_specific_item-Leaves}
use ban2fail.Map.Search.{front, find_items-view}
use ban2fail.Map.View.{IsFresh, IsValid, view}
use ban2fail.Map.Visit.{entries, walk, visit_all_entries-entries, fetch_all_items-entries}
use ban2fail.Map.{
  Key, MapNode, Map, bucket_of, construct, add_key, find_items, remove_item, remove_specific_item,
  visit_all_entries, fetch_all_items, clear_and_destroy,
}
use ban2fail.Prelude.{
  ℕ, zero, suc, ◌+◌, ◌^◌, ◌<◌, ◌≡◌, ◌⊎◌, refl, arith, Bool, true, false, ◌==◌, leb, ltb,
  if◌then◌else◌, map, length, [], ◌∷◌, some, none, ample, u32,
}
use ban2fail.PtrVec.Deque.{first, drop_first}
use ban2fail.PtrVec.Ring
use ban2fail.PtrVec.{PtrVec, loop_fwd}

abbrev node_at : ℕ → MapNode ℕ
node_at zero = record { addr = 100; key = 1 ∷ []; item_ptr = 10 }
node_at (suc zero) = record { addr = 101; key = 2 ∷ []; item_ptr = 20 }
node_at (suc (suc i)) = record { addr = 102; key = 1 ∷ []; item_ptr = 30 }

abbrev nodes : PtrVec (MapNode ℕ)
nodes = record {
  ptr_arr = node_at;
  max_items = 4;
  num_items = 3;
  head = 0;
  tail = 2;
  sort_buf_sz = 0;
}

abbrev table : Map ℕ
table = record { num_buckets = 1; bucket_arr = λ i. nodes }

nodes-IsValid : Ring.IsValid nodes
nodes-IsValid = record {
  roomy = omega arith;
  small = omega arith;
  fits = omega arith;
  head_in = omega arith;
  last = refl;
}

table-IsValid : IsValid table
unfolding loop_fwd bucket_of
table-IsValid = record {
  positive = omega arith;
  buckets = λ i h. nodes-IsValid;
  placed = λ i h. (omega arith, (omega arith, (omega arith, tt)));
  distinct = λ i h. ((omega arith, (omega arith, tt)), ((omega arith, tt), (tt, tt)));
}

table-IsFresh : IsFresh 103 table
unfolding loop_fwd
table-IsFresh i h = (omega arith, (omega arith, (omega arith, tt)))

few : (table.bucket_arr (bucket_of table (1 ∷ []))).num_items < 2 ^ 30
few = omega arith

add_key-Added_example :
    let (r, w) = add_key (ample (node_at 0)) 103 table (1 ∷ []) 40 in
    Added (ample (node_at 0)) 103 table (1 ∷ []) 40 r w
add_key-Added_example =
    add_key-Added (ample (node_at 0)) 103 table (1 ∷ []) 40 table-IsValid table-IsFresh few

find_items-view_example :
    find_items table 2 (1 ∷ [])
    ≡ (if leb (length (view table (1 ∷ []))) 2 then some (view table (1 ∷ [])) else none)
find_items-view_example = find_items-view table 2 (1 ∷ [])

remove_item-Leaves_example :
    let (r, w) = remove_item table (1 ∷ []) in
    (r ≡ front (view table (1 ∷ []))) × Leaves table (1 ∷ []) (rest (view table (1 ∷ []))) w
remove_item-Leaves_example = remove_item-Leaves table (1 ∷ []) table-IsValid

remove_specific_item-Leaves_example :
    let (r, w) = remove_specific_item ◌==◌ table (1 ∷ []) 30 in
    (r ≡ first (λ i. i == 30) (view table (1 ∷ [])))
    × Leaves table (1 ∷ []) (drop_first (λ i. i == 30) (view table (1 ∷ []))) w
remove_specific_item-Leaves_example =
    remove_specific_item-Leaves table (1 ∷ []) table-IsValid ◌==◌ 30

-- A visitor that stops at an item that is larger than its argument.
abbrev larger : ℕ → ℕ → ℕ × ℕ
larger item s = (if ltb s item then 1 else 0, s + item)

visit_all_entries-entries_example :
    visit_all_entries larger table 15 ≡ walk larger (map (λ n. n.item_ptr) (entries table)) (0, 15)
visit_all_entries-entries_example = visit_all_entries-entries larger table 15

fetch_all_items-entries_example : fetch_all_items table ≡ map (λ n. n.item_ptr) (entries table)
fetch_all_items-entries_example = fetch_all_items-entries table

three : length (entries table) < u32
unfolding entries loop_fwd
three = omega arith

construct-IsValid_example :
    ((construct (ample nodes) (ample (node_at 0)) 3 4 ≡ none) × ((true ≡ false) ⊎ (true ≡ false)))
    ⊎ ((m : Map ℕ) × (construct (ample nodes) (ample (node_at 0)) 3 4 ≡ some m)
        × (m.num_buckets ≡ 3)
        × IsValid m
        × ((key : Key) → view m key ≡ []))
construct-IsValid_example =
    construct-IsValid (ample (node_at 0)) 4 (omega arith) (omega arith) (ample nodes) 3
      (omega arith)

abbrev not_20 : ℕ → Bool
not_20 item = if item == 20 then false else true

clear_and_destroy-empties_example :
    let (rtn, gone, w) = clear_and_destroy not_20 table in
    (rtn ≡ verdict not_20 0 (items not_20 (entries table)))
    × (gone ≡ items not_20 (entries table))
    × IsValid w
    × ((key : Key) → view w key ≡ [])
clear_and_destroy-empties_example = clear_and_destroy-empties not_20 table table-IsValid
