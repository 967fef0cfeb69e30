-- ===== src/Map/AsStrMap.antt =====
-- The tables of map.c, with memory for all that is asked of it, are what the other parts ask of a MAP.
use ban2fail.Map.Create.{construct-IsEmpty, IsEmpty, all_empty-IsValid, all_empty-view}
use ban2fail.Map.Entries.{
  pair, find_item-assoc, put_bucket-entries, bucket-entries, entries-empty, length-put_bucket,
  length-pairs, All-pairs, All-nodes,
}
use ban2fail.Map.Visit.{entries}
use ban2fail.Map.Insert.{add_key-Added}
use ban2fail.Map.Keys.{key_eq}
use ban2fail.Map.Search.{front, find_item-view}
use ban2fail.Map.View.{IsFresh, IsValid, view, bucket_of-lt, bucket-put_bucket}
use ban2fail.Map.{Key, MapNode, Map, bucket_of, bucket, put_bucket, construct, add_key, find_item}
use ban2fail.Prelude.{
  ℕ, suc, ◌+◌, ◌^◌, ◌≤◌, ◌<◌, ◌≡◌, ◌∙◌, ap, subst, sym, refl, arith, inl, inr, true, false,
  Bool-cases, if◌then◌else◌, length, length-append, List, [], ◌∷◌, ◌++◌, Option, none, some, All,
  All-append, All-map, map, Memory, ample,
}
use ban2fail.PtrVec
use ban2fail.PtrVec.Ends.{max_count, length-loop_fwd, add_tail-refines}
use ban2fail.PtrVec.{PtrVec, loop_fwd}
use ban2fail.StrMap.{StrMap, or_else}

-- A table and the address of the next node.
pub record Table (I : Type 0) : Type 0 where
  pub table : Map I
  pub next : ℕ

module _ {I : Type 0} (item : I) where
  abbrev blank_node : MapNode I
  blank_node = record { addr = 0; key = []; item_ptr = item }

  abbrev mem : Memory (MapNode I)
  mem = ample blank_node

  abbrev arrays : Memory (PtrVec (MapNode I))
  arrays = ample (record {
    ptr_arr = λ i. blank_node;
    max_items = 4;
    num_items = 0;
    head = 0;
    tail = 0;
    sort_buf_sz = 0;
  })

  -- With the sizes that main gives: `N_ADDRESSES_HINT/BUCKET_DEPTH_HINT`, `BUCKET_DEPTH_HINT`.
  unfoldable made : Option (Map I)
  made = construct arrays mem 1000 10

  abbrev table_of : Option (Map I) → Map I
  table_of none = record { num_buckets = 0; bucket_arr = arrays.fresh }
  table_of (some m) = m

  abbrev fresh : Table I
  fresh = record { table = table_of made; next = 0 }

  abbrev find : Table I → Key → Option I
  find t key = find_item t.table key

  abbrev add : Table I → Key → I → Table I
  add t key x = record { table = (add_key mem t.next t.table key x).1; next = t.next + 1 }

  record Fits (n : ℕ) (t : Table I) : Type 0 where
    valid : IsValid t.table
    below :
        (i : ℕ)
        → i < t.table.num_buckets
        → All (λ o. o.addr < t.next) (loop_fwd (t.table.bucket_arr i))
    room :
        (i : ℕ) → i < t.table.num_buckets → length (loop_fwd (t.table.bucket_arr i)) + n ≤ max_count

  fresh-made :
      (made ≡ some fresh.table)
      × (fresh.table.num_buckets ≡ 1000)
      × ((i : ℕ) → i < 1000 → IsEmpty (fresh.table.bucket_arr i))
  unfolding made
  fresh-made =
      let (m, e, n, k) =
        construct-IsEmpty mem 10 (omega arith) (omega arith) arrays 1000 refl refl in
      rw e (refl, n, k)

  Fits-fresh : (n : ℕ) → n ≤ 2 ^ 30 → Fits n fresh
  Fits-fresh n h =
      let (e, count, k) = fresh-made in
      record {
        valid = all_empty-IsValid fresh.table (omega arith) (λ i l. k i (omega arith));
        below = λ i l. rw (k i (omega arith)).1 tt;
        room = λ i l. rw (k i (omega arith)).1 (omega arith);
      }

  find_fresh : (key : Key) → find fresh key ≡ none
  find_fresh key =
      let (e, count, k) = fresh-made in
      find_item-view fresh.table key
      ∙ ap front (all_empty-view fresh.table (omega arith) (λ i l. k i (omega arith)) key)

  entries_fresh : map pair (entries fresh.table) ≡ []
  entries_fresh =
      let (e, count, k) = fresh-made in
      ap (map pair) (entries-empty fresh.table (λ i l. (k i (omega arith)).1))

  module _ {n : ℕ} {t : Table I} (fits : Fits (suc n) t) (key : Key) (x : I) where
    few : (bucket t.table key).num_items < max_count
    few = omega (
      arith,
      fits.room (bucket_of t.table key) (bucket_of-lt t.table key fits.valid.positive),
      length-loop_fwd (bucket t.table key),
    )

    IsFresh-addr : IsFresh t.next t.table
    IsFresh-addr i l =
        All-map _ _ (loop_fwd (t.table.bucket_arr i)) (λ o h e. omega arith) (fits.below i l)

    abbrev node : MapNode I
    node = record { addr = t.next; key = key; item_ptr = x }

    -- The bucket of the key has grown by the node.
    shape :
        (v : PtrVec (MapNode I)) × (add_key mem t.next t.table key x
          ≡ (0, put_bucket t.table key v))
        × (loop_fwd v ≡ loop_fwd (bucket t.table key) ++ (node ∷ []))
    unfolding add_key
    shape =
        elim (add_tail-refines mem
          (fits.valid.buckets (bucket_of t.table key)
            (bucket_of-lt t.table key fits.valid.positive))
          few node) [
            | inl (r, same, full, refused) ↦ let no : true ≡ false = refused in absurd cc
            | inr (r, ok, items) ↦
                rw r ((PtrVec.add_tail mem (bucket t.table key) node).1, refl, items)
          ]

    IsValid-add : IsValid (add t key x).table
    IsValid-add = (add_key-Added mem t.next t.table key x fits.valid IsFresh-addr few).0

    raised :
        (i : ℕ)
        → i < t.table.num_buckets
        → All (λ o. o.addr < t.next + 1) (loop_fwd (t.table.bucket_arr i))
    raised i l = All-map _ _ (loop_fwd (t.table.bucket_arr i)) (λ o h. omega arith) (fits.below i l)

    Fits-add : Fits n (add t key x)
    Fits-add =
        let (v, run, items) = shape in
        let w = put_bucket t.table key v in
        let after : (add t key x).table ≡ w = ap (λ p. p.1) run in
        record {
          valid = IsValid-add;
          below =
              subst
                (λ m.
                  (i : ℕ)
                  → i < m.num_buckets
                  → All (λ o. o.addr < t.next + 1) (loop_fwd (m.bucket_arr i)))
                (sym after)
                (λ i l. elim (bucket-put_bucket t.table key v i) [
                  | inl (e, f) ↦
                      rw (f, items)
                        (All-append _ (loop_fwd (bucket t.table key)) (node ∷ [])
                          (raised (bucket_of t.table key) (omega arith)) (omega arith, tt))
                  | inr (e, f) ↦ rw f (raised i l)
                ]);
          room =
              subst
                (λ m.
                  (i : ℕ) → i < m.num_buckets → length (loop_fwd (m.bucket_arr i)) + n ≤ max_count)
                (sym after)
                (λ i l. elim (bucket-put_bucket t.table key v i) [
                  | inl (e, f) ↦
                      rw (f, items)
                        (omega (
                          arith,
                          length-append (loop_fwd (bucket t.table key)) (node ∷ []),
                          fits.room (bucket_of t.table key) (omega arith),
                        ))
                  | inr (e, f) ↦ rw f (omega (arith, fits.room i l))
                ]);
        }

    view_add :
        (j : Key)
        → view (add t key x).table j
          ≡ (if key_eq key j then view t.table j ++ (x ∷ []) else view t.table j)
    view_add j = elim (add_key-Added mem t.next t.table key x fits.valid IsFresh-addr few).1 [
      | inl (r, v) ↦ v j
      | inr (r, v, (n, refused)) ↦ let never : true ≡ false = refused in absurd cc
    ]

    find_add :
        (j : Key)
        → find (add t key x) j ≡ (if key_eq key j then some (or_else (find t j) x) else find t j)
    find_add j =
        find_item-view (add t key x).table j
        ∙ ap front (view_add j)
        ∙ elim (Bool-cases (key_eq key j)) [
          | inl h ↦ rw h (
              front-snoc (view t.table j)
              ∙ ap (λ o. some (or_else o x)) (sym (find_item-view t.table j)))
          | inr h ↦ rw h (sym (find_item-view t.table j))
        ]
      where
        front-snoc : (xs : List I) → front (xs ++ (x ∷ [])) ≡ some (or_else (front xs) x)
        front-snoc [] = refl
        front-snoc (y ∷ xs) = refl

    all_add :
        (P : Key × I → Type 0)
        → All P (map pair (entries t.table))
        → P (key, x)
        → All P (map pair (entries (add t key x).table))
    all_add P old new =
        let (v, run, items) = shape in
        let Q = λ (o : MapNode I). P (pair o) in
        let nodes = All-nodes P (entries t.table) old in
        let here : All Q (loop_fwd v) = rw items (
          All-append Q (loop_fwd (bucket t.table key)) (node ∷ [])
            (bucket-entries Q t.table key fits.valid nodes) (new, tt)) in
        let after : (add t key x).table ≡ put_bucket t.table key v = ap (λ p. p.1) run in
        rw after (
          All-pairs P (entries (put_bucket t.table key v))
            (put_bucket-entries Q t.table key v nodes here))

    count_add :
        length (map pair (entries (add t key x).table)) ≡ suc (length (map pair (entries t.table)))
    count_add =
        let (v, run, items) = shape in
        let after : (add t key x).table ≡ put_bucket t.table key v = ap (λ p. p.1) run in
        let grown : length (loop_fwd v) ≡ length (loop_fwd (bucket t.table key)) + 1 =
          ap length items ∙ length-append (loop_fwd (bucket t.table key)) (node ∷ []) in
        rw after (
          omega (
            arith,
            grown,
            length-put_bucket t.table key v fits.valid,
            length-pairs (entries t.table),
            length-pairs (entries (put_bucket t.table key v)),
          ))

pub as_str_map : {I : Type 0} → I → StrMap I
as_str_map {I} item = record {
  T = Table I;
  Fits = Fits item;
  fresh = fresh item;
  find = find item;
  add = add item;
  fits_fresh = Fits-fresh item;
  fits_less =
      λ n t f. record { valid = f.valid; below = f.below; room = λ i l. omega (arith, f.room i l) };
  fits_add = λ n t key x f. Fits-add item f key x;
  find_fresh = find_fresh item;
  find_add = λ n t key x j f. find_add item f key x j;
  entries = λ t. map pair (entries t.table);
  entries_fresh = entries_fresh item;
  find_entries = λ n t key f. find_item-assoc t.table key f.valid;
  all_add = λ n t key x P f. all_add item f key x P;
  count_add = λ n t key x f. count_add item f key x;
}
