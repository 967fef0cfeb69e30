-- ===== src/Map/Create.antt =====
-- MAP_constructor and MAP_clearAndDestroy: where a table begins and ends.
use ban2fail.Prelude.{
  ℕ, zero, suc, ◌+◌, ◌-◌, ◌*◌, ◌≤◌, ◌<◌, ◌≡◌, ◌≢◌, ◌⊎◌, ◌∙◌, ap, ap₂, sym, refl, arith, inl, inr,
  true, false, Bool, Bool-cases, if◌then◌else◌, length, List, [], ◌∷◌, ◌++◌, append-nil,
  append_assoc, map, Memory, some, none, store, store_eq, store_ne, ℕ_discrete,
}
use ban2fail.Prelude.Order.{mod_ring}
use ban2fail.Map.Keys.{pick}
use ban2fail.Map.Visit.{entries_from, entries}
use ban2fail.Map.View.{IsValid, view}
use ban2fail.Map.{
  Key, MapNode, Map, bucket_of, construct_buckets, construct, drain, clear_buckets,
  clear_and_destroy,
}
use ban2fail.PtrVec
use ban2fail.PtrVec.Ends.{length-loop_fwd, rem_head-cases}
use ban2fail.PtrVec.Ring
use ban2fail.PtrVec.Ring.{max_slots}
use ban2fail.PtrVec.{PtrVec, loop_fwd, rem_head}

module _ {ℓ} {I : Type ℓ} where
  -- A bucket that is ready for use and holds nothing.
  abbrev pub IsEmpty : PtrVec (MapNode I) → Type ℓ
  IsEmpty v = Ring.IsValid v × (loop_fwd v ≡ [])

  -- A table in which every bucket is empty is valid and holds nothing under any key.
  pub all_empty-IsValid :
      (m : Map I)
      → 0 < m.num_buckets
      → ((i : ℕ) → i < m.num_buckets → IsEmpty (m.bucket_arr i))
      → IsValid m
  all_empty-IsValid m h e = record {
    positive = h;
    buckets = λ i l. (e i l).0;
    placed = λ i l. rw (e i l).1 tt;
    distinct = λ i l. rw (e i l).1 tt;
  }

  pub all_empty-view :
      (m : Map I)
      → 0 < m.num_buckets
      → ((i : ℕ) → i < m.num_buckets → IsEmpty (m.bucket_arr i))
      → (key : Key) → view m key ≡ []
  unfolding view pick bucket_of
  all_empty-view m h e key = ap (pick key) (e (bucket_of m key) (omega arith)).1

  module _ (mem : Memory (MapNode I)) (slots : ℕ) (roomy : 4 ≤ slots)
      (small : slots ≤ max_slots) where
    abbrev blank : PtrVec (MapNode I)
    blank = record {
      ptr_arr = mem.fresh;
      max_items = slots;
      num_items = 0;
      head = 0;
      tail = 0;
      sort_buf_sz = 0;
    }

    blank-IsEmpty : IsEmpty blank
    unfolding loop_fwd
    blank-IsEmpty = (
      record {
        roomy = roomy;
        small = small;
        fits = omega arith;
        head_in = omega arith;
        last = omega (arith, mod_ring (0 + (0 - 1)) slots);
      },
      refl,
    )

    construct-blank :
        ((mem.grants (slots * 8) ≡ true) × (PtrVec.construct mem slots ≡ some blank))
        ⊎ ((mem.grants (slots * 8) ≡ false) × (PtrVec.construct mem slots ≡ none))
    unfolding PtrVec.construct
    construct-blank = elim (Bool-cases (mem.grants (slots * 8))) [
      | inl e ↦ inl (e, rw e)
      | inr e ↦ inr (e, rw e)
    ]

    -- The loop fails on the first bucket or on none.
    construct_buckets-IsEmpty :
        (n i : ℕ) (arr : ℕ → PtrVec (MapNode I))
        → ((j : ℕ) → j < i → IsEmpty (arr j))
        → ((mem.grants (slots * 8) ≡ false) × (construct_buckets mem slots n i arr ≡ none))
          ⊎ ((out : ℕ → PtrVec (MapNode I)) × (construct_buckets mem slots n i arr ≡ some out)
              × ((j : ℕ) → j < i + n → IsEmpty (out j)))
    unfolding construct_buckets
    construct_buckets-IsEmpty zero i arr h = inr (arr, refl, λ j l. h j (omega arith))
    construct_buckets-IsEmpty (suc n) i arr h = elim construct-blank [
      | inr (e, f) ↦ rw (f, construct_buckets) (inl (e, refl))
      | inl (e, f) ↦
          rw (f, construct_buckets)
            (elim (construct_buckets-IsEmpty n (i + 1) (store arr i blank) (λ j l. more j l)) [
              | inl p ↦ inl p
              | inr (out, g, k) ↦ inr (out, g, λ j l. k j (omega arith))
            ])
    ]
      where
        more : (j : ℕ) → j < i + 1 → IsEmpty (store arr i blank j)
        more j l = elim (ℕ_discrete j i) [
          | yes e ↦ rw (store_eq arr i j blank e) blank-IsEmpty
          | no ne ↦ rw (store_ne arr i j blank ne) (h j (omega arith))
        ]

    -- For at least one bucket and 4 to 2^31 slots, MAP_constructor makes a valid table with that
    -- many buckets and nothing under any key, or it returns NULL and an allocation was refused.
    pub construct-IsValid :
        (arrays : Memory (PtrVec (MapNode I))) (n : ℕ)
        → 0 < n
        → ((construct arrays mem n slots ≡ none)
            × ((arrays.grants (n * 40) ≡ false) ⊎ (mem.grants (slots * 8) ≡ false)))
          ⊎ ((m : Map I) × (construct arrays mem n slots ≡ some m)
              × (m.num_buckets ≡ n)
              × IsValid m
              × ((key : Key) → view m key ≡ []))
    unfolding construct
    construct-IsValid arrays n pos = elim (Bool-cases (arrays.grants (n * 40))) [
      | inr e ↦ rw e (inl (refl, inl refl))
      | inl e ↦ elim (construct_buckets-IsEmpty n 0 arrays.fresh (λ j l. absurd (omega arith))) [
        | inl (g, f) ↦ rw (e, f, construct_buckets) (inl (refl, inr g))
        | inr (out, f, k) ↦
            let m : Map I = record { num_buckets = n; bucket_arr = out } in
            let all : (j : ℕ) → j < n → IsEmpty (out j) = λ j l. k j (omega arith) in
            rw (e, f) (inr (m, refl, refl, all_empty-IsValid m pos all, all_empty-view m pos all))
      ]
    ]

    -- With ample memory there is a table, all of whose buckets are empty.
    pub construct-IsEmpty :
        (arrays : Memory (PtrVec (MapNode I))) (n : ℕ)
        → arrays.grants (n * 40) ≡ true
        → mem.grants (slots * 8) ≡ true
        → (m : Map I) × (construct arrays mem n slots ≡ some m)
          × (m.num_buckets ≡ n)
          × ((i : ℕ) → i < n → IsEmpty (m.bucket_arr i))
    unfolding construct
    construct-IsEmpty arrays n e g =
        elim (construct_buckets-IsEmpty n 0 arrays.fresh (λ j l. absurd (omega arith))) [
          | inl (h, f) ↦ let no : true ≡ false = sym g ∙ h in absurd cc
          | inr (out, f, k) ↦
              let m : Map I = record { num_buckets = n; bucket_arr = out } in
              rw (e, f) (m, refl, refl, λ j l. k j (omega arith))
        ]

  module _ (destructor : I → Bool) where
    abbrev pub items : List (MapNode I) → List I
    items = map (λ n. n.item_ptr)

    -- 1 if the destructor fails on an item, else what it was.
    unfoldable pub verdict : ℕ → List I → ℕ
    verdict rtn [] = rtn
    verdict rtn (x ∷ xs) = verdict (if destructor x then rtn else 1) xs

    verdict-append :
        (rtn : ℕ) (xs ys : List I) → verdict rtn (xs ++ ys) ≡ verdict (verdict rtn xs) ys
    unfolding verdict
    verdict-append rtn [] ys = refl
    verdict-append rtn (x ∷ xs) ys = verdict-append (if destructor x then rtn else 1) xs ys

    record Drained (v : PtrVec (MapNode I)) (rtn : ℕ) (gone : List I)
        (out : ℕ × List I × PtrVec (MapNode I)) : Type ℓ where
      code : out.0 ≡ verdict rtn (items (loop_fwd v))
      all : out.1 ≡ gone ++ items (loop_fwd v)
      empty : IsEmpty out.2

    drain-Drained :
        (fuel : ℕ) (v : PtrVec (MapNode I)) (rtn : ℕ) (gone : List I)
        → Ring.IsValid v
        → length (loop_fwd v) < fuel
        → Drained v rtn gone (drain destructor fuel v rtn gone)
    unfolding drain verdict
    drain-Drained zero v rtn gone valid h = absurd (omega arith)
    drain-Drained (suc fuel) v rtn gone valid h =
        let w = (rem_head v).1 in
        let (ok, c) = rem_head-cases valid in
        let under = λ (l : List (MapNode I)). verdict rtn (items l) in
        elim c [
          | inl (e, none_left, still) ↦
              rw (e, drain)
                (record {
                  code = ap under (sym none_left);
                  all = sym (append-nil gone) ∙ ap (λ l. gone ++ items l) (sym none_left);
                  empty = (ok, still);
                })
          | inr (x, e, f) ↦
              let rest =
                drain-Drained fuel w (if destructor x.item_ptr then rtn else 1)
                  (gone ++ (x.item_ptr ∷ [])) ok (omega (arith, ap length f)) in
              rw (e, drain)
                (record {
                  code = rest.code ∙ ap under (sym f);
                  all =
                      rest.all
                      ∙ append_assoc gone (x.item_ptr ∷ []) (items (loop_fwd w))
                      ∙ ap (λ l. gone ++ items l) (sym f);
                  empty = rest.empty;
                })
        ]

    entries_from_congr :
        (m w : Map I) (n ndx : ℕ)
        → ((j : ℕ) → ndx ≤ j → w.bucket_arr j ≡ m.bucket_arr j)
        → entries_from w n ndx ≡ entries_from m n ndx
    unfolding entries_from
    entries_from_congr m w zero ndx h = refl
    entries_from_congr m w (suc n) ndx h =
        ap₂ ◌++◌ (ap loop_fwd (h ndx (omega arith)))
          (entries_from_congr m w n (ndx + 1) (λ j l. h j (omega arith)))

    -- Buckets `ndx` to `ndx + n` are emptied, and the others are left.
    record Cleared (m : Map I) (n ndx rtn : ℕ) (gone : List I) (out : ℕ × List I × Map I)
        : Type ℓ where
      code : out.0 ≡ verdict rtn (items (entries_from m n ndx))
      all : out.1 ≡ gone ++ items (entries_from m n ndx)
      size : out.2.num_buckets ≡ m.num_buckets
      empty : (j : ℕ) → ndx ≤ j → j < ndx + n → IsEmpty (out.2.bucket_arr j)
      others : (j : ℕ) → j < ndx → out.2.bucket_arr j ≡ m.bucket_arr j

    map-append : (xs ys : List (MapNode I)) → items (xs ++ ys) ≡ items xs ++ items ys
    map-append [] ys = refl
    map-append (x ∷ xs) ys = ap (λ l. x.item_ptr ∷ l) (map-append xs ys)

    clear_buckets-Cleared :
        (n ndx : ℕ) (m : Map I) (rtn : ℕ) (gone : List I)
        → ((j : ℕ) → ndx ≤ j → j < ndx + n → Ring.IsValid (m.bucket_arr j))
        → Cleared m n ndx rtn gone (clear_buckets destructor n ndx m rtn gone)
    unfolding clear_buckets entries_from verdict
    clear_buckets-Cleared zero ndx m rtn gone h = record {
      code = refl;
      all = sym (append-nil gone);
      size = refl;
      empty = λ j l k. absurd (omega arith);
      others = λ j l. refl;
    }
    clear_buckets-Cleared (suc n) ndx m rtn gone h =
        let v = m.bucket_arr ndx in
        let d =
          drain-Drained (v.num_items + 1) v rtn gone (h ndx (omega arith) (omega arith))
            (omega (arith, length-loop_fwd v)) in
        let (rtn', gone', w) = drain destructor (v.num_items + 1) v rtn gone in
        let m' : Map I = record m { bucket_arr = store m.bucket_arr ndx w } in
        let keep = λ (j : ℕ) (ne : j ≢ ndx). store_ne m.bucket_arr ndx j w ne in
        let later = entries_from_congr m m' n (ndx + 1) (λ j l. keep j (omega arith)) in
        let c =
          clear_buckets-Cleared n (ndx + 1) m' rtn' gone'
            (λ j l k. rw (keep j (omega arith)) (h j (omega arith) (omega arith))) in
        record {
          code =
              c.code
              ∙ ap₂ (λ (r : ℕ) (l : List (MapNode I)). verdict r (items l)) d.code later
              ∙ sym (verdict-append rtn (items (loop_fwd v)) (items (entries_from m n (ndx + 1))))
              ∙ ap (verdict rtn) (sym (map-append (loop_fwd v) (entries_from m n (ndx + 1))));
          all =
              c.all
              ∙ ap₂ (λ (g : List I) (l : List (MapNode I)). g ++ items l) d.all later
              ∙ append_assoc gone (items (loop_fwd v)) (items (entries_from m n (ndx + 1)))
              ∙ ap (λ l. gone ++ l) (sym (map-append (loop_fwd v) (entries_from m n (ndx + 1))));
          size = c.size;
          empty = λ j l k. elim (ℕ_discrete j ndx) [
            | yes e ↦ rw (c.others j (omega arith)) (rw (store_eq m.bucket_arr ndx j w e) d.empty)
            | no ne ↦ c.empty j (omega arith) (omega arith)
          ];
          others = λ j l. c.others j (omega arith) ∙ keep j (omega arith);
        }

    -- MAP_clearAndDestroy on a valid table hands every item to the destructor once, in the order
    -- of a walk, and leaves a valid table with nothing under any key. It returns 1 if the
    -- destructor failed on some item, else 0.
    pub clear_and_destroy-empties :
        (m : Map I)
        → IsValid m
        → let (rtn, gone, w) = clear_and_destroy destructor m in
          (rtn ≡ verdict 0 (items (entries m)))
          × (gone ≡ items (entries m))
          × IsValid w
          × ((key : Key) → view w key ≡ [])
    unfolding clear_and_destroy entries
    clear_and_destroy-empties m valid =
        let c =
          clear_buckets-Cleared m.num_buckets 0 m 0 [] (λ j l k. valid.buckets j (omega arith)) in
        let w = (clear_buckets destructor m.num_buckets 0 m 0 []).2 in
        let pos : 0 < w.num_buckets = omega (arith, valid.positive, c.size) in
        let all : (j : ℕ) → j < w.num_buckets → IsEmpty (w.bucket_arr j) =
          λ j l. c.empty j (omega arith) (omega (arith, c.size)) in
        (c.code, c.all, all_empty-IsValid w pos all, all_empty-view w pos all)
