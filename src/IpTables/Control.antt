-- ===== src/IpTables/Control.antt =====
-- The two loops of `_control_addresses` run a plan of commands, each for one batch of addresses.
use ban2fail.IpTables.Batches.{
  join, batch_of, put_addr-batch_of, batches, batches-cons, batches-last, snoc-ne_zero, concat,
  IsPacked, concat-batches, batches-IsPacked, execute, command,
}
use ban2fail.IpTables.{
  max_addr, Program, iptables, ip6tables, Flag, Command, has_colon, Batch, no_batch, Outcome,
  aborted, went, run_command, issue, ip4_loop, ip6_loop, control_sorted, control_addresses,
  addr_cmp,
}
use ban2fail.Prelude.{
  ◌≡◌, ◌∙◌, ap, ap₂, subst, sym, refl, arith, inl, inr, Bool, true, false, Bool-cases, ltb,
  suc-ne_zero, Option, none, some, List, [], ◌∷◌, ◌++◌, map, length, All,
}
use ban2fail.Prelude.Int.{ℤ, pos, ◌≤ℤ◌}
use mathlib.Core.List.{Perm}
use mathlib.Core.Path.{fun_ext}
use ban2fail.Stdio.{Text}

abbrev and_then : {A B : Type 0} → Outcome A → (List Command → Outcome B) → Outcome B
and_then (aborted ran) k = aborted ran
and_then (went ran a) k = k ran

abbrev first : List Text → Option Text
first [] = none
first (a ∷ rest) = some a

abbrev behind : List Text → List Text
behind [] = []
behind (a ∷ rest) = rest

module _ (fails : List Command → Command → Bool) (flag : Flag) where
  issue-execute :
      {A : Type 0} (program : Program) (xs : List Text) (cs ran : List Command)
      (k : List Command → Outcome A)
      → issue fails flag program ran (batch_of xs) (λ r. and_then (execute fails r cs) k)
        ≡ and_then (execute fails ran (command flag program xs ∷ cs)) k
  unfolding issue run_command execute
  issue-execute program xs cs ran k = elim (Bool-cases (fails ran (command flag program xs))) [
    | inl t ↦ rw t
    | inr t ↦ rw t
  ]

  issue-Unit :
      (program : Program) (xs : List Text) (cs ran : List Command)
      → issue fails flag program ran (batch_of xs) (λ r. execute fails r cs)
        ≡ execute fails ran (command flag program xs ∷ cs)
  unfolding issue run_command execute
  issue-Unit program xs cs ran = refl

  issue-congr :
      {A : Type 0} (program : Program) (ran : List Command) (b : Batch)
      (k k' : List Command → Outcome A)
      → ((r : List Command) → k r ≡ k' r)
      → issue fails flag program ran b k ≡ issue fails flag program ran b k'
  issue-congr program ran b k k' h = ap (issue fails flag program ran b) (fun_ext h)

  -- The first loop takes the addresses up to one with a colon.
  ip4_loop-execute :
      (xs ys p : List Text) (ran : List Command)
      → All (λ a. has_colon a ≡ false) xs
      → All (λ a. has_colon a ≡ true) ys
      → ip4_loop fails flag (xs ++ ys) (batch_of p) ran
        ≡ and_then
            (execute fails ran (map (command flag iptables) (batches p xs)))
            (λ r. went r (first ys, behind ys))
  unfolding ip4_loop batches execute join
  ip4_loop-execute [] [] [] ran h k = refl
  ip4_loop-execute [] [] (a ∷ p) ran h k =
      rw (suc-ne_zero (length p)) (issue-execute iptables (a ∷ p) [] ran (λ r. went r (none, [])))
  ip4_loop-execute [] (y ∷ ys) [] ran h (k, more) = rw k
  ip4_loop-execute [] (y ∷ ys) (a ∷ p) ran h (k, more) =
      rw (k, suc-ne_zero (length p))
        (issue-execute iptables (a ∷ p) [] ran (λ r. went r (some y, ys)))
  ip4_loop-execute (x ∷ xs) ys p ran (h, hs) k =
      let q = p ++ (x ∷ []) in
      let leave : List Command → Outcome (Option Text × List Text) =
        λ r. went r (first ys, behind ys) in
      elim (Bool-cases (ltb (length q) max_addr)) [
        | inl t ↦ rw (h, put_addr-batch_of p x, t) (ip4_loop-execute xs ys q ran hs k)
        | inr t ↦
            rw (h, put_addr-batch_of p x, t)
              (issue-congr iptables ran (batch_of q)
                  (λ r. ip4_loop fails flag (xs ++ ys) no_batch r)
                  (λ r.
                    and_then (execute fails r (map (command flag iptables) (batches [] xs))) leave)
                  (λ r. ip4_loop-execute xs ys [] r hs k)
                ∙ issue-execute iptables q (map (command flag iptables) (batches [] xs)) ran leave)
      ]

  issue_last :
      (xs : List Text) (ran : List Command)
      → issue fails flag ip6tables ran (batch_of xs) (λ r. went r tt)
        ≡ execute fails ran (command flag ip6tables xs ∷ [])
  unfolding issue run_command execute
  issue_last xs ran = refl

  -- The second loop takes all that is left.
  ip6_loop-execute :
      (ys : List Text) (y : Text) (p : List Text) (ran : List Command)
      → ip6_loop fails flag (some y) ys (batch_of p) ran
        ≡ execute fails ran (map (command flag ip6tables) (batches p (y ∷ ys)))
  unfolding ip6_loop join
  ip6_loop-execute [] y p ran =
      rw (put_addr-batch_of p y, snoc-ne_zero p y, batches-last p y)
        (issue_last (p ++ (y ∷ [])) ran)
  ip6_loop-execute (z ∷ ys) y p ran =
      let q = p ++ (y ∷ []) in
      elim (Bool-cases (ltb (length q) max_addr)) [
        | inl t ↦
            rw (put_addr-batch_of p y, snoc-ne_zero p y, batches-cons p y (z ∷ ys), t)
              (ip6_loop-execute ys z q ran)
        | inr t ↦
            rw (put_addr-batch_of p y, snoc-ne_zero p y, batches-cons p y (z ∷ ys), t)
              (ap (issue fails flag ip6tables ran (batch_of q))
                  (fun_ext (λ r. ip6_loop-execute ys z [] r))
                ∙ issue-Unit ip6tables q (map (command flag ip6tables) (batches [] (z ∷ ys))) ran)
      ]

  execute-append :
      (cs ds ran : List Command)
      → and_then (execute fails ran cs) (λ r. execute fails r ds) ≡ execute fails ran (cs ++ ds)
  unfolding execute
  execute-append [] ds ran = refl
  execute-append (c ∷ cs) ds ran = elim (Bool-cases (fails ran c)) [
    | inl t ↦ rw t
    | inr t ↦ rw t (execute-append cs ds (ran ++ (c ∷ [])))
  ]

  ip6_loop-rest :
      (ys : List Text) (r : List Command)
      → ip6_loop fails flag (first ys) (behind ys) no_batch r
        ≡ execute fails r (map (command flag ip6tables) (batches [] ys))
  unfolding ip6_loop batches execute join
  ip6_loop-rest [] r = refl
  ip6_loop-rest (y ∷ ys) r = ip6_loop-execute ys y [] r

  abbrev then_ip6 : Outcome (Option Text × List Text) → Outcome Unit
  then_ip6 (aborted ran) = aborted ran
  then_ip6 (went ran (addr, more)) = ip6_loop fails flag addr more no_batch ran

  then_ip6-and_then :
      (o : Outcome Unit) (addr : Option Text) (more : List Text)
      → then_ip6 (and_then o (λ r. went r (addr, more)))
        ≡ and_then o (λ r. ip6_loop fails flag addr more no_batch r)
  then_ip6-and_then (aborted ran) addr more = refl
  then_ip6-and_then (went ran u) addr more = refl

  control_sorted-execute :
      (xs ys : List Text)
      → All (λ a. has_colon a ≡ false) xs
      → All (λ a. has_colon a ≡ true) ys
      → control_sorted fails flag (xs ++ ys)
        ≡ execute fails [] (
            map (command flag iptables) (batches [] xs)
            ++ map (command flag ip6tables) (batches [] ys))
  unfolding control_sorted join
  control_sorted-execute xs ys h k =
      ap then_ip6 (ip4_loop-execute xs ys [] [] h k)
      ∙ then_ip6-and_then (execute fails [] (map (command flag iptables) (batches [] xs)))
          (first ys) (behind ys)
      ∙ ap (λ f. and_then (execute fails [] (map (command flag iptables) (batches [] xs))) f)
          (fun_ext (λ r. ip6_loop-rest ys r))
      ∙ execute-append (map (command flag iptables) (batches [] xs))
          (map (command flag ip6tables) (batches [] ys)) []

  -- The outcome for the addresses `vec`: they are in the commands, in each once, and each command has
  -- at most as many as iptables takes.
  pub record Controlled (vec : List Text) (out : Outcome Unit) : Type 0 where
    pub ip4 : List (List Text)
    pub ip6 : List (List Text)
    pub every : Perm (concat ip4 ++ concat ip6) vec
    pub ip4_kind : All (λ a. has_colon a ≡ false) (concat ip4)
    pub ip6_kind : All (λ a. has_colon a ≡ true) (concat ip6)
    pub ip4_packed : IsPacked ip4
    pub ip6_packed : IsPacked ip6
    pub runs :
        out ≡ execute fails [] (map (command flag iptables) ip4 ++ map (command flag ip6tables) ip6)

-- In the order of `addr_cmp`, an address with a colon has only such addresses behind it.
unfoldable pub IsOrdered : List Text → Type 0
IsOrdered [] = Unit
IsOrdered (x ∷ xs) = All (λ y. addr_cmp x y ≤ℤ pos 0) xs × IsOrdered xs

pub record Parted (l : List Text) : Type 0 where
  ip4 : List Text
  ip6 : List Text
  whole : l ≡ ip4 ++ ip6
  ip4_kind : All (λ a. has_colon a ≡ false) ip4
  ip6_kind : All (λ a. has_colon a ≡ true) ip6

All-colon :
    (x : Text) (xs : List Text)
    → has_colon x ≡ true
    → All (λ y. addr_cmp x y ≤ℤ pos 0) xs
    → All (λ a. has_colon a ≡ true) xs
unfolding addr_cmp
All-colon x [] t h = tt
All-colon x (y ∷ ys) t (h, hs) = elim (Bool-cases (has_colon y)) [
  | inl u ↦ (u, All-colon x ys t hs)
  | inr u ↦ let k : pos 1 ≤ℤ pos 0 = rw (t, u) at h in let no : ⊥ = omega (arith, k) in absurd no
]

IsOrdered-Parted : (l : List Text) → IsOrdered l → Parted l
unfolding IsOrdered
IsOrdered-Parted [] h = record { ip4 = []; ip6 = []; whole = refl; ip4_kind = tt; ip6_kind = tt }
IsOrdered-Parted (x ∷ xs) (h, hs) = elim (Bool-cases (has_colon x)) [
  | inl t ↦ record {
    ip4 = [];
    ip6 = x ∷ xs;
    whole = refl;
    ip4_kind = tt;
    ip6_kind = (t, All-colon x xs t h);
  }
  | inr t ↦
      let p = IsOrdered-Parted xs hs in
      record {
        ip4 = x ∷ p.ip4;
        ip6 = p.ip6;
        whole = ap (λ l. x ∷ l) p.whole;
        ip4_kind = (t, p.ip4_kind);
        ip6_kind = p.ip6_kind;
      }
]

-- Over a sort that permutes the addresses and puts them in the order of its comparison,
-- _control_addresses runs commands in order until one fails. Each address occurs in one command
-- once; ipv4 addresses come first, with iptables, then ipv6 addresses with ip6tables; no command
-- is empty or has more than 9000 addresses, and only the last of each kind has fewer.
pub control_addresses-Controlled :
    (fails : List Command → Command → Bool) (pvsort : (Text → Text → ℤ) → List Text → List Text)
    (flag : Flag) (vec : List Text)
    → Perm (pvsort addr_cmp vec) vec
    → IsOrdered (pvsort addr_cmp vec)
    → Controlled fails flag vec (control_addresses fails pvsort flag vec)
unfolding control_addresses
control_addresses-Controlled fails pvsort flag vec perm ordered =
    let p = IsOrdered-Parted (pvsort addr_cmp vec) ordered in
    let one = concat-batches [] p.ip4 in
    let two = concat-batches [] p.ip6 in
    record {
      ip4 = batches [] p.ip4;
      ip6 = batches [] p.ip6;
      every = subst (λ l. Perm l vec) (p.whole ∙ sym (ap₂ (λ a b. a ++ b) one two)) perm;
      ip4_kind = subst (All (λ a. has_colon a ≡ false)) (sym one) p.ip4_kind;
      ip6_kind = subst (All (λ a. has_colon a ≡ true)) (sym two) p.ip6_kind;
      ip4_packed = batches-IsPacked [] p.ip4 (omega arith);
      ip6_packed = batches-IsPacked [] p.ip6 (omega arith);
      runs =
          ap (control_sorted fails flag) p.whole
          ∙ control_sorted-execute fails flag p.ip4 p.ip6 p.ip4_kind p.ip6_kind;
    }
