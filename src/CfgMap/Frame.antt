-- ===== src/CfgMap/Frame.antt =====
-- Lookups and counts leave the values of a configuration alone.
use ban2fail.CfgMap.Values.{IsValid, values, values-find, values-none, modify-IsValid}
use ban2fail.CfgMap.{Entry, CfgMap, modify, find, find_tuples, num_tuples}
use ban2fail.Prelude.{
  ℕ, ◌≡◌, ◌∙◌, ap, sym, refl, inl, inr, Bool, true, false, if◌then◌else◌, Option-cases, ℕ_discrete,
  store_eq, store_ne, add32,
}
use ban2fail.Stdio.{Text}
use ban2fail.StrMap.{StrMap}

module _ {maps : StrMap ℕ} where
  -- A change that keeps the values of an entry keeps those of all symbols.
  modify-values :
      (s : CfgMap maps) (p : ℕ) (f : Entry → Entry)
      → (f (s.heap p)).value_lst ≡ (s.heap p).value_lst
      → (k : Text) → values (modify s p f) k ≡ values s k
  modify-values s p f keeps k = elim (Option-cases (maps.find s.entry_map k)) [
    | inl e ↦ values-none (modify s p f) k e ∙ sym (values-none s k e)
    | inr (q, e) ↦ values-find (modify s p f) k q e ∙ same q ∙ sym (values-find s k q e)
  ]
    where
      same : (q : ℕ) → ((modify s p f).heap q).value_lst ≡ (s.heap q).value_lst
      same q = elim (ℕ_discrete q p) [
        | yes e ↦
            ap (λ x. x.value_lst) (store_eq s.heap p q (f (s.heap p)) e)
            ∙ keeps
            ∙ ap (λ i. (s.heap i).value_lst) (sym e)
        | no e ↦ ap (λ x. x.value_lst) (store_ne s.heap p q (f (s.heap p)) e)
      ]

  -- Two configurations with the same values, where the second is as valid as the first.
  pub record Keeps (s t : CfgMap maps) : Type 0 where
    pub same : (k : Text) → values t k ≡ values s k
    pub valid : (n : ℕ) → IsValid n s → IsValid n t

  pub Keeps-refl : (s : CfgMap maps) → Keeps s s
  Keeps-refl s = record { same = λ k. refl; valid = λ n v. v }

  pub Keeps-trans : (s t u : CfgMap maps) → Keeps s t → Keeps t u → Keeps s u
  Keeps-trans s t u h k = record {
    same = λ x. k.same x ∙ h.same x;
    valid = λ n v. k.valid n (h.valid n v);
  }

  pub find-Keeps : (s : CfgMap maps) (k : Text) → Keeps s (find s k).1
  unfolding find
  find-Keeps s k = elim (Option-cases (maps.find s.entry_map k)) [
    | inl e ↦ rw (e, find) (Keeps-refl s)
    | inr (p, e) ↦
        let count = λ (x : Entry). record x { n_lookups = add32 x.n_lookups 1 } in
        rw (e, find)
          (record {
            same = modify-values s p count refl;
            valid = λ n v. modify-IsValid s v k p e count refl;
          })
  ]

  pub find_tuples-Keeps : (s : CfgMap maps) (k : Text) → Keeps s (find_tuples s k).1
  unfolding find_tuples
  find_tuples-Keeps s k = find-Keeps s k

  either-Keeps :
      (b : Bool) (s t : CfgMap maps) (m n : ℕ)
      → Keeps s t
      → let r : ℕ × CfgMap maps = if b then (m, s) else (n, t) in Keeps s r.1
  either-Keeps true s t m n h = Keeps-refl s
  either-Keeps false s t m n h = h

  pub num_tuples-Keeps : (s : CfgMap maps) → Keeps s (num_tuples s).1
  unfolding num_tuples values
  num_tuples-Keeps s = either-Keeps s.tuples_known s _ s.n_tuples _ (record {
    same = λ k. refl;
    valid = λ n v. record { below = v.below; named = v.named; fits = v.fits };
  })
