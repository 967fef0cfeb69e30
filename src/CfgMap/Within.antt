-- ===== src/CfgMap/Within.antt =====
-- Assignments leave alone which blocks are open and how deep the files are nested.
use ban2fail.CfgMap.Lookup.{Assignment, append_all}
use ban2fail.CfgMap.{CfgMap, create, obtain, remember, append}
use ban2fail.Prelude.{ℕ, ◌≡◌, ◌∙◌, ap, refl, inl, inr, Option-cases, List, [], ◌∷◌, ◌++◌}
use ban2fail.Stdio.{Text}
use ban2fail.StrMap.{StrMap}

module _ {maps : StrMap ℕ} where
  -- The blocks that are open and the depth of the file are not touched by an assignment.
  abbrev pub within : ℕ → List Text → CfgMap maps → CfgMap maps
  within l ps s = record s { recurs_lvl = l; curly_block_lst = ps }

  remember-within :
      (l : ℕ) (ps : List Text) (o : ℕ × CfgMap maps) (v : Text)
      → remember (o.0, within l ps o.1) v ≡ within l ps (remember o v)
  unfolding remember
  remember-within l ps (p, s) [] = refl
  remember-within l ps (p, s) (c ∷ cs) = refl

  append-within :
      (l : ℕ) (ps : List Text) (s : CfgMap maps) (a v : Text)
      → append (within l ps s) a v ≡ within l ps (append s a v)
  unfolding append obtain create
  append-within l ps s a v = elim (Option-cases (maps.find s.entry_map a)) [
    | inl e ↦ rw (e, obtain) (remember-within l ps (s.n_entries, create s a) v)
    | inr (p, e) ↦ rw (e, obtain) (remember-within l ps (p, s) v)
  ]

  pub append_all-within :
      (l : ℕ) (ps : List Text) (l' : List Assignment) (s : CfgMap maps)
      → append_all (within l ps s) l' ≡ within l ps (append_all s l')
  unfolding append_all
  append_all-within l ps [] s = refl
  append_all-within l ps ((a, v) ∷ l') s =
      ap (λ t. append_all t l') (append-within l ps s a v)
      ∙ append_all-within l ps l' (append s a v)

  pub append-IsWithin :
      (l : ℕ) (ps : List Text) (s : CfgMap maps) (a v : Text)
      → s ≡ within l ps s
      → append s a v ≡ within l ps (append s a v)
  append-IsWithin l ps s a v e = ap (λ t. append t a v) e ∙ append-within l ps s a v

  pub append_all-IsWithin :
      (l : ℕ) (ps : List Text) (l' : List Assignment) (s : CfgMap maps)
      → s ≡ within l ps s
      → append_all s l' ≡ within l ps (append_all s l')
  append_all-IsWithin l ps l' s e = ap (λ t. append_all t l') e ∙ append_all-within l ps l' s

  pub append_all-append :
      (xs ys : List Assignment) (s : CfgMap maps)
      → append_all s (xs ++ ys) ≡ append_all (append_all s xs) ys
  unfolding append_all
  append_all-append [] ys s = refl
  append_all-append ((a, v) ∷ xs) ys s = append_all-append xs ys (append s a v)
