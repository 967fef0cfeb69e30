-- ===== src/LogType/Clean.antt =====
-- The clean-up of a cache directory: what belongs to a log file stays, all else goes.
use ban2fail.LogFile.{LogFile}
use ban2fail.LogType.{CacheFile, CacheDir, in_dir, unlink, is_used, clean_up}
use ban2fail.Map.Keys.{key_eq, key_cases, eq_of_key_eq}
use ban2fail.Prelude.{
  ℕ, ◌-◌, ◌≤◌, ◌≡◌, ◌∙◌, ap, sym, inl, inr, Bool-cases, false, if◌then◌else◌, none, some, List, [],
  ◌∷◌, length,
}
use ban2fail.Stdio.{Text}
use ban2fail.StrMap.{StrMap, assoc}

assoc-unlink {ℓ} :
    {A : Type ℓ} (name k : Text) (d : List (Text × A))
    → assoc k (unlink name d) ≡ (if key_eq name k then none else assoc k d)
unfolding assoc unlink
assoc-unlink name k [] = elim (Bool-cases (key_eq name k)) [ inl t ↦ rw t | inr t ↦ rw t ]
assoc-unlink name k ((n, g) ∷ d) = elim (key_cases n name) [
  | inl (same, t) ↦ rw t (
      assoc-unlink name k d ∙ elim (Bool-cases (key_eq name k)) [
        | inl b ↦ rw b
        | inr b ↦ let b' : key_eq n k ≡ false = ap (λ m. key_eq m k) same ∙ b in rw (b, b')
      ])
  | inr (ne, t, u) ↦ rw t (elim (Bool-cases (key_eq n k)) [
    | inl b ↦
        let b' : key_eq name k ≡ false = ap (key_eq name) (sym (eq_of_key_eq n k b)) ∙ u in
        rw (b, assoc, b')
    | inr b ↦ rw (b, assoc) (assoc-unlink name k d)
  ])
]

module _ (maps : StrMap ℕ) (files : StrMap (LogFile maps)) (dname : Text) (m : files.T) where
  -- The path of a file of the directory has room in the buffer.
  abbrev pub Named : Text × CacheFile → Type 0
  Named f = length f.0 ≤ 4094 - length dname

  -- One round of the loop
  abbrev round : Text → CacheDir → CacheDir
  round n d = if is_used files dname m n then d else unlink (in_dir dname n) d

  unlink-kept :
      (name k : Text) (d : CacheDir) (f : CacheFile)
      → assoc k (unlink name d) ≡ some f
      → assoc k d ≡ some f
  unlink-kept name k d f found = elim (Bool-cases (key_eq name k)) [
    | inl b ↦ let no : none ≡ some f = sym (assoc-unlink name k d ∙ rw b) ∙ found in absurd cc
    | inr b ↦ sym (assoc-unlink name k d ∙ rw b) ∙ found
  ]

  -- No clean-up makes a file.
  pub clean_up-kept :
      (k : Text) (f : CacheFile) (l d : CacheDir)
      → assoc k (clean_up files dname m l d) ≡ some f
      → assoc k d ≡ some f
  unfolding clean_up
  clean_up-kept k f [] d found = found
  clean_up-kept k f ((n, g) ∷ l) d found =
      let before = clean_up-kept k f l (round n d) found in
      elim (Bool-cases (is_used files dname m n)) [
        | inl u ↦ let same : round n d ≡ d = rw u in sym (ap (assoc k) same) ∙ before
        | inr u ↦
            let same : round n d ≡ unlink (in_dir dname n) d = rw u in
            unlink-kept (in_dir dname n) k d f (sym (ap (assoc k) same) ∙ before)
      ]
