-- ===== src/CfgMap/Scans.antt =====
-- What the string functions make of the pieces of a line.
use ban2fail.CfgMap.Render.{spaces, is_name, lacks_cwd, cwd_mark}
use ban2fail.CfgMap.Scan.{
  put_kept, trim_end, starts_with, last_char, but_last, substitute, ends_symbol, split_symbol,
  line_size,
}
use ban2fail.Prelude.{
  ℕ, zero, suc, ◌+◌, ◌<◌, ◌≡◌, ◌∙◌, ap, refl, arith, inl, inr, true, false, Bool-cases, ◌==◌, ltb,
  List, [], ◌∷◌, ◌++◌, length, All,
}
use ban2fail.Stdio.{Text, is_space, skip_space}

pub skip_space-solid : (c : ℕ) (cs : Text) → is_space c ≡ false → skip_space (c ∷ cs) ≡ c ∷ cs
unfolding skip_space
skip_space-solid c cs h = rw h refl

put_kept-solid :
    (x : ℕ) (u : Text) (c : ℕ) (t : Text) → put_kept x (u ++ (c ∷ t)) ≡ x ∷ (u ++ (c ∷ t))
put_kept-solid x [] c t = refl
put_kept-solid x (y ∷ u) c t = refl

-- Text that ends in no white space is kept, whatever stands before it.
pub trim_end-append :
    (u : Text) (c : ℕ) (t : Text)
    → trim_end (c ∷ t) ≡ c ∷ t
    → trim_end (u ++ (c ∷ t)) ≡ u ++ (c ∷ t)
unfolding trim_end
trim_end-append [] c t h = h
trim_end-append (x ∷ u) c t h = ap (put_kept x) (trim_end-append u c t h) ∙ put_kept-solid x u c t

pub trim_end-blank : (u : Text) → trim_end (u ++ (b' ' ∷ [])) ≡ trim_end u
unfolding trim_end
trim_end-blank [] = refl
trim_end-blank (x ∷ u) = ap (put_kept x) (trim_end-blank u)

-- The blanks around a text are cut off.
trim_end-spaces : (n : ℕ) → trim_end (spaces n) ≡ []
unfolding trim_end
trim_end-spaces zero = refl
trim_end-spaces (suc n) = ap (put_kept b' ') (trim_end-spaces n)

trim_end-behind : (u : Text) (n : ℕ) → trim_end (u ++ spaces n) ≡ trim_end u
unfolding trim_end
trim_end-behind [] n = trim_end-spaces n
trim_end-behind (x ∷ u) n = ap (put_kept x) (trim_end-behind u n)

skip_space-put_kept : (w : Text) → skip_space (put_kept b' ' w) ≡ skip_space w
unfolding skip_space
skip_space-put_kept [] = refl
skip_space-put_kept (d ∷ ds) = refl

pub skip_space-spaced :
    (i n : ℕ) (t : Text)
    → skip_space (trim_end (spaces i ++ (t ++ spaces n))) ≡ skip_space (trim_end t)
unfolding trim_end
skip_space-spaced zero n t = ap skip_space (trim_end-behind t n)
skip_space-spaced (suc i) n t =
    skip_space-put_kept (trim_end (spaces i ++ (t ++ spaces n))) ∙ skip_space-spaced i n t

pub last_char-append : (u : Text) (c : ℕ) (t : Text) → last_char (u ++ (c ∷ t)) ≡ last_char (c ∷ t)
last_char-append [] c t = refl
last_char-append (x ∷ []) c t = refl
last_char-append (x ∷ y ∷ u) c t = last_char-append (y ∷ u) c t

pub but_last-append {ℓ} : {A : Type ℓ} (u : List A) (c : A) → but_last (u ++ (c ∷ [])) ≡ u
but_last-append [] c = refl
but_last-append (x ∷ []) c = refl
but_last-append (x ∷ y ∷ u) c = ap (λ l. x ∷ l) (but_last-append (y ∷ u) c)

-- Text without "$CWD" is copied.
pub substitute-plain :
    (cwd t : Text) (n : ℕ)
    → lacks_cwd t ≡ true
    → n + length t < line_size
    → substitute cwd 0 n t ≡ t
unfolding substitute lacks_cwd
substitute-plain cwd [] n h k = refl
substitute-plain cwd (c ∷ cs) n h k =
    let room : ltb (n + 1) line_size ≡ true = ground arith in
    let no : starts_with cwd_mark (c ∷ cs) ≡ false = ground arith in
    let rest : lacks_cwd cs ≡ true = ground arith in
    rw (room, no) (ap (λ l. c ∷ l) (substitute-plain cwd cs (n + 1) rest (omega arith)))

pub lacks_cwd-cons :
    (c : ℕ) (t : Text) → (c == b'$') ≡ false → lacks_cwd t ≡ true → lacks_cwd (c ∷ t) ≡ true
unfolding lacks_cwd starts_with
lacks_cwd-cons c t h k = let no : (b'$' == c) ≡ false = ground arith in rw (no, k) refl

pub lacks_cwd_name :
    (s t : Text) → All (λ c. is_name c ≡ true) s → lacks_cwd t ≡ true → lacks_cwd (s ++ t) ≡ true
lacks_cwd_name [] t p h = h
lacks_cwd_name (c ∷ s) t (p, ps) h =
    lacks_cwd-cons c (s ++ t) (ground arith) (lacks_cwd_name s t ps h)

starts_with-blank :
    (w u t : Text)
    → All (λ c. (c == b' ') ≡ false) w
    → starts_with w u ≡ false
    → starts_with w (u ++ (b' ' ∷ t)) ≡ false
unfolding starts_with
starts_with-blank [] u t p h = h
starts_with-blank (x ∷ w) [] t (p, ps) h = rw p refl
starts_with-blank (x ∷ w) (c ∷ u) t (p, ps) h = elim (Bool-cases (x == c)) [
  | inl e ↦ rw e (starts_with-blank w u t ps (rw e at h))
  | inr e ↦ rw e refl
]

pub lacks_cwd-blank :
    (u t : Text) → lacks_cwd u ≡ true → lacks_cwd t ≡ true → lacks_cwd (u ++ (b' ' ∷ t)) ≡ true
unfolding lacks_cwd
lacks_cwd-blank [] t h k = lacks_cwd-cons b' ' t refl k
lacks_cwd-blank (c ∷ u) t h k =
    let no : starts_with cwd_mark (c ∷ u) ≡ false = ground arith in
    let rest : lacks_cwd u ≡ true = ground arith in
    let far : starts_with cwd_mark ((c ∷ u) ++ (b' ' ∷ t)) ≡ false =
      starts_with-blank cwd_mark (c ∷ u) t (refl, (refl, (refl, (refl, tt)))) no in
    rw far (lacks_cwd-blank u t rest k)

-- The symbol ends at the first character that may not stand in it.
pub split_symbol-name :
    (s : Text) (d : ℕ) (t : Text)
    → All (λ c. is_name c ≡ true) s
    → ends_symbol d ≡ true
    → split_symbol (s ++ (d ∷ t)) ≡ (s, d ∷ t)
unfolding split_symbol
split_symbol-name [] d t p h = rw h refl
split_symbol-name (c ∷ s) d t (p, ps) h =
    let no : ends_symbol c ≡ false = ground arith in rw (split_symbol-name s d t ps h, no) refl
