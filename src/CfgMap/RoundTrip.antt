-- ===== src/CfgMap/RoundTrip.antt =====
-- A configuration file that is written as Render writes it is read back: the reader assigns what the
-- file says, in order.
use ban2fail.CfgMap.Chars.{run_line}
use ban2fail.CfgMap.Effects.{
  process_line-setting, process_line-block, process_line-brace, process_line-nil,
}
use ban2fail.CfgMap.Lines.{World, Outcome, ok, ◌>>=◌, close_block, read_line, process_line}
use ban2fail.CfgMap.Lookup.{append_all, assigned, append_all-find_last_value}
use ban2fail.CfgMap.Reader.{
  fresh_line, run, check, end_line, leave, directory, fh_read, file_read, file_constructor,
}
use ban2fail.CfgMap.Render.{
  Margin, Items, done, setting, block, blank, setting_line, block_line, spaces, spaced, noted,
  put_line, render, full, assigns, is_name, is_literal, IsTitle, IsName, IsLine, IsFile,
}
use ban2fail.CfgMap.Scan.{substitute}
use ban2fail.CfgMap.Scans.{skip_space-spaced, but_last-append}
use ban2fail.CfgMap.Within.{
  within, append-IsWithin, append_all-within, append_all-IsWithin, append_all-append,
}
use ban2fail.CfgMap.{CfgMap, construct, append, find_last_value}
use ban2fail.Prelude.{
  ℕ, suc, ◌^◌, ◌≤◌, ◌<◌, ◌≡◌, ◌∙◌, ap, sym, refl, arith, Bool, true, false, last, ◌==◌, some, List,
  [], ◌∷◌, ◌++◌, append_assoc, append-nil, length, length-append, All, zero,
}
use ban2fail.Stdio.{Text}
use ban2fail.StrMap.{StrMap}

is_literal-append :
    (e : Bool) (u t : Text)
    → is_literal e u ≡ true
    → is_literal false t ≡ true
    → is_literal e (u ++ t) ≡ true
unfolding is_literal
is_literal-append true [] t h k = cc
is_literal-append false [] t h k = k
is_literal-append true (c ∷ u) t h k =
    let rest = is_literal-append false u t (ground arith) k in ground arith
is_literal-append false (c ∷ u) t h k =
    let rest = is_literal-append (c == b'\\') u t (ground arith) k in ground arith

literal_name :
    (s t : Text)
    → All (λ c. is_name c ≡ true) s
    → is_literal false t ≡ true
    → is_literal false (s ++ t) ≡ true
unfolding is_literal
literal_name [] t p h = h
literal_name (c ∷ s) t (p, ps) h =
    let rest = literal_name s t ps h in
    let plain : (c == b'\\') ≡ false = ground arith in rw plain (ground arith)

is_literal-spaces : (n : ℕ) → is_literal false (spaces n) ≡ true
unfolding is_literal
is_literal-spaces zero = refl
is_literal-spaces (suc n) = is_literal-spaces n

is_literal-spaced :
    (m : Margin) (t : Text) → is_literal false t ≡ true → is_literal false (spaced m t) ≡ true
is_literal-spaced m t h =
    is_literal-append false (spaces m.indent) (t ++ spaces m.behind) (is_literal-spaces m.indent)
      (is_literal-append false t (spaces m.behind) h (is_literal-spaces m.behind))

fits-spaced : (m : Margin) (t : Text) → length (spaced m t) < 1023 → length t < 1023
fits-spaced m t h = omega (
  arith,
  length-append (spaces m.indent) (t ++ spaces m.behind),
  length-append t (spaces m.behind),
)

put_line-append : (m : Margin) (t u rest : Text) → put_line m t u ++ rest ≡ put_line m t (u ++ rest)
put_line-append m t u rest =
    append_assoc (spaced m t) (noted m.remark ++ (10 ∷ u)) rest
    ∙ ap (λ x. spaced m t ++ x) (append_assoc (noted m.remark) (10 ∷ u) rest)

module _ {maps : StrMap ℕ} where
  close_block-within :
      (l : ℕ) (ps : List Text) (n : Text) (s : CfgMap maps)
      → close_block (within l (ps ++ (n ∷ [])) s) ≡ ok (within l ps s)
  unfolding close_block
  close_block-within l [] n s = refl
  close_block-within l (p ∷ ps) n s = ap (λ qs. ok (within l qs s)) (but_last-append (p ∷ ps) n)

  module _ (world : World) (cwd : Text)
      (include shell : Text → CfgMap maps → Outcome (CfgMap maps) (CfgMap maps)) where
    abbrev reads : CfgMap maps → Text → Outcome (CfgMap maps) (CfgMap maps)
    reads s t = run (process_line world cwd include shell) (fresh_line s) t

    process_line-spaced :
        (s : CfgMap maps) (m : Margin) (t : Text)
        → process_line world cwd include shell s (spaced m t)
          ≡ process_line world cwd include shell s t
    unfolding process_line
    process_line-spaced s m t =
        ap
          (λ x. elim (substitute cwd 0 0 x) [
            | [] ↦ ok s
            | c ∷ cs ↦ read_line world cwd include shell s (c ∷ cs)
          ])
          (skip_space-spaced m.indent m.behind t)

    -- A line with a known effect
    reads_line :
        (s q : CfgMap maps) (m : Margin) (t rest : Text)
        → is_literal false t ≡ true
        → IsLine m t
        → process_line world cwd include shell s t ≡ ok q
        → reads s (put_line m t rest) ≡ reads q rest
    reads_line s q m t rest h (k, p) e =
        run_line (process_line world cwd include shell) s (spaced m t) m.remark rest
          (is_literal-spaced m t h) k p
        ∙ ap (λ o. o >>= λ (r : CfgMap maps). reads r rest) (process_line-spaced s m t ∙ e)

    process_block :
        (l : ℕ) (ps : List Text) (s : CfgMap maps) (a n : Text)
        → IsName a
        → IsTitle n
        → length (block_line a n) < 1023
        → length (full ps a) < 2048
        → s ≡ within l ps s
        → process_line world cwd include shell s (block_line a n)
          ≡ ok (within l (ps ++ (n ∷ [])) (append s (full ps a) n))
    process_block l ps s a n name value fits room e =
        let at = ap (λ x. x.curly_block_lst) e in
        process_line-block world cwd include shell s a name (rw at room) n value fits
        ∙ ap (λ qs. ok (opened (append s (full qs a) n) n)) at
        ∙ ap (λ x. ok (opened x n)) (append-IsWithin l ps s (full ps a) n e)
      where
        opened : CfgMap maps → Text → CfgMap maps
        opened x n = record x { curly_block_lst = x.curly_block_lst ++ (n ∷ []) }

    -- The file assigns what it says, at the place where the blocks `ps` are open.
    reads-render :
        (i : Items) (l : ℕ) (ps : List Text) (s : CfgMap maps) (rest : Text)
        → IsFile ps i
        → s ≡ within l ps s
        → reads s (render i ++ rest) ≡ reads (append_all s (assigns ps i)) rest
    unfolding render assigns append_all is_literal
    reads-render done l ps s rest h e = refl
    reads-render (setting m a v r) l ps s rest ((name, value, fits, room), more) e =
        let at = ap (λ x. x.curly_block_lst) e in
        ap (reads s) (put_line-append m (setting_line a v) (render r) rest)
        ∙ reads_line s (append s (full ps a) v) m (setting_line a v) (render r ++ rest)
            (literal_name a (b'=' ∷ b' ' ∷ v) name.letters value.literal) fits
            (process_line-setting world cwd include shell s a name (rw at room) v value
                (fits-spaced m (setting_line a v) fits.0)
              ∙ ap (λ qs. ok (append s (full qs a) v)) at)
        ∙ reads-render r l ps (append s (full ps a) v) rest more
            (append-IsWithin l ps s (full ps a) v e)
    reads-render (block m a n body z r) l ps s rest ((name, value, fits, room), inner, shut, more)
          e =
        let added = append s (full ps a) n in
        let opened = within l (ps ++ (n ∷ [])) added in
        let given = assigns (ps ++ (n ∷ [])) body in
        let tail = put_line z (b'}' ∷ []) (render r ++ rest) in
        ap (reads s) (
          put_line-append m (block_line a n) (render body ++ put_line z (b'}' ∷ []) (render r)) rest
          ∙ ap (put_line m (block_line a n)) (
              append_assoc (render body) (put_line z (b'}' ∷ []) (render r)) rest
              ∙ ap (λ x. render body ++ x) (put_line-append z (b'}' ∷ []) (render r) rest)))
        ∙ reads_line s opened m (block_line a n) (render body ++ tail)
            (is_literal-append false (a ++ (b' ' ∷ n)) (b' ' ∷ b'{' ∷ [])
              (literal_name a (b' ' ∷ n) name.letters value.value.literal) refl)
            fits
            (process_block l ps s a n name value (fits-spaced m (block_line a n) fits.0) room e)
        ∙ reads-render body l (ps ++ (n ∷ [])) opened tail inner refl
        ∙ ap (λ q. reads q tail) (append_all-within l (ps ++ (n ∷ [])) given added)
        ∙ reads_line (within l (ps ++ (n ∷ [])) (append_all added given))
            (within l ps (append_all added given)) z (b'}' ∷ []) (render r ++ rest) refl shut
            (process_line-brace world cwd include shell
                (within l (ps ++ (n ∷ [])) (append_all added given))
              ∙ ap (λ o. o >>= λ (q : CfgMap maps). ok q)
                  (close_block-within l ps n (append_all added given)))
        ∙ reads-render r l ps (within l ps (append_all added given)) rest more refl
        ∙ ap (λ q. reads (append_all q (assigns ps r)) rest)
            (sym (append_all-IsWithin l ps given added (append-IsWithin l ps s (full ps a) n e)))
        ∙ ap (λ q. reads q rest) (sym (append_all-append given (assigns ps r) added))
    reads-render (blank m r) l ps s rest (fits, more) e =
        ap (reads s) (put_line-append m [] (render r) rest)
        ∙ reads_line s s m [] (render r ++ rest) refl fits
            (process_line-nil world cwd include shell s)
        ∙ reads-render r l ps s rest more e

    reads_nil : (s : CfgMap maps) → reads s [] ≡ ok s
    unfolding run check end_line fresh_line
    reads_nil s = process_line-nil world cwd include shell s

    -- The whole of a file
    reads_file :
        (i : Items) (l : ℕ) (ps : List Text) (s : CfgMap maps)
        → IsFile ps i
        → s ≡ within l ps s
        → reads s (render i) ≡ ok (append_all s (assigns ps i))
    reads_file i l ps s h e =
        ap (reads s) (sym (append-nil (render i)))
        ∙ reads-render i l ps s [] h e
        ∙ reads_nil (append_all s (assigns ps i))

  module _ (world : World) (fuel : ℕ) (fname : Text) (i : Items) (file : IsFile [] i) where
    fh_read-render :
        fh_read world (suc fuel) fname (render i) (construct {maps = maps})
        ≡ ok (append_all construct (assigns [] i))
    unfolding fh_read leave construct
    fh_read-render =
        ap (λ o. o >>= λ (s : CfgMap maps). leave s)
          (reads_file world (directory world fname) _ _ i 1 [] (within 1 [] construct) file refl)
        ∙ ap leave (append_all-within 1 [] (assigns [] i) construct)
        ∙ ap ok (sym (append_all-IsWithin 0 [] (assigns [] i) construct refl))

    -- `CFGMAP_file_constructor` reads a file that is written as Render writes it: it makes the
    -- assignments of the file, in order, on an empty configuration.
    pub file_constructor-render :
        world.open_file fname ≡ some (render i)
        → file_constructor world (suc fuel) fname
          ≡ ok (append_all (construct {maps = maps}) (assigns [] i))
    unfolding file_constructor file_read
    file_constructor-render here = rw here fh_read-render

    -- CFGMAP_file_constructor reads every file that can be opened and consists of settings, nested
    -- blocks, blank lines and remarks, laid out as Render writes them (one blank within `SYMBOL=
    -- value` and within `SYMBOL name {`, any blanks in front of a line and behind it, a remark on
    -- any line). Its lines and symbols fit into their buffers, its values stand for themselves,
    -- and it has at most 2^30 assignments. The reading succeeds, and CFGMAP_find_last_value
    -- answers for each symbol, with the blocks around it in front, the last value that the file
    -- assigns to it, or NULL where there is none.
    pub file_constructor-find_last_value :
        world.open_file fname ≡ some (render i)
        → length (assigns [] i) ≤ 2 ^ 30
        → (s : CfgMap maps) × (file_constructor world (suc fuel) fname ≡ ok s)
          × ((k : Text) → (find_last_value s k).0 ≡ last (assigned k (assigns [] i)))
    file_constructor-find_last_value here few = (
      append_all construct (assigns [] i),
      file_constructor-render here,
      append_all-find_last_value maps (assigns [] i) few,
    )
