-- ===== src/Script/Reads.antt =====
-- How the scanner reads the text of one query.
use pq_async.Common.{
  ℕ, ◌≡◌, refl, sym, ap, ◌∙◌, ◌≢◌, subst, true, false, ◌&&◌, [], ◌∷◌, ◌++◌, Bytes, length, ◌==◌,
  arith, append_assoc, append-nil,
}
use pq_async.Script.{
  Strings, Scanner, Mode, plain, comment, single_quote, double_quote, dollar_quote, add, become,
  char_or_nul, at_char, split_loop,
}
use pq_async.Script.Pieces.{
  doubled, Lacks, is_ordinary, Query, done, byte, literal, identifier, dollar, remark,
  append_cons_ne, run, run_to, skip_append, plain_byte, Quotes, run_quoted, read_tag_lem,
  run_remark, run_dollar_quote,
}

-- A byte that may follow a query: it neither doubles a quote nor makes a remark of a dash.
abbrev pub IsClear : ℕ → Type 0
IsClear n = (n == b'\'' ≡ false) × (n == b'"' ≡ false) × (n == b'-' ≡ false)

module _ (strings : Strings) where
  single_quote-Quotes : Quotes strings b'\'' single_quote
  unfolding at_char
  single_quote-Quotes c r s = refl

  double_quote-Quotes : Quotes strings b'"' double_quote
  unfolding at_char
  double_quote-Quotes c r s = refl

  front :
      (q : ℕ) (src : Bytes) (n : ℕ) (r : Bytes)
      → char_or_nul src == q ≡ false
      → n == q ≡ false
      → char_or_nul (src ++ (n ∷ r)) == q ≡ false
  front q [] n r h k = k
  front q (x ∷ src) n r h k = h

  run_quoted_before :
      (q : ℕ) (m : Mode) (body r : Bytes) (s : Scanner)
      → Quotes strings q m
      → r ≢ []
      → char_or_nul r == q ≡ false
      → run strings (doubled q body ++ (q ∷ r)) (become m s)
        ≡ run strings r (become plain (add (doubled q body ++ q ∷ []) s))
  run_quoted_before q m body [] s quotes ne h = absurd (ne refl)
  run_quoted_before q m body (n ∷ r) s quotes ne h = run_quoted strings q m body n r s quotes h

  -- What opens a piece.
  open_single :
      (r : Bytes) (s : Scanner)
      → at_char strings plain b'\'' r s ≡ (become single_quote (add (b'\'' ∷ []) s), 0)
  unfolding at_char
  open_single r s = refl

  open_double :
      (r : Bytes) (s : Scanner)
      → at_char strings plain b'"' r s ≡ (become double_quote (add (b'"' ∷ []) s), 0)
  unfolding at_char
  open_double r s = refl

  pub open_remark :
      (r : Bytes) (s : Scanner) → at_char strings plain b'-' (b'-' ∷ r) s ≡ (become comment s, 0)
  unfolding at_char
  open_remark r s = refl

  open_dollar :
      (tag r : Bytes) (s : Scanner)
      → Lacks b'$' tag
      → at_char strings plain b'$' (tag ++ (b'$' ∷ r)) s ≡ (
        become (dollar_quote (b'$' ∷ (tag ++ b'$' ∷ []))) (add (b'$' ∷ (tag ++ b'$' ∷ [])) s),
        length (tag ++ b'$' ∷ []),
      )
  unfolding at_char
  open_dollar tag r s h = rw (read_tag_lem strings tag r h)

  pub at_char_byte :
      (c : ℕ) (r : Bytes) (s : Scanner)
      → is_ordinary c ≡ true
      → (c == b'-' && char_or_nul r == b'-') ≡ false
      → at_char strings plain c r s ≡ (add (c ∷ []) s, 0)
  at_char_byte c r s o d = unfold at_char in plain_byte strings c r s o d

  dash_before :
      (c : ℕ) (src : Bytes) (n : ℕ) (r : Bytes)
      → n == b'-' ≡ false
      → (c == b'-' && char_or_nul src == b'-') ≡ false
      → (c == b'-' && char_or_nul (src ++ (n ∷ r)) == b'-') ≡ false
  dash_before c [] n r k h = ground arith
  dash_before c (x ∷ src) n r k h = h

  -- Reading the text of a query, up to the byte `n` behind it.
  abbrev pub Reads : ℕ → Bytes → Bytes → Bytes → Type 0
  Reads n r src vis =
      (s : Scanner)
      → run strings (src ++ (n ∷ r)) (become plain s)
        ≡ run strings (n ∷ r) (become plain (add vis s))

  Reads-literal :
      (q : ℕ) (m : Mode) (body : Bytes) (n : ℕ) (r src vis : Bytes)
      → Quotes strings q m
      → char_or_nul src == q ≡ false
      → n == q ≡ false
      → ((l : Bytes) (t : Scanner) → at_char strings plain q l t ≡ (become m (add (q ∷ []) t), 0))
      → Reads n r src vis
      → Reads n r (q ∷ (doubled q body ++ (q ∷ src))) (q ∷ (doubled q body ++ (q ∷ vis)))
  Reads-literal q m body n r src vis quotes h k opens ih s =
      let after = src ++ (n ∷ r) in
      let inside = doubled q body ++ (q ∷ after) in
      let closed = doubled q body ++ q ∷ [] in
      rw (append_assoc (doubled q body) (q ∷ src) (n ∷ r)) (
        run_to strings q inside (become plain s) (append_cons_ne (doubled q body) after q)
          (opens inside (become plain s))
        ∙ run_quoted_before q m body after (add (q ∷ []) s) quotes (append_cons_ne src r n)
            (front q src n r h k)
        ∙ ih (add closed (add (q ∷ []) s))
        ∙ rw (
          append_assoc (s.cur_qry ++ q ∷ []) closed vis,
          append_assoc s.cur_qry (q ∷ []) (closed ++ vis),
          append_assoc (doubled q body) (q ∷ []) vis,
        ))

  Reads-byte :
      (c n : ℕ) (r src vis : Bytes)
      → is_ordinary c ≡ true
      → (c == b'-' && char_or_nul src == b'-') ≡ false
      → n == b'-' ≡ false
      → Reads n r src vis
      → Reads n r (c ∷ src) (c ∷ vis)
  Reads-byte c n r src vis o d k ih s =
      run_to strings c (src ++ (n ∷ r)) (become plain s) (append_cons_ne src r n)
        (at_char_byte c (src ++ (n ∷ r)) (become plain s) o (dash_before c src n r k d))
      ∙ ih (add (c ∷ []) s)
      ∙ rw (append_assoc s.cur_qry (c ∷ []) vis)

  run_remark_before :
      (body r : Bytes) (s : Scanner)
      → Lacks b'\n' body
      → r ≢ []
      → run strings (body ++ (b'\n' ∷ r)) (become comment s) ≡ run strings r (become plain s)
  run_remark_before body [] s h ne = absurd (ne refl)
  run_remark_before body (n ∷ r) s h ne = run_remark strings body n r s h

  Reads-remark :
      (body : Bytes) (n : ℕ) (r src vis : Bytes)
      → Lacks b'\n' body
      → Reads n r src vis
      → Reads n r (b'-' ∷ b'-' ∷ (body ++ (b'\n' ∷ src))) vis
  Reads-remark body n r src vis h ih s =
      let after = src ++ (n ∷ r) in
      rw (append_assoc body (b'\n' ∷ src) (n ∷ r)) (
        run_to strings b'-' (b'-' ∷ (body ++ (b'\n' ∷ after))) (become plain s) (λ e. cc)
          (open_remark (body ++ (b'\n' ∷ after)) (become plain s))
        ∙ run_remark_before (b'-' ∷ body) after s (refl, h) (append_cons_ne src r n)
        ∙ ih s)

  -- The opening tag is read in one round.
  pub run_open_dollar :
      (tag rest : Bytes) (s : Scanner)
      → Lacks b'$' tag
      → let t = tag ++ b'$' ∷ [] in
        run strings (b'$' ∷ (t ++ rest)) (become plain s)
        ≡ run strings rest (become (dollar_quote (b'$' ∷ t)) (add (b'$' ∷ t) s))
  run_open_dollar tag rest s h =
      let t = tag ++ b'$' ∷ [] in
      let opened = become (dollar_quote (b'$' ∷ t)) (add (b'$' ∷ t) s) in
      let joined = append_assoc tag (b'$' ∷ []) rest in
      ap (λ l. run strings (b'$' ∷ l) (become plain s)) joined
      ∙ run_to strings b'$' (tag ++ (b'$' ∷ rest)) (become plain s) (append_cons_ne tag rest b'$')
          (open_dollar tag rest (become plain s) h)
      ∙ ap (λ l. split_loop strings l (length t) opened) (sym joined)
      ∙ skip_append strings t rest opened

  -- `$tag$`, a body and `$tag$` in front of more text, with the tags in one piece.
  abbrev tagged : Bytes → Bytes → Bytes → Bytes
  tagged t body rest = b'$' ∷ (t ++ (body ++ (b'$' ∷ (t ++ rest))))

  tagged_lem :
      (tag body rest : Bytes)
      → b'$' ∷ (tag ++ (b'$' ∷ (body ++ (b'$' ∷ (tag ++ (b'$' ∷ rest))))))
        ≡ tagged (tag ++ b'$' ∷ []) body rest
  tagged_lem tag body rest = simp append_assoc

  Reads-tagged :
      (tag body : Bytes) (n : ℕ) (r src vis : Bytes)
      → Lacks b'$' tag
      → Lacks b'$' body
      → Reads n r src vis
      → Reads n r (tagged (tag ++ b'$' ∷ []) body src) (tagged (tag ++ b'$' ∷ []) body vis)
  Reads-tagged tag body n r src vis h k ih s =
      let t = tag ++ b'$' ∷ [] in
      let after = src ++ (n ∷ r) in
      let inside = body ++ (b'$' ∷ (t ++ after)) in
      let opened = add (b'$' ∷ t) s in
      let regroup : tagged t body src ++ (n ∷ r) ≡ b'$' ∷ (t ++ inside) = simp append_assoc in
      ap (λ l. run strings l (become plain s)) regroup
      ∙ run_open_dollar tag inside s h
      ∙ run_dollar_quote strings t body after opened (append_cons_ne tag [] b'$') k
      ∙ ih (add (body ++ (b'$' ∷ t)) opened)
      ∙ simp append_assoc

  -- The text of a query goes into `cur_qry`, and nothing else happens.
  pub run-Query :
      {src vis : Bytes} (n : ℕ) (r : Bytes) → IsClear n → Query src vis → Reads n r src vis
  run-Query n r ok done = λ s. rw append-nil
  run-Query n r ok (byte {c} {src} {vis} o d q) =
      Reads-byte c n r src vis o d ok.2 (run-Query n r ok q)
  run-Query n r ok (literal body {src} {vis} h q) =
      Reads-literal b'\'' single_quote body n r src vis single_quote-Quotes h ok.0 open_single
        (run-Query n r ok q)
  run-Query n r ok (identifier body {src} {vis} h q) =
      Reads-literal b'"' double_quote body n r src vis double_quote-Quotes h ok.1 open_double
        (run-Query n r ok q)
  run-Query n r ok (dollar tag body {src} {vis} h k q) =
      subst (λ l. Reads n r l (b'$' ∷ (tag ++ (b'$' ∷ (body ++ (b'$' ∷ (tag ++ (b'$' ∷ vis))))))))
        (sym (tagged_lem tag body src))
        (subst (λ l. Reads n r (tagged (tag ++ b'$' ∷ []) body src) l)
          (sym (tagged_lem tag body vis))
          (Reads-tagged tag body n r src vis h k (run-Query n r ok q)))
  run-Query n r ok (remark body {src} {vis} h q) =
      Reads-remark body n r src vis h (run-Query n r ok q)
