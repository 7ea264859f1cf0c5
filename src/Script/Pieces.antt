-- ===== src/Script/Pieces.antt =====
-- The pieces that the text of a query is made of, and how the scanner reads each of them.
use pq_async.Common.{
  ℕ, suc, ◌-◌, ◌≡◌, refl, ap, ◌∙◌, ◌≢◌, Bool, true, false, not, ◌&&◌, ◌||◌, [], ◌∷◌, ◌++◌, Bytes,
  bytes_eq_iff, ==_iff, length, take, ◌==◌, if◌then◌else◌, arith, append_assoc, Bool-cases, inl,
  inr,
}
use pq_async.Script.{
  Strings, Scanner, Mode, plain, comment, dollar_quote, add, become, char_or_nul, read_tag,
  in_quote, in_plain, at_char, split_loop,
}

-- A literal's content as it is written, with each quote doubled.
abbrev pub doubled : ℕ → Bytes → Bytes
doubled q [] = []
doubled q (c ∷ cs) = if c == q then c ∷ c ∷ doubled q cs else c ∷ doubled q cs

-- The byte does not occur.
abbrev pub Lacks : ℕ → Bytes → Type 0
Lacks q [] = Unit {0}
Lacks q (c ∷ cs) = (c == q ≡ false) × Lacks q cs

-- A byte that starts nothing by itself.
abbrev pub is_ordinary : ℕ → Bool
is_ordinary c = not (c == b'$' || c == b'\'' || c == b'"' || c == b';')

-- Source text without its last `;`, and what of it goes into the query.
pub data Query : Bytes → Bytes → Type 0 where
  done : Query [] []
  byte :
      {c : ℕ} {src vis : Bytes}
      → is_ordinary c ≡ true
      → (c == b'-' && char_or_nul src == b'-') ≡ false
      → Query src vis
      → Query (c ∷ src) (c ∷ vis)
  -- '..', with anything inside
  literal :
      (body : Bytes) {src vis : Bytes}
      → char_or_nul src == b'\'' ≡ false
      → Query src vis
      → Query
          (b'\'' ∷ (doubled b'\'' body ++ (b'\'' ∷ src)))
          (b'\'' ∷ (doubled b'\'' body ++ (b'\'' ∷ vis)))
  -- "..", with anything inside
  identifier :
      (body : Bytes) {src vis : Bytes}
      → char_or_nul src == b'"' ≡ false
      → Query src vis
      → Query
          (b'"' ∷ (doubled b'"' body ++ (b'"' ∷ src)))
          (b'"' ∷ (doubled b'"' body ++ (b'"' ∷ vis)))
  -- $tag$..$tag$
  dollar :
      (tag body : Bytes) {src vis : Bytes}
      → Lacks b'$' tag
      → Lacks b'$' body
      → Query src vis
      → Query
          (b'$' ∷ (tag ++ (b'$' ∷ (body ++ (b'$' ∷ (tag ++ (b'$' ∷ src)))))))
          (b'$' ∷ (tag ++ (b'$' ∷ (body ++ (b'$' ∷ (tag ++ (b'$' ∷ vis)))))))
  -- --.. up to the end of the line
  remark :
      (body : Bytes) {src vis : Bytes}
      → Lacks b'\n' body
      → Query src vis
      → Query (b'-' ∷ b'-' ∷ (body ++ (b'\n' ∷ src))) vis

pub append_cons_ne : (xs ys : Bytes) (y : ℕ) → xs ++ (y ∷ ys) ≢ []
append_cons_ne [] ys y e = cc
append_cons_ne (x ∷ xs) ys y e = cc

module _ (strings : Strings) where
  abbrev pub run : Bytes → Scanner → Scanner
  run l s = split_loop strings l 0 s

  -- One round in the middle of a script.
  pub run_to :
      (c : ℕ) (r : Bytes) (s : Scanner) {t : Scanner} {k : ℕ}
      → r ≢ []
      → at_char strings s.mode c r s ≡ (t, k)
      → run (c ∷ r) s ≡ split_loop strings r k t
  run_to c [] s ne e = absurd (ne refl)
  run_to c (n ∷ r) s ne e = unfold split_loop in rw (e, split_loop)

  -- Skipping what stands in front.
  pub skip_append :
      (xs r : Bytes) (s : Scanner) → split_loop strings (xs ++ r) (length xs) s ≡ run r s
  unfolding split_loop
  skip_append [] r s = refl
  skip_append (x ∷ xs) r s = skip_append xs r s

  pub plain_byte :
      (c : ℕ) (r : Bytes) (s : Scanner)
      → is_ordinary c ≡ true
      → (c == b'-' && char_or_nul r == b'-') ≡ false
      → in_plain strings c r s ≡ (add (c ∷ []) s, 0)
  unfolding in_plain
  plain_byte c r s o d = ground arith

  quote_other : (q c n : ℕ) (s : Scanner) → c == q ≡ false → in_quote q c n s ≡ (add (c ∷ []) s, 0)
  unfolding in_quote
  quote_other q c n s h = ground arith

  quote_twice : (q : ℕ) (s : Scanner) → in_quote q q q s ≡ (add (q ∷ q ∷ []) s, 1)
  unfolding in_quote
  quote_twice q s = ground arith

  quote_end :
      (q n : ℕ) (s : Scanner)
      → n == q ≡ false
      → in_quote q q n s ≡ (become plain (add (q ∷ []) s), 0)
  unfolding in_quote
  quote_end q n s h = ground arith

  -- A mode that reads a literal with the quote `q`.
  abbrev pub Quotes : ℕ → Mode → Type 0
  Quotes q m =
      (c : ℕ) (r : Bytes) (s : Scanner) → at_char strings m c r s ≡ in_quote q c (char_or_nul r) s

  pub run_quoted :
      (q : ℕ) (m : Mode) (body : Bytes) (n : ℕ) (r : Bytes) (s : Scanner)
      → Quotes q m
      → n == q ≡ false
      → run (doubled q body ++ (q ∷ n ∷ r)) (become m s)
        ≡ run (n ∷ r) (become plain (add (doubled q body ++ q ∷ []) s))
  run_quoted q m [] n r s quotes h =
      run_to q (n ∷ r) (become m s) (λ e. cc)
        (quotes q (n ∷ r) (become m s) ∙ quote_end q n (become m s) h)
  run_quoted q m (c ∷ cs) n r s quotes h =
      let more = doubled q cs ++ (q ∷ n ∷ r) in
      elim (Bool-cases (c == q)) [
        | inl same ↦
            let two = q ∷ q ∷ [] in
            rw (same, (==_iff c q).0 same)
              (run_to q (q ∷ more) (become m s) (λ e. cc)
                  (quotes q (q ∷ more) (become m s) ∙ quote_twice q (become m s))
                ∙ skip_append (q ∷ []) more (become m (add two s))
                ∙ run_quoted q m cs n r (add two s) quotes h
                ∙ rw (append_assoc s.cur_qry two (doubled q cs ++ q ∷ [])))
        | inr other ↦ rw other (
            run_to c more (become m s) (append_cons_ne (doubled q cs) (n ∷ r) q)
              (quotes c more (become m s) ∙ quote_other q c (char_or_nul more) (become m s) other)
            ∙ run_quoted q m cs n r (add (c ∷ []) s) quotes h
            ∙ rw (append_assoc s.cur_qry (c ∷ []) (doubled q cs ++ q ∷ [])))
      ]

  pub remark_other :
      (c : ℕ) (r : Bytes) (s : Scanner)
      → c == b'\n' ≡ false
      → at_char strings comment c r s ≡ (s, 0)
  unfolding at_char
  remark_other c r s h = rw h

  remark_end : (r : Bytes) (s : Scanner) → at_char strings comment b'\n' r s ≡ (become plain s, 0)
  unfolding at_char
  remark_end r s = refl

  -- A remark leaves no trace.
  pub run_remark :
      (body : Bytes) (n : ℕ) (r : Bytes) (s : Scanner)
      → Lacks b'\n' body
      → run (body ++ (b'\n' ∷ n ∷ r)) (become comment s) ≡ run (n ∷ r) (become plain s)
  run_remark [] n r s h =
      run_to b'\n' (n ∷ r) (become comment s) (λ e. cc) (remark_end (n ∷ r) (become comment s))
  run_remark (c ∷ cs) n r s h =
      run_to c (cs ++ (b'\n' ∷ n ∷ r)) (become comment s) (append_cons_ne cs (n ∷ r) b'\n')
        (remark_other c (cs ++ (b'\n' ∷ n ∷ r)) (become comment s) h.0)
      ∙ run_remark cs n r s h.1

  pub read_tag_lem :
      (tag r : Bytes) → Lacks b'$' tag → read_tag (tag ++ (b'$' ∷ r)) ≡ tag ++ b'$' ∷ []
  unfolding read_tag
  read_tag_lem [] r h = refl
  read_tag_lem (c ∷ tag) r h = rw (h.0) (ap (◌∷◌ c) (read_tag_lem tag r h.1))

  take_append : (xs ys : Bytes) → take (length xs) (xs ++ ys) ≡ xs
  take_append [] ys = refl
  take_append (x ∷ xs) ys = ap (◌∷◌ x) (take_append xs ys)

  dollar_other :
      (tag r : Bytes) (c : ℕ) (s : Scanner)
      → c == b'$' ≡ false
      → at_char strings (dollar_quote tag) c r s ≡ (add (c ∷ []) s, 0)
  unfolding at_char
  dollar_other tag r c s h = rw h

  -- The closing tag, `$` and `t`.
  dollar_end :
      (t r : Bytes) (s : Scanner)
      → at_char strings (dollar_quote (b'$' ∷ t)) b'$' (t ++ r) s
        ≡ (become plain (add (b'$' ∷ t) s), length t)
  unfolding at_char
  dollar_end t r s =
      let less : suc (length t) - 1 ≡ length t = omega arith in
      rw (take_append t r, (bytes_eq_iff (b'$' ∷ t) (b'$' ∷ t)).1 refl, less)

  append_ne : (xs ys : Bytes) → xs ≢ [] → xs ++ ys ≢ []
  append_ne [] ys ne = absurd (ne refl)
  append_ne (x ∷ xs) ys ne = λ e. cc

  pub run_dollar_quote :
      (t body r : Bytes) (s : Scanner)
      → t ≢ []
      → Lacks b'$' body
      → run (body ++ (b'$' ∷ (t ++ r))) (become (dollar_quote (b'$' ∷ t)) s)
        ≡ run r (become plain (add (body ++ (b'$' ∷ t)) s))
  run_dollar_quote t [] r s ne h =
      run_to b'$' (t ++ r) (become (dollar_quote (b'$' ∷ t)) s) (append_ne t r ne)
        (dollar_end t r (become (dollar_quote (b'$' ∷ t)) s))
      ∙ skip_append t r (become plain (add (b'$' ∷ t) s))
  run_dollar_quote t (c ∷ cs) r s ne h =
      let more = cs ++ (b'$' ∷ (t ++ r)) in
      let m = dollar_quote (b'$' ∷ t) in
      run_to c more (become m s) (append_cons_ne cs (t ++ r) b'$')
        (dollar_other (b'$' ∷ t) more c (become m s) h.0)
      ∙ run_dollar_quote t cs r (add (c ∷ []) s) ne h.1
      ∙ rw (append_assoc s.cur_qry (c ∷ []) (cs ++ (b'$' ∷ t)))
