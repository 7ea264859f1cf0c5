-- ===== src/Range/Parse/Texts.antt =====
-- src/pg_type_range_def.cpp: reading the text of a range back.
use pq_async.Common.{
  ℕ, ◌≡◌, ◌≢◌, refl, ◌∙◌, true, false, [], ◌∷◌, ◌++◌, some, ok, ◌>>=◌, Bytes, codes, bytes_eq,
  if◌then◌else◌, arith,
}
use pq_async.Range.{Flags, no_flags, Range, has_lbound, has_ubound, clear_lbound, clear_ubound}
use pq_async.Range.Parse.{
  at_comma, last_char, has_no_chars, Bound, parse, format, int_range_parts, int_range,
  value_range_parts, value_range, string_of,
}

-- No character is a comma.
abbrev pub HasNoComma : Bytes → Type 0
HasNoComma [] = Unit {0}
HasNoComma (c ∷ r) = (c ≢ b',') × HasNoComma r

abbrev pub opening : Flags → ℕ
opening f = if f.lb_inc then b'[' else b'('

abbrev pub closing : Flags → ℕ
closing f = if f.ub_inc then b']' else b')'

at_comma-HasNoComma : (s t : Bytes) → HasNoComma s → at_comma (s ++ (b',' ∷ t)) ≡ some (s, t)
unfolding at_comma
at_comma-HasNoComma [] t h = ground arith
at_comma-HasNoComma (c ∷ s) t h = ground (arith, at_comma-HasNoComma s t h.1)

last_char-append : (s : Bytes) (c : ℕ) → last_char (s ++ (c ∷ [])) ≡ c
last_char-append [] c = refl
last_char-append (x ∷ []) c = refl
last_char-append (x ∷ y ∷ s) c = last_char-append (y ∷ s) c

last_char-behind : (s : Bytes) (x : ℕ) (t : Bytes) → last_char (s ++ (x ∷ t)) ≡ last_char (x ∷ t)
last_char-behind [] x t = refl
last_char-behind (y ∷ []) x t = refl
last_char-behind (y ∷ z ∷ s) x t = last_char-behind (z ∷ s) x t

last_char-bracketed :
    (f : Flags) (sl su : Bytes)
    → last_char (opening f ∷ (sl ++ (b',' ∷ (su ++ (closing f ∷ []))))) ≡ closing f
last_char-bracketed f sl su =
    last_char-behind (opening f ∷ sl) b',' (su ++ (closing f ∷ []))
    ∙ last_char-append (b',' ∷ su) (closing f)

opening-not_comma : (f : Flags) → opening f ≢ b','
opening-not_comma f = ground arith

at_comma-bracketed :
    (f : Flags) (sl su : Bytes)
    → HasNoComma sl
    → at_comma (opening f ∷ (sl ++ (b',' ∷ (su ++ (closing f ∷ [])))))
      ≡ some (opening f ∷ sl, su ++ (closing f ∷ []))
at_comma-bracketed f sl su h =
    at_comma-HasNoComma (opening f ∷ sl) (su ++ (closing f ∷ [])) (opening-not_comma f, h)

-- The text of a range that is not empty is read back with the inclusions of its bounds and the
-- trimmed text of its lower bound. The closing bracket stays at the end of the text of the upper
-- bound; as a trimmed text that ends in a bracket is not empty, no range is read as unbounded
-- above.
pub parse-format :
    (trim : Bytes → Bytes) (f : Flags) (sl su : Bytes)
    → f.empty ≡ false
    → HasNoComma sl
    → trim (su ++ (closing f ∷ [])) ≢ []
    → parse trim (format f sl su)
      ≡ ok (
        record no_flags {
          lb_inc = f.lb_inc;
          ub_inc = f.ub_inc;
          lb_inf = has_no_chars (trim sl);
          contain_empty = has_no_chars (trim sl);
        },
        (trim sl, trim (su ++ (closing f ∷ []))),
      )
unfolding parse format bytes_eq
parse-format trim f sl su e h n =
    ground (arith, last_char-bracketed f sl su, at_comma-bracketed f sl su h)

-- What is documented of `md::trim` and of the conversions of a bound, for the text of a range: the
-- texts of the bounds are not blank, hold no comma and are read back, and brackets are not trimmed.
pub record IsReadable {T : Type 0} (bound : Bound T) (r : Range T) : Type 0 where
  pub no_comma : HasNoComma (bound.to_text r.lb)
  pub trimmed : bound.trim (bound.to_text r.lb) ≡ bound.to_text r.lb
  pub not_blank : has_no_chars (bound.to_text r.lb) ≡ false
  pub read_back : bound.of_text (bound.to_text r.lb) ≡ ok r.lb
  pub bracket_stays : bound.trim (bound.to_text r.ub ++ (closing r.flags ∷ [])) ≢ []
  pub bracketed : bound.trim (string_of bound r) ≡ string_of bound r

string_of-format :
    {T : Type 0} (bound : Bound T) (r : Range T)
    → has_lbound r ≡ true
    → has_ubound r ≡ true
    → string_of bound r ≡ format r.flags (bound.to_text r.lb) (bound.to_text r.ub)
unfolding string_of
string_of-format bound r l u = rw (l, u)

not_empty : {T : Type 0} (r : Range T) → has_lbound r ≡ true → r.flags.empty ≡ false
unfolding has_lbound
not_empty r l = ground arith

parse-string_of :
    {T : Type 0} (bound : Bound T) (r : Range T)
    → has_lbound r ≡ true
    → has_ubound r ≡ true
    → IsReadable bound r
    → parse bound.trim (bound.trim (string_of bound r))
      ≡ ok (
        record no_flags { lb_inc = r.flags.lb_inc; ub_inc = r.flags.ub_inc },
        (bound.to_text r.lb, bound.trim (bound.to_text r.ub ++ (closing r.flags ∷ []))),
      )
parse-string_of bound r l u g = rw (
  g.bracketed,
  string_of-format bound r l u,
  parse-format bound.trim r.flags (bound.to_text r.lb) (bound.to_text r.ub) (not_empty r l)
      g.no_comma g.bracket_stays,
  g.trimmed,
  g.not_blank,
)

-- A range of integers with both bounds that is read back from its own text has its lower bound
-- for both bounds, and the flags that were in memory before.
pub int_range-string_of :
    {T : Type 0} (bound : Bound T) (before r : Range T)
    → has_lbound r ≡ true
    → has_ubound r ≡ true
    → IsReadable bound r
    → int_range bound before (string_of bound r)
      ≡ ok (record { flags = before.flags; lb = r.lb; ub = r.lb })
unfolding int_range
int_range-string_of bound before r l u g =
    rw (parse-string_of bound r l u g)
      (unfold int_range_parts in ground (arith, g.bracket_stays, g.not_blank, g.read_back))

-- A range of the other types is read back with its lower bound, the upper bound that the parser of
-- a bound makes of its text with the closing bracket behind it, and the flags that were in memory
-- before.
pub value_range-string_of :
    {T : Type 0} (bound : Bound T) (before r : Range T)
    → has_lbound r ≡ true
    → has_ubound r ≡ true
    → IsReadable bound r
    → value_range bound before (string_of bound r) ≡ (
        bound.of_text (bound.trim (bound.to_text r.ub ++ (closing r.flags ∷ []))) >>= λ u.
        ok (record { flags = before.flags; lb = r.lb; ub = u }))
unfolding value_range
value_range-string_of bound before r l u g =
    rw (parse-string_of bound r l u g)
      (unfold value_range_parts in ground (arith, g.bracket_stays, g.not_blank, g.read_back))

-- A range with both bounds from which both are cleared, in either order, does not become the
-- unbounded range: its text is that of the empty range.
pub string_of-clear_both :
    {T : Type 0} (bound : Bound T) (r : Range T)
    → has_lbound r ≡ true
    → has_ubound r ≡ true
    → (string_of bound (clear_ubound (clear_lbound r)) ≡ codes "empty")
      × (string_of bound (clear_lbound (clear_ubound r)) ≡ codes "empty")
unfolding string_of clear_lbound clear_ubound has_lbound has_ubound format
string_of-clear_both bound r l u = ground arith
