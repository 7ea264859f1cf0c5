-- ===== src/Range/Parse.antt =====
-- `parse`, `format`, the constructor from a text and `operator std::string` of
-- src/pg_type_range_def.cpp.
--
-- The constructor from a text sets no member that it does not assign, so what the members held
-- before is its argument.
pub mod Texts
use pq_async.Common.{
  ℕ, Bool, true, false, not, ◌&&◌, ◌||◌, List, [], ◌∷◌, ◌++◌, Option, none, some, Result, ok, throw,
  ◌>>=◌, Bytes, codes, bytes_eq, ◌==◌, if◌then◌else◌,
}
use pq_async.Range.{Flags, no_flags, Error, invalid_input, Range, has_lbound, has_ubound}

-- The text in front of the first comma and the text behind it, as `find(',')` finds it.
unfoldable pub at_comma : Bytes → Option (Bytes × Bytes)
at_comma [] = none
at_comma (c ∷ r) =
    let rest = at_comma r in
    if c == b','
    then some ([], r)
    else (elim rest [ none ↦ none | some parts ↦ some (c ∷ parts.0, parts.1) ])

-- `in[in.size() - 1]`
abbrev pub last_char : Bytes → ℕ
last_char [] = 0
last_char (c ∷ []) = c
last_char (c ∷ d ∷ r) = last_char (d ∷ r)

-- `in[0]`, the final null of an empty text
abbrev pub first_char : Bytes → ℕ
first_char [] = 0
first_char (c ∷ r) = c

-- `size() == 0`
abbrev pub has_no_chars : Bytes → Bool
has_no_chars [] = true
has_no_chars (c ∷ r) = false

abbrev pub rest_chars : Bytes → Bytes
rest_chars [] = []
rest_chars (c ∷ r) = r

-- `md::trim`, and the conversions of a bound.
pub record Bound (T : Type 0) : Type 0 where
  pub trim : Bytes → Bytes
  pub of_text : Bytes → Result Error T
  pub to_text : T → Bytes

unfoldable pub is_bracketed : Bytes → Bool
is_bracketed s =
    (first_char s == b'[' || first_char s == b'(') && (last_char s == b']' || last_char s == b')')

-- What `parse` makes of the two texts around the comma.
unfoldable pub parse_parts : (Bytes → Bytes) → Bytes → Bytes × Bytes → Flags × (Bytes × Bytes)
parse_parts trim s parts =
    let v1 = trim (rest_chars parts.0) in
    let v2 = trim parts.1 in
    (
      record no_flags {
        lb_inc = first_char s == b'[';
        ub_inc = last_char s == b']';
        lb_inf = has_no_chars v1;
        ub_inf = has_no_chars v2;
        contain_empty = has_no_chars v1 || has_no_chars v2;
      },
      (v1, v2),
    )

unfoldable pub parse : (Bytes → Bytes) → Bytes → Result Error (Flags × (Bytes × Bytes))
unfolding at_comma is_bracketed parse_parts
parse trim s =
    if bytes_eq s (codes "empty")
    then ok (record no_flags { empty = true }, ([], []))
    else if not (is_bracketed s)
    then throw invalid_input
    else (elim (at_comma s) [
      | none ↦ throw invalid_input
      | some parts ↦ ok (parse_parts trim s parts)
    ])

unfoldable pub format : Flags → Bytes → Bytes → Bytes
format f sl su =
    if f.empty
    then codes "empty"
    else (if f.lb_inc then b'[' else b'(')
      ∷ (sl ++ (b',' ∷ (su ++ ((if f.ub_inc then b']' else b')') ∷ []))))

module _ {T : Type 0} (bound : Bound T) where
  open bound use {trim, of_text, to_text}

  -- A bound from its text, or the member as it was.
  unfoldable pub bound_or : T → Bytes → Bytes → Result Error T
  bound_or before v text = if has_no_chars v then ok before else of_text text

  -- The constructor for `int32_t` and `int64_t`, whose upper bound is read from `v1`.
  unfoldable pub int_range_parts : Range T → Flags × (Bytes × Bytes) → Result Error (Range T)
  unfolding bound_or
  int_range_parts before parts =
      let v1 = parts.1.0 in
      let v2 = parts.1.1 in
      if parts.0.empty
      then ok (record before { flags = parts.0 })
      else (bound_or before.lb v1 v1 >>= λ l.
          (bound_or before.ub v2 v1 >>= λ u. ok (record before { lb = l; ub = u })))

  unfoldable pub int_range : Range T → Bytes → Result Error (Range T)
  unfolding parse int_range_parts
  int_range before text = parse trim (trim text) >>= int_range_parts before

  -- The constructor for the other types.
  unfoldable pub value_range_parts : Range T → Flags × (Bytes × Bytes) → Result Error (Range T)
  unfolding bound_or
  value_range_parts before parts =
      let v1 = parts.1.0 in
      let v2 = parts.1.1 in
      if parts.0.empty
      then ok (record before { flags = parts.0 })
      else (bound_or before.lb v1 v1 >>= λ l.
          (bound_or before.ub v2 v2 >>= λ u. ok (record before { lb = l; ub = u })))

  unfoldable pub value_range : Range T → Bytes → Result Error (Range T)
  unfolding parse value_range_parts
  value_range before text = parse trim (trim text) >>= value_range_parts before

  -- `operator std::string`
  unfoldable pub string_of : Range T → Bytes
  unfolding format has_lbound has_ubound
  string_of r =
      format r.flags (if has_lbound r then to_text r.lb else [])
        (if has_ubound r then to_text r.ub else [])
