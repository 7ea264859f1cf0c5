-- ===== src/Tests/Ranges.antt =====
-- src/pg_type_range_def.cpp and include/pq-async/pg_type_range_def.h: ranges.
use pq_async.Common.{
  ℕ, ◌+◌, ◌-◌, ◌≡◌, refl, true, not, ◌&&◌, [], ◌∷◌, ok, throw, codes, if◌then◌else◌, arith,
}
use pq_async.Range.{
  no_flags, inclusive, exclusive, invalid_bound, Range, range_of, has_lbound, has_ubound,
  is_or_contains_empty, lbound, ubound, lbound_inclusion, ubound_inclusion, clear_lbound,
  clear_ubound, set_lbound,
}
use pq_async.Range.Bounds.{
  sets_ubound, clears_lbound, clears_ubound, edit_all, edit_all-is_or_contains_empty,
  set_lbound_lem, set_lbound-clear_lbound,
}
use pq_async.Range.Parse.{Bound, parse, format, int_range, value_range, string_of}
use pq_async.Range.Parse.Texts.{
  IsReadable, parse-format, int_range-string_of, value_range-string_of, string_of-clear_both,
}

-- One digit; a text with more behind it is read up to there.
abbrev digits : Bound ℕ
digits = record {
  trim = λ s. s;
  of_text = λ s. elim s [ [] ↦ throw invalid_bound | c ∷ r ↦ ok (c - b'0') ];
  to_text = λ n. (b'0' + n) ∷ [];
}

abbrev three_to_seven : Range ℕ
three_to_seven = record { flags = record no_flags { lb_inc = true }; lb = 3; ub = 7 }

abbrev garbage : Range ℕ
garbage = record { flags = record no_flags { ub_null = true }; lb = 1; ub = 2 }

text_of : string_of digits three_to_seven ≡ codes "[3,7)"
unfolding string_of format has_lbound has_ubound
text_of = refl

edit_all-is_or_contains_empty_example :
    let r =
      edit_all {T = ℕ}
        (clears_lbound ∷ clears_ubound ∷ sets_ubound 9 inclusive ∷ [])
        (range_of 3 7) in
    is_or_contains_empty r ≡ not (has_lbound r && has_ubound r)
edit_all-is_or_contains_empty_example =
    edit_all-is_or_contains_empty (clears_lbound ∷ clears_ubound ∷ sets_ubound 9 inclusive ∷ []) 3 7

set_lbound_lem_run :
    let s = set_lbound 5 exclusive three_to_seven in
    (lbound s ≡ ok 5)
    × (ubound s ≡ ok 7)
    × (ubound_inclusion s ≡ ubound_inclusion three_to_seven)
    × (lbound_inclusion s
        ≡ (if has_lbound three_to_seven then lbound_inclusion three_to_seven else inclusive))
set_lbound_lem_run = set_lbound_lem 5 exclusive three_to_seven

set_lbound-clear_lbound_run :
    set_lbound 3 (lbound_inclusion three_to_seven) (clear_lbound three_to_seven) ≡ three_to_seven
set_lbound-clear_lbound_run =
    set_lbound-clear_lbound three_to_seven (λ e. unfold has_lbound has_ubound in refl)
      (unfold has_lbound in refl) refl

parse-format_example :
    parse (λ s. s) (format (record no_flags { lb_inc = true }) (codes "3") (codes "7"))
    ≡ ok (record no_flags { lb_inc = true }, (codes "3", codes "7)"))
parse-format_example =
    parse-format (λ s. s) (record no_flags { lb_inc = true }) (codes "3") (codes "7") refl
      (ground arith, tt) (ground arith)

readable : IsReadable digits three_to_seven
readable = record {
  no_comma = (ground arith, tt);
  trimmed = refl;
  not_blank = refl;
  read_back = refl;
  bracket_stays = ground arith;
  bracketed = refl;
}

int_range-string_of_run :
    int_range digits garbage (string_of digits three_to_seven)
    ≡ ok (record { flags = garbage.flags; lb = 3; ub = 3 })
int_range-string_of_run =
    int_range-string_of digits garbage three_to_seven (unfold has_lbound in refl)
      (unfold has_ubound in refl) readable

value_range-string_of_run :
    value_range digits garbage (string_of digits three_to_seven)
    ≡ ok (record { flags = garbage.flags; lb = 3; ub = 7 })
value_range-string_of_run =
    value_range-string_of digits garbage three_to_seven (unfold has_lbound in refl)
      (unfold has_ubound in refl) readable

string_of-clear_both_run :
    (string_of digits (clear_ubound (clear_lbound three_to_seven)) ≡ codes "empty")
    × (string_of digits (clear_lbound (clear_ubound three_to_seven)) ≡ codes "empty")
string_of-clear_both_run =
    string_of-clear_both digits three_to_seven (unfold has_lbound in refl)
      (unfold has_ubound in refl)
