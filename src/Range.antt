-- ===== src/Range.antt =====
-- `range<T>` of include/pq-async/pg_type_range_def.h and src/pg_type_range_def.cpp: the ranges of
-- PostgreSQL, their flags and their text.
--
-- `range_flag` is a record with one field for each of its bits. The type of the bounds is a
-- parameter. `md::trim` and the conversions between a bound and its text come from another library:
-- they are the record `Bound`.

pub mod Bounds
pub mod Parse
use pq_async.Common.{
  ℕ, suc, ◌+◌, ◌-◌, Bool, true, false, not, ◌&&◌, ◌||◌, List, [], ◌∷◌, ◌++◌, Option, none, some,
  Result, ok, throw, ◌>>=◌, Bytes, codes, bytes_eq, if◌then◌else◌, length, take, drop,
}

-- The bits of `range_flag`; `range_flag::none` has none of them.
pub record Flags : Type 0 where
  pub empty : Bool
  pub lb_inc : Bool
  pub ub_inc : Bool
  pub lb_inf : Bool
  pub ub_inf : Bool
  pub lb_null : Bool
  pub ub_null : Bool
  pub contain_empty : Bool
  -- the bits above 0x80, which are no flags and which no method writes or tests; the decoders set
  -- them all or none
  pub above : Bool

abbrev pub no_flags : Flags
no_flags = record {
  empty = false;
  lb_inc = false;
  ub_inc = false;
  lb_inf = false;
  ub_inf = false;
  lb_null = false;
  ub_null = false;
  contain_empty = false;
  above = false;
}

pub data RangeInclusion : Type 0 where
  inclusive exclusive : RangeInclusion

pub data Error : Type 0 where
  lbound_unbounded ubound_unbounded invalid_input invalid_bound : Error

pub record Range (T : Type 0) : Type 0 where
  pub flags : Flags
  pub lb : T
  pub ub : T

-- The two constructors from values.
unfoldable pub new_range : {T : Type 0} → T → Range T
new_range t = record { flags = no_flags; lb = t; ub = t }

unfoldable pub range_of : {T : Type 0} → T → T → Range T
range_of lb ub = record { flags = record no_flags { lb_inc = true }; lb = lb; ub = ub }

unfoldable pub has_lbound : {T : Type 0} → Range T → Bool
has_lbound r = not (r.flags.empty || (r.flags.lb_null || r.flags.lb_inf))

unfoldable pub has_ubound : {T : Type 0} → Range T → Bool
has_ubound r = not (r.flags.empty || (r.flags.ub_null || r.flags.ub_inf))

unfoldable pub is_empty : {T : Type 0} → Range T → Bool
is_empty r = r.flags.empty

unfoldable pub is_or_contains_empty : {T : Type 0} → Range T → Bool
is_or_contains_empty r = r.flags.empty || r.flags.contain_empty

unfoldable pub lbound_inclusion : {T : Type 0} → Range T → RangeInclusion
lbound_inclusion r = if r.flags.lb_inc then inclusive else exclusive

unfoldable pub ubound_inclusion : {T : Type 0} → Range T → RangeInclusion
ubound_inclusion r = if r.flags.ub_inc then inclusive else exclusive

-- `ri == range_inclusion::inclusive`
abbrev pub is_inclusive : RangeInclusion → Bool
is_inclusive inclusive = true
is_inclusive exclusive = false

abbrev pub with_flags : {T : Type 0} → Flags → Range T → Range T
with_flags f r = record r { flags = f }

unfoldable pub set_lbound_inclusion : {T : Type 0} → RangeInclusion → Range T → Range T
set_lbound_inclusion ri r = with_flags (record (r.flags) { lb_inc = is_inclusive ri }) r

unfoldable pub set_ubound_inclusion : {T : Type 0} → RangeInclusion → Range T → Range T
set_ubound_inclusion ri r = with_flags (record (r.flags) { ub_inc = is_inclusive ri }) r

unfoldable pub clear_lbound : {T : Type 0} → Range T → Range T
unfolding has_lbound has_ubound
clear_lbound r =
    if not (has_lbound r)
    then r
    else let s =
        with_flags
          (record (r.flags) {
            lb_inc = false;
            lb_null = false;
            empty = false;
            contain_empty = false;
            lb_inf = true;
          })
          r in
      if not (has_ubound s)
      then with_flags (record (s.flags) { empty = true }) s
      else with_flags (record (s.flags) { contain_empty = true }) s

unfoldable pub clear_ubound : {T : Type 0} → Range T → Range T
unfolding has_lbound has_ubound
clear_ubound r =
    if not (has_ubound r)
    then r
    else let s =
        with_flags
          (record (r.flags) {
            ub_inc = false;
            ub_null = false;
            empty = false;
            contain_empty = false;
            ub_inf = true;
          })
          r in
      if not (has_lbound s)
      then with_flags (record (s.flags) { empty = true }) s
      else with_flags (record (s.flags) { contain_empty = true }) s

unfoldable pub lbound : {T : Type 0} → Range T → Result Error T
unfolding has_lbound
lbound r = if not (has_lbound r) then throw lbound_unbounded else ok r.lb

unfoldable pub ubound : {T : Type 0} → Range T → Result Error T
unfolding has_ubound
ubound r = if not (has_ubound r) then throw ubound_unbounded else ok r.ub

-- `lbound(val, ri)`; the inclusion is read only where there was no bound.
unfoldable pub set_lbound : {T : Type 0} → T → RangeInclusion → Range T → Range T
unfolding has_lbound has_ubound
set_lbound v ri r =
    if has_lbound r
    then record r { lb = v }
    else let s =
        with_flags
          (record (r.flags) {
            lb_inf = false;
            lb_null = false;
            empty = false;
            contain_empty = false;
            lb_inc = r.flags.lb_inc || is_inclusive ri;
          })
          r in
      if not (has_ubound s)
      then record s { flags = record (s.flags) { contain_empty = true }; lb = v }
      else record s { lb = v }

-- `ubound(val, ri)`
unfoldable pub set_ubound : {T : Type 0} → T → RangeInclusion → Range T → Range T
unfolding has_lbound has_ubound
set_ubound v ri r =
    if has_ubound r
    then record r { ub = v }
    else let s =
        with_flags
          (record (r.flags) {
            ub_inf = false;
            ub_null = false;
            empty = false;
            contain_empty = false;
            ub_inc = r.flags.ub_inc || is_inclusive ri;
          })
          r in
      if not (has_lbound s)
      then record s { flags = record (s.flags) { contain_empty = true }; ub = v }
      else record s { ub = v }
