-- ===== src/Range/Bounds.antt =====
-- `range<T>` of include/pq-async/pg_type_range_def.h: setting and clearing the bounds.
use pq_async.Common.{
  ◌≡◌, refl, true, false, not, ◌&&◌, ◌||◌, List, [], ◌∷◌, ok, throw, if◌then◌else◌, arith,
}
use pq_async.Range.{
  RangeInclusion, inclusive, ubound_unbounded, Range, range_of, has_lbound, has_ubound,
  is_or_contains_empty, lbound_inclusion, ubound_inclusion, set_lbound_inclusion,
  set_ubound_inclusion, clear_lbound, clear_ubound, lbound, ubound, set_lbound, set_ubound,
}

-- A range that is not empty contains the empty range just where a bound is missing.
abbrev pub IsCoherent : {T : Type 0} → Range T → Type 0
IsCoherent r = r.flags.empty ≡ false → r.flags.contain_empty ≡ not (has_lbound r && has_ubound r)

pub data Edit (T : Type 0) : Type 0 where
  sets_lbound sets_ubound : T → RangeInclusion → Edit T
  clears_lbound clears_ubound : Edit T
  sets_lbound_inclusion sets_ubound_inclusion : RangeInclusion → Edit T

abbrev pub edit : {T : Type 0} → Edit T → Range T → Range T
edit (sets_lbound v ri) r = set_lbound v ri r
edit (sets_ubound v ri) r = set_ubound v ri r
edit clears_lbound r = clear_lbound r
edit clears_ubound r = clear_ubound r
edit (sets_lbound_inclusion ri) r = set_lbound_inclusion ri r
edit (sets_ubound_inclusion ri) r = set_ubound_inclusion ri r

abbrev pub edit_all : {T : Type 0} → List (Edit T) → Range T → Range T
edit_all [] r = r
edit_all (e ∷ es) r = edit_all es (edit e r)

edit-IsCoherent : {T : Type 0} (e : Edit T) (r : Range T) → IsCoherent r → IsCoherent (edit e r)
unfolding has_lbound has_ubound set_lbound set_ubound clear_lbound clear_ubound set_lbound_inclusion
    set_ubound_inclusion
edit-IsCoherent (sets_lbound v ri) r c = ground arith
edit-IsCoherent (sets_ubound v ri) r c = ground arith
edit-IsCoherent clears_lbound r c = ground arith
edit-IsCoherent clears_ubound r c = ground arith
edit-IsCoherent (sets_lbound_inclusion ri) r c = ground arith
edit-IsCoherent (sets_ubound_inclusion ri) r c = ground arith

edit_all-IsCoherent :
    {T : Type 0} (es : List (Edit T)) (r : Range T) → IsCoherent r → IsCoherent (edit_all es r)
edit_all-IsCoherent [] r c = c
edit_all-IsCoherent (e ∷ es) r c = edit_all-IsCoherent es (edit e r) (edit-IsCoherent e r c)

-- Whatever is set and cleared on a range made of two values, in any order, it says that it is or
-- contains the empty range just where one of its bounds is missing.
pub edit_all-is_or_contains_empty :
    {T : Type 0} (es : List (Edit T)) (lb ub : T)
    → let r = edit_all es (range_of lb ub) in
      is_or_contains_empty r ≡ not (has_lbound r && has_ubound r)
edit_all-is_or_contains_empty {T} es lb ub =
    let r = edit_all es (range_of lb ub) in
    let c : IsCoherent r =
      edit_all-IsCoherent es (range_of lb ub)
        (λ e. unfold range_of has_lbound has_ubound in refl) in
    unfold is_or_contains_empty has_lbound has_ubound in ground arith

-- Setting the lower bound makes it the given value. The upper bound is the one from before, with
-- its inclusion, unless there was none because the range was empty: then it is what was left of it.
-- The inclusion of a lower bound that was there already is kept, whatever is asked for.
pub set_lbound_lem :
    {T : Type 0} (v : T) (ri : RangeInclusion) (r : Range T)
    → let s = set_lbound v ri r in
      (lbound s ≡ ok v)
      × (ubound s ≡ (if r.flags.ub_null || r.flags.ub_inf then throw ubound_unbounded else ok r.ub))
      × (ubound_inclusion s ≡ ubound_inclusion r)
      × (lbound_inclusion s
          ≡ (if has_lbound r then lbound_inclusion r else if r.flags.lb_inc then inclusive else ri))
unfolding lbound ubound set_lbound has_lbound has_ubound lbound_inclusion ubound_inclusion
set_lbound_lem v ri r = ground arith

-- Setting the lower bound that was cleared, with its inclusion, gives the range back.
pub set_lbound-clear_lbound :
    {T : Type 0} (r : Range T)
    → IsCoherent r
    → has_lbound r ≡ true
    → r.flags.lb_null ≡ false
    → set_lbound r.lb (lbound_inclusion r) (clear_lbound r) ≡ r
unfolding set_lbound clear_lbound has_lbound has_ubound lbound_inclusion
set_lbound-clear_lbound r c h n = ground arith
