-- ===== src/Params.antt =====
-- `parameter` and `parameters_t` of include/pq-async/data_parameters.h: the parameters of a command
-- and the four arrays in which libpq takes them.
--
-- A method is a function on the members and the next address, with its calls of `new` and `delete`
-- in order. The four arrays are made and deleted together and stand as one block. A parameter and
-- a block have one address each; `delete` leaves the pointers to what it deletes as they are.
pub mod Builds
pub mod Uses
pub mod Dangling
use pq_async.Common.{
  ℕ, zero, suc, ◌+◌, Bool, true, false, List, [], ◌∷◌, ◌++◌, map, Option, some, none, Result, ok,
  throw, Bytes, length, get_elem?, set, erase_idx, leb, if◌then◌else◌,
}

-- What libpq sees of a parameter; no value is a null pointer.
pub record Entry : Type 0 where
  pub oid : ℕ
  pub value : Option Bytes
  pub size : ℕ
  pub format : ℕ

pub record Parameter : Type 0 where
  pub address : ℕ
  pub entry : Entry

-- The arrays at an address.
pub record Arrays : Type 0 where
  pub address : ℕ
  pub entries : List Entry

pub record Parameters : Type 0 where
  pub p : List Parameter
  -- `_p_types`, `_p_values`, `_p_lengths`, `_p_formats`
  pub arrays : Option Arrays

-- `new`, `delete`, and arrays that are handed to libpq, by address.
pub data Event : Type 0 where
  makes deletes hands_over : ℕ → Event

pub data Error : Type 0 where
  out_of_bound : Error

-- The members, the next address, and what was done to memory.
abbrev pub Step : Type 0
Step = Parameters × ℕ × List Event

abbrev pub entries_of : Parameters → List Entry
entries_of self = map (λ q. q.entry) self.p

-- The constructor without parameters.
unfoldable pub new_parameters : Parameters
new_parameters = record { p = []; arrays = none }

-- `cleanup()`
unfoldable pub cleanup : Parameters → List Event
cleanup self = elim self.arrays [ none ↦ [] | some a ↦ deletes a.address ∷ [] ]

abbrev pub deletes_all : List Parameter → List Event
deletes_all ps = map (λ q. deletes q.address) ps

-- The destructor.
unfoldable pub destroy : Parameters → List Event
unfolding cleanup
destroy self = cleanup self ++ deletes_all self.p

unfoldable pub init : Parameters → ℕ → Step
init self next = elim self.arrays [
  | some a ↦ (self, next, [])
  | none ↦ (
    record self { arrays = some (record { address = next; entries = entries_of self }) },
    suc next,
    makes next ∷ [],
  )
]

-- `types`, `values`, `lengths` and `formats` together: the arrays, and the step.
unfoldable pub get_arrays : Parameters → ℕ → Option Arrays × Step
unfolding init
get_arrays self next =
    let r = init self next in
    (
      r.0.arrays,
      (r.0, r.1, r.2 ++ (elim r.0.arrays [ none ↦ [] | some a ↦ hands_over a.address ∷ [] ])),
    )

-- `push_back`
unfoldable pub push_back : Entry → Parameters → ℕ → Step
unfolding cleanup
push_back e self next = (
  record self { p = self.p ++ (record { address = next; entry = e } ∷ []) },
  suc next,
  cleanup self ++ (makes next ∷ []),
)

-- `replace`
unfoldable pub replace : ℕ → Entry → Parameters → ℕ → Result Error Step
unfolding cleanup
replace pos e self next = elim (get_elem? self.p pos) [
  | none ↦ throw out_of_bound
  | some q ↦ ok (
    record self { p = set self.p pos (record { address = next; entry = e }) },
    suc next,
    cleanup self ++ (deletes q.address ∷ makes next ∷ []),
  )
]

-- `remove_at`; the parameter is not deleted.
unfoldable pub remove_at : ℕ → Parameters → ℕ → Result Error Step
remove_at pos self next =
    if leb (length self.p) pos
    then throw out_of_bound
    else ok (record self { p = erase_idx self.p pos }, next, [])

-- `get_parameter`
unfoldable pub get_parameter : ℕ → Parameters → Result Error Parameter
get_parameter pos self = elim (get_elem? self.p pos) [ none ↦ throw out_of_bound | some q ↦ ok q ]

-- `copy_from`: new parameters behind those that are there.
unfoldable pub copy_from : List Parameter → Parameters → ℕ → Step
copy_from [] self next = (self, next, [])
copy_from (q ∷ qs) self next =
    let r =
      copy_from qs (record self { p = self.p ++ (record { address = next; entry = q.entry } ∷ []) })
        (suc next) in
    (r.0, r.1, makes next ∷ r.2)

-- The copy constructor, and the assignment of a copy.
unfoldable pub copy_parameters : Parameters → ℕ → Step
unfolding new_parameters copy_from
copy_parameters b next = copy_from b.p new_parameters next

unfoldable pub assign_copy : Parameters → Parameters → ℕ → Step
unfolding copy_from
assign_copy b self next = copy_from b.p self next

-- The move constructor: the new object, and what is left of the other. Moving a pointer copies it.
unfoldable pub move_parameters : Parameters → Parameters × Parameters
move_parameters b = (b, record b { p = [] })

-- The assignment by move; what `self` held is neither deleted nor kept.
unfoldable pub assign_move : Parameters → Parameters → Parameters × Parameters
assign_move b self = (b, record b { p = [] })
