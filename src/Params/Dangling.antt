-- ===== src/Params/Dangling.antt =====
-- include/pq-async/data_parameters.h: what goes wrong with arrays that stay behind, and copies.
use mathlib.Core.List.{map-append}
use pq_async.Common.{
  ℕ, suc, ◌+◌, ◌≡◌, refl, ◌∙◌, List, [], ◌∷◌, ◌++◌, append_assoc, append-nil, map, some, none,
  count_if-append, arith, sym,
}
use pq_async.Params.{
  Entry, Parameter, Arrays, Parameters, makes, deletes, hands_over, entries_of, new_parameters,
  cleanup, deletes_all, destroy, get_arrays, push_back, copy_from, copy_parameters, assign_copy,
  move_parameters,
}
use pq_async.Params.Builds.{is_delete, deleted, owned}
use pq_async.Params.Uses.{deleted-deletes_all}

-- A parameter that is pushed behind a use deletes the arrays, and the next use hands the deleted
-- arrays over again, without the new parameter; the destructor then deletes them a second time.
pub push_back-get_arrays :
    (e : Entry) (self : Parameters) (next : ℕ) (a : Arrays)
    → self.arrays ≡ some a
    → let s = push_back e self next in
      (s.2 ≡ deletes a.address ∷ makes next ∷ [])
      × (get_arrays s.0 s.1 ≡ (some a, (s.0, s.1, hands_over a.address ∷ [])))
      × (deleted a.address (s.2 ++ destroy s.0) ≡ 2 + owned a.address s.0.p)
unfolding push_back get_arrays destroy
push_back-get_arrays e self next a h =
    ground (arith, h, deleted-deletes_all a.address (push_back e self next).0.p)

-- A move leaves the arrays with both objects, and their destructors delete them twice.
pub move_parameters-destroy :
    (b : Parameters) (a : Arrays)
    → b.arrays ≡ some a
    → let (to, from) = move_parameters b in
      deleted a.address (destroy to ++ destroy from) ≡ 2 + owned a.address b.p
unfolding move_parameters destroy cleanup
move_parameters-destroy b a h = rw h (
    ground (
      arith,
      count_if-append (is_delete a.address) (deletes_all b.p) (deletes a.address ∷ []),
      deleted-deletes_all a.address b.p,
    ))

copy_from-entries :
    (qs : List Parameter) (self : Parameters) (next : ℕ)
    → (entries_of (copy_from qs self next).0 ≡ entries_of self ++ map (λ q. q.entry) qs)
      × ((copy_from qs self next).0.arrays ≡ self.arrays)
unfolding copy_from
copy_from-entries [] self next = (sym (append-nil _), refl)
copy_from-entries (q ∷ qs) self next =
    let new : Parameter = record { address = next; entry = q.entry } in
    let ih = copy_from-entries qs (record self { p = self.p ++ (new ∷ []) }) (suc next) in
    (ih.0 ∙ rw (map-append (λ (r : Parameter). r.entry) self.p (new ∷ []), append_assoc), ih.1)

-- A copy has the entries of the other object and no arrays. An assignment puts them behind the
-- entries that are there, and keeps the arrays, so that libpq gets the old entries again.
pub copy_parameters-assign_copy :
    (b self : Parameters) (next : ℕ)
    → (entries_of (copy_parameters b next).0 ≡ entries_of b)
      × ((copy_parameters b next).0.arrays ≡ none)
      × (entries_of (assign_copy b self next).0 ≡ entries_of self ++ entries_of b)
      × ((assign_copy b self next).0.arrays ≡ self.arrays)
unfolding copy_parameters assign_copy
copy_parameters-assign_copy b self next =
    let c = copy_from-entries b.p new_parameters next in
    let d = copy_from-entries b.p self next in unfold new_parameters in (c.0, c.1, d.0, d.1)
