-- ===== src/Tests/ParameterLists.antt =====
-- include/pq-async/data_parameters.h: `parameters_t`.
use pq_async.Common.{ℕ, ◌+◌, ◌≡◌, ◌≤◌, refl, [], ◌∷◌, ◌++◌, some, none, codes, ok, throw}
use pq_async.Params.{
  Entry, Parameters, makes, deletes, hands_over, entries_of, new_parameters, destroy, get_arrays,
  push_back, replace, remove_at, out_of_bound, copy_parameters, assign_copy, move_parameters,
}
use pq_async.Params.Builds.{pushes, replaces, build_all, spec, made, deleted, owned}
use pq_async.Params.Uses.{use_all, repeated, lifetime, lifetime-balanced}
use pq_async.Params.Dangling.{
  push_back-get_arrays, move_parameters-destroy, copy_parameters-assign_copy,
}

abbrev entry : ℕ → Entry
entry n = record { oid = n; value = some (codes "v"); size = 1; format = 0 }

abbrev used : Parameters
used = record {
  p = record { address = 1; entry = entry 5 } ∷ [];
  arrays = some (record { address = 2; entries = entry 5 ∷ [] });
}

removed : remove_at 1 used 3 ≡ throw out_of_bound
unfolding remove_at
removed = refl

replaced_late :
    replace 0 (entry 6) used 3
    ≡ ok (
      record used { p = record { address = 3; entry = entry 6 } ∷ [] },
      4,
      deletes 2 ∷ deletes 1 ∷ makes 3 ∷ [],
    )
unfolding replace
replaced_late = refl

lifetime-balanced_example :
    let bs = pushes (entry 1) ∷ replaces 0 (entry 2) ∷ replaces 4 (entry 3) ∷ [] in
    let built = build_all bs new_parameters 0 in
    ((use_all 2 built.0 built.1).0
      ≡ repeated 2 (some (record { address = built.1; entries = spec bs [] })))
    × ((a : ℕ) → deleted a (use_all 2 built.0 built.1).1.2 ≡ 0)
    × ((a : ℕ)
        → (made a (lifetime bs 2) ≡ deleted a (lifetime bs 2)) × (made a (lifetime bs 2) ≤ 1))
lifetime-balanced_example =
    lifetime-balanced (pushes (entry 1) ∷ replaces 0 (entry 2) ∷ replaces 4 (entry 3) ∷ []) 1

push_back-get_arrays_example :
    let s = push_back (entry 7) used 3 in
    (s.2 ≡ deletes 2 ∷ makes 3 ∷ [])
    × (get_arrays s.0 s.1
        ≡ (some (record { address = 2; entries = entry 5 ∷ [] }), (s.0, s.1, hands_over 2 ∷ [])))
    × (deleted 2 (s.2 ++ destroy s.0) ≡ 2 + owned 2 s.0.p)
push_back-get_arrays_example =
    push_back-get_arrays (entry 7) used 3 (record { address = 2; entries = entry 5 ∷ [] }) refl

move_parameters-destroy_run :
    deleted 2 (destroy (move_parameters used).0 ++ destroy (move_parameters used).1)
    ≡ 2 + owned 2 used.p
move_parameters-destroy_run =
    move_parameters-destroy used (record { address = 2; entries = entry 5 ∷ [] }) refl

copy_parameters-assign_copy_run :
    (entries_of (copy_parameters used 3).0 ≡ entries_of used)
    × ((copy_parameters used 3).0.arrays ≡ none)
    × (entries_of (assign_copy used used 3).0 ≡ entries_of used ++ entries_of used)
    × ((assign_copy used used 3).0.arrays ≡ used.arrays)
copy_parameters-assign_copy_run = copy_parameters-assign_copy used used 3
