-- ===== src/Pool/Destroy.antt =====
-- The destructor `~connection_pool`: the loop over the connections of one connection string.
use pq_async.Common.{
  ℕ, zero, suc, ◌≤◌, ◌≡◌, refl, ap, List, [], ◌∷◌, ◌++◌, none, some, arith, length, get_elem?,
  erase_idx, append_assoc, append-nil, length-append,
}
use pq_async.Connection.{Connection}
use pq_async.Pool.{Attached, detach}
use pq_async.Pool.Sweep.{get_elem?-middle}

-- What one vector comes to: the connections that were deleted, the first at the front, those left
-- in the vector when it is deleted, which nothing closes, and the pointers of the databases.
pub record Destroyed : Type 0 where
  pub deleted : List Connection
  pub left : List Connection
  pub attached : Attached

-- `for(unsigned int i = 0; i < cons->size(); ++i) { .. delete (*cons)[i]; cons->erase(begin() + i);
-- }` on fuel.
unfoldable pub destroy_loop : ℕ → ℕ → List Connection → Attached → Destroyed
destroy_loop zero i cons at = record { deleted = []; left = cons; attached = at }
destroy_loop (suc f) i cons at = elim (get_elem? cons i) [
  | none ↦ record { deleted = []; left = cons; attached = at }
  | some c ↦
      let rest = destroy_loop f (suc i) (erase_idx cons i) (detach c.owner at) in
      record rest { deleted = c ∷ rest.deleted }
]

unfoldable pub destroy_pool : List Connection → Attached → Destroyed
destroy_pool cons at = destroy_loop (length cons) 0 cons at

-- Every second element, from the first or from the second.
abbrev pub evens : List Connection → List Connection
evens [] = []
evens (c ∷ []) = c ∷ []
evens (c ∷ d ∷ cs) = c ∷ evens cs

abbrev pub odds : List Connection → List Connection
odds [] = []
odds (c ∷ []) = []
odds (c ∷ d ∷ cs) = d ∷ odds cs

get_elem?-end : (i : ℕ) (xs : List Connection) → length xs ≤ i → get_elem? xs i ≡ none
get_elem?-end i [] h = refl
get_elem?-end zero (x ∷ xs) h = absurd (omega arith)
get_elem?-end (suc i) (x ∷ xs) h = get_elem?-end i xs (omega arith)

-- One round, behind the connections that were skipped.
destroy_loop_step :
    (f i : ℕ) (xs ys : List Connection) (c : Connection) (at : Attached)
    → length xs ≡ i
    → let rest = destroy_loop f (suc i) (xs ++ ys) (detach c.owner at) in
      destroy_loop (suc f) i (xs ++ (c ∷ ys)) at ≡ record rest { deleted = c ∷ rest.deleted }
unfolding destroy_loop
destroy_loop_step f i xs ys c at h = ground (arith, get_elem?-middle i xs ys c h)

destroy_loop_stop :
    (f i : ℕ) (xs : List Connection) (at : Attached)
    → length xs ≤ i
    → destroy_loop f i xs at ≡ record { deleted = []; left = xs; attached = at }
unfolding destroy_loop
destroy_loop_stop zero i xs at h = refl
destroy_loop_stop (suc f) i xs at h = rw (get_elem?-end i xs h, destroy_loop)

destroy_loop_lem :
    (f i : ℕ) (xs l : List Connection) (at : Attached)
    → length xs ≡ i
    → length l ≤ f
    → ((destroy_loop f i (xs ++ l) at).deleted ≡ evens l)
      × ((destroy_loop f i (xs ++ l) at).left ≡ xs ++ odds l)
destroy_loop_lem f i xs [] at h le =
    rw (append-nil, destroy_loop_stop f i xs at (omega arith)) (refl, refl)
destroy_loop_lem zero i xs (c ∷ l) at h le = absurd (omega arith)
destroy_loop_lem (suc f) i xs (c ∷ []) at h le =
    let step = destroy_loop_step f i xs [] c at h in
    let stop = destroy_loop_stop f (suc i) xs (detach c.owner at) (omega arith) in
    rw (step, append-nil, stop) (refl, refl)
destroy_loop_lem (suc f) i xs (c ∷ d ∷ l) at h le =
    let step = destroy_loop_step f i xs (d ∷ l) c at h in
    let more = length-append xs (d ∷ []) in
    let rest =
      destroy_loop_lem f (suc i) (xs ++ d ∷ []) l (detach c.owner at) (omega arith) (omega arith) in
    let again = rw (append_assoc xs (d ∷ []) l, append_assoc xs (d ∷ []) (odds l)) at rest in
    rw step (ap (◌∷◌ c) again.0, again.1)

-- The loop steps over a connection each time that it erases one: it deletes the first, the third
-- and so on, and leaves the second, the fourth and so on in the vector, not deleted.
pub destroy_pool_lem :
    (cons : List Connection) (at : Attached)
    → ((destroy_pool cons at).deleted ≡ evens cons) × ((destroy_pool cons at).left ≡ odds cons)
unfolding destroy_pool
destroy_pool_lem cons at = destroy_loop_lem (length cons) 0 [] cons at refl (omega arith)
