-- ===== src/Pool/Unowned.antt =====
-- A database that no connection names as its owner keeps its pointer, whatever the pool takes away.
use pq_async.Common.{
  ℕ, zero, suc, ◌≡◌, refl, ◌∙◌, Bool, false, not, List, [], ◌∷◌, ◌++◌, Option, none, some, Bytes,
  ◌==◌, arith, keep_if, Bool-cases, Option-cases, inl, inr, bytes_eq, bytes_lt,
}
use pq_async.Connection.{Connection, Env}
use pq_async.Pool.{
  Pool, Attached, find_pool, sweep, reuse, opened_connection_count, steal_order, steal, store_pool,
  update_conn, stolen_by, detach, first_stealable,
}
use pq_async.Pool.Sweep.{survivors, loses, is_owned_by, sweep_lem}
use pq_async.Pool.Find.{find_pool-put_pool}
use pq_async.Pool.Steal.{steal_loop-first}

module _ (db : ℕ) where
  -- No connection of the list has the database for its owner.
  abbrev pub AllUnowned : List Connection → Type 0
  AllUnowned [] = Unit {0}
  AllUnowned (c ∷ cs) = (is_owned_by db c.owner ≡ false) × AllUnowned cs

  abbrev pub IsUnowned : Pool → Type 0
  IsUnowned p = (k : Bytes) → AllUnowned (find_pool k p.pools)

  -- The pool knows of no connection of the database and leaves its pointer as it is.
  abbrev pub Untold : Attached → Pool → Type 0
  Untold at p = IsUnowned p × (p.attached db ≡ at db)

  AllUnowned-survivors :
      (now k : ℕ) (l : List Connection) → AllUnowned l → AllUnowned (survivors now k l)
  AllUnowned-survivors now k [] h = tt
  AllUnowned-survivors now zero (c ∷ l) h = ground (arith, AllUnowned-survivors now zero l h.1)
  AllUnowned-survivors now (suc k) (c ∷ l) h = (h.0, AllUnowned-survivors now k l h.1)

  AllUnowned-loses : (now k : ℕ) (l : List Connection) → AllUnowned l → loses now db k l ≡ false
  AllUnowned-loses now k [] h = refl
  AllUnowned-loses now zero (c ∷ l) h = ground (arith, AllUnowned-loses now zero l h.1)
  AllUnowned-loses now (suc k) (c ∷ l) h = AllUnowned-loses now k l h.1

  pub sweep-AllUnowned :
      (now : ℕ) (cons : List Connection) (at : Attached)
      → AllUnowned cons
      → AllUnowned (sweep now cons at).0 × ((sweep now cons at).1 db ≡ at db)
  sweep-AllUnowned now cons at h =
      let s = sweep_lem now cons at db in
      (rw (s.0) (AllUnowned-survivors now 5 cons h), s.1 ∙ rw (AllUnowned-loses now 5 cons h))

  pub AllUnowned-append :
      (xs ys : List Connection) → AllUnowned xs → AllUnowned ys → AllUnowned (xs ++ ys)
  AllUnowned-append [] ys a b = b
  AllUnowned-append (x ∷ xs) ys a b = (a.0, AllUnowned-append xs ys a.1 b)

  AllUnowned-keep_if :
      (p : Connection → Bool) (xs : List Connection) → AllUnowned xs → AllUnowned (keep_if p xs)
  AllUnowned-keep_if p [] a = tt
  AllUnowned-keep_if p (x ∷ xs) a = ground (arith, AllUnowned-keep_if p xs a.1)

  first_stealable-unowned :
      (cs : List Connection) {c : Connection}
      → AllUnowned cs
      → first_stealable cs ≡ some c
      → is_owned_by db c.owner ≡ false
  unfolding first_stealable
  first_stealable-unowned [] a h = absurd cc
  first_stealable-unowned (d ∷ cs) {c} a h = ground (arith, first_stealable-unowned cs {c = c} a.1)

  pub AllUnowned-update_conn :
      (id : Bytes) (f : Connection → Connection) (cs : List Connection)
      → ((c : Connection) → is_owned_by db c.owner ≡ false → is_owned_by db (f c).owner ≡ false)
      → AllUnowned cs
      → AllUnowned (update_conn id f cs)
  unfolding update_conn
  AllUnowned-update_conn id f [] h a = tt
  AllUnowned-update_conn id f (c ∷ cs) h a =
      ground (arith, h c a.0, AllUnowned-update_conn id f cs h a.1)

  pub reuse-AllUnowned :
      (env : Env) (owner : ℕ) (cons : List Connection) {id : Bytes} {ds : List Connection}
      → db == owner ≡ false
      → AllUnowned cons
      → reuse env owner cons ≡ some (id, ds)
      → AllUnowned ds
  unfolding reuse
  reuse-AllUnowned env owner [] o a h = absurd cc
  reuse-AllUnowned env owner (c ∷ cs) o a h = elim (Option-cases (reuse env owner cs)) [
    | inl e ↦ ground (arith, e)
    | inr ((id, ds), e) ↦ ground (arith, e, reuse-AllUnowned env owner cs o a.1 e)
  ]

  pub store_pool-IsUnowned :
      (cs : Bytes) (cons : List Connection) (at : Attached) (p : Pool)
      → IsUnowned p
      → AllUnowned cons
      → IsUnowned (store_pool cs cons at p)
  store_pool-IsUnowned cs cons at p b h k =
      rw (find_pool-put_pool k cs cons p.pools)
        (elim (Bool-cases (bytes_eq cs k)) [ inl e ↦ rw e h | inr e ↦ rw e (b k) ])

  detach-unowned :
      (owner : Option ℕ) (at : Attached) → is_owned_by db owner ≡ false → detach owner at db ≡ at db
  unfolding detach
  detach-unowned none at h = refl
  detach-unowned (some o) at h = rw h

  pub opened_connection_count-Untold :
      (now : ℕ) (cs : Bytes) (p : Pool)
      → IsUnowned p
      → Untold p.attached (opened_connection_count now cs p).1
  unfolding opened_connection_count
  opened_connection_count-Untold now cs p u =
      let s = sweep-AllUnowned now (find_pool cs p.pools) p.attached (u cs) in
      let swept = sweep now (find_pool cs p.pools) p.attached in
      (store_pool-IsUnowned cs swept.0 swept.1 p u s.0, s.1)

  pub steal-Untold :
      (env : Env) (owner : ℕ) (cs : Bytes) (timeout : ℕ) (readings : List ℕ)
      (cons : List Connection) (at : Attached) (p : Pool)
      → db == owner ≡ false
      → IsUnowned p
      → AllUnowned cons
      → Untold at (steal env owner cs timeout readings cons at p).1
  unfolding steal
  steal-Untold env owner cs timeout readings cons at p o u a =
      let last = p.last_stolen_conn_id in
      let order = steal_order last cons in
      let same = steal_loop-first env.now timeout order readings in
      elim (Option-cases (first_stealable order)) [
        | inl e ↦
            rw (same, e, steal)
              (opened_connection_count-Untold env.now cs (store_pool cs cons at p)
                (store_pool-IsUnowned cs cons at p u a))
        | inr (c, e) ↦
            let ordered : AllUnowned order =
              unfold steal_order in
              AllUnowned-append (keep_if (λ x. bytes_lt last x.id) cons)
                (keep_if (λ x. not (bytes_lt last x.id)) cons)
                (AllUnowned-keep_if (λ x. bytes_lt last x.id) cons a)
                (AllUnowned-keep_if (λ x. not (bytes_lt last x.id)) cons a) in
            let updated =
              AllUnowned-update_conn c.id (stolen_by env owner) cons (λ d _. unfold stolen_by in o)
                a in
            rw (same, e, steal)
              (
                store_pool-IsUnowned cs (update_conn c.id (stolen_by env owner) cons)
                    (detach c.owner at) p u updated,
                detach-unowned c.owner at (first_stealable-unowned order ordered e),
              )
      ]
