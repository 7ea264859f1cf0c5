-- ===== src/Pool/Sharing.antt =====
-- Who is told when a connection changes hands. A connection that is created behind the first gets
-- no owner, so its database is not told when the connection is stolen.
use pq_async.Common.{
  ℕ, ◌<◌, ◌≡◌, refl, ◌∙◌, false, List, [], ◌∷◌, ◌++◌, none, some, Bytes, ok, ◌==◌, arith, length,
  if◌then◌else◌, ltb, Bool-cases, Option-cases, inl, inr,
}
use pq_async.Connection.{Connection, Env, connection}
use pq_async.Pool.{
  Pool, Attached, find_pool, sweep, reuse, assign_sized, get_connection, attach, store_pool,
  update_conn,
}
use pq_async.Pool.Sweep.{is_owned_by}
use pq_async.Pool.Bounds.{
  create_lem, assign_first_lem, locked_new, count_up, Event, gets, counts, uses, happen, history,
}
use pq_async.Pool.Unowned.{
  AllUnowned, IsUnowned, Untold, sweep-AllUnowned, AllUnowned-append, reuse-AllUnowned,
  store_pool-IsUnowned, opened_connection_count-Untold, steal-Untold, AllUnowned-update_conn,
}
use pq_async.Pool.Outcome.{NoneFree, NoneFree-reuse}

-- The event is no call for the database, and names it as nobody's owner.
abbrev pub IsForOther : ℕ → Event → Type 0
IsForOther db (gets env owner cs timeout_ms readings) = db == owner ≡ false
IsForOther db (counts now cs) = Unit {0}
IsForOther db (uses cs id f) =
    (c : Connection) → is_owned_by db c.owner ≡ false → is_owned_by db (f c).owner ≡ false

abbrev pub IsForOthers : ℕ → List Event → Type 0
IsForOthers db [] = Unit {0}
IsForOthers db (e ∷ es) = IsForOther db e × IsForOthers db es

module _ (num_to_str : ℕ → Bytes) (db : ℕ) where
  assign_sized-Untold :
      (env : Env) (owner : ℕ) (cs : Bytes) (timeout_ms : ℕ) (readings : List ℕ)
      (cons : List Connection) (at : Attached) (p : Pool)
      → db == owner ≡ false
      → IsUnowned db p
      → AllUnowned db cons
      → Untold db at
          (assign_sized num_to_str env owner cs timeout_ms readings (length cons) cons at p).1
  unfolding assign_sized
  assign_sized-Untold env owner cs timeout_ms readings cons at p o u a =
      elim (Bool-cases (ltb (length cons) p.max_conn)) [
        | inr full ↦ rw full (steal-Untold db env owner cs timeout_ms readings cons at p o u a)
        | inl room ↦ elim (Option-cases (reuse env owner cons)) [
          | inl e ↦
              rw (room, e, create_lem num_to_str env cs cons at p)
                (
                  store_pool-IsUnowned db cs (cons ++ locked_new num_to_str env cs p ∷ []) at
                      (count_up p) u
                      (AllUnowned-append db cons (locked_new num_to_str env cs p ∷ []) a
                        (unfold connection in (refl, tt))),
                  refl,
                )
          | inr ((id, ds), e) ↦
              rw (room, e)
                (
                  store_pool-IsUnowned db cs ds at p u (reuse-AllUnowned db env owner cons o a e),
                  refl,
                )
        ]
      ]

  get_connection-Untold :
      (env : Env) (owner : ℕ) (cs : Bytes) (timeout_ms : ℕ) (readings : List ℕ) (p : Pool)
      → db == owner ≡ false
      → IsUnowned db p
      → Untold db p.attached (get_connection num_to_str env owner cs timeout_ms readings p).1
  unfolding get_connection
  get_connection-Untold env owner cs timeout_ms readings p o u =
      let swept = sweep env.now (find_pool cs p.pools) p.attached in
      let s = sweep-AllUnowned db env.now (find_pool cs p.pools) p.attached (u cs) in
      elim (Bool-cases (length swept.0 == 0)) [
        | inl empty ↦
            rw (empty, assign_first_lem num_to_str env owner cs timeout_ms readings swept.1 p)
              (
                store_pool-IsUnowned db cs
                    (record (locked_new num_to_str env cs p) { owner = some owner } ∷ []) swept.1
                    (count_up p) u (o, tt),
                s.1,
              )
        | inr left ↦
            let r =
              assign_sized-Untold env owner cs timeout_ms readings swept.0 swept.1 p o u s.0 in
            rw left (r.0, r.1 ∙ s.1)
      ]

  happen-Untold :
      (e : Event) (p : Pool)
      → IsForOther db e
      → IsUnowned db p
      → Untold db p.attached (happen num_to_str e p)
  unfolding happen
  happen-Untold (gets env owner cs timeout_ms readings) p o u =
      get_connection-Untold env owner cs timeout_ms readings p o u
  happen-Untold (counts now cs) p o u = opened_connection_count-Untold db now cs p u
  happen-Untold (uses cs id f) p o u = (
    store_pool-IsUnowned db cs (update_conn id f (find_pool cs p.pools)) p.attached p u
        (AllUnowned-update_conn db id f (find_pool cs p.pools) o (u cs)),
    refl,
  )

  history-Untold :
      (es : List Event) (p : Pool)
      → IsForOthers db es
      → IsUnowned db p
      → Untold db p.attached (history num_to_str es p)
  unfolding history
  history-Untold [] p o u = (u, refl)
  history-Untold (e ∷ es) p o u =
      let now = happen-Untold e p o.0 u in
      let later = history-Untold es (happen num_to_str e p) o.1 now.0 in (later.0, later.1 ∙ now.1)

  -- Below the limit and with all connections held, a new one is made, and it has no owner.
  get_connection_created :
      (env : Env) (owner : ℕ) (cs : Bytes) (timeout_ms : ℕ) (readings : List ℕ) (p : Pool)
      → let swept = sweep env.now (find_pool cs p.pools) p.attached in
        0 < length swept.0
        → length swept.0 < p.max_conn
        → NoneFree swept.0
        → get_connection num_to_str env owner cs timeout_ms readings p ≡ (
          ok (num_to_str p.next_id),
          store_pool cs (swept.0 ++ locked_new num_to_str env cs p ∷ []) swept.1 (count_up p),
        )
  unfolding get_connection assign_sized
  get_connection_created env owner cs timeout_ms readings p some_left room held =
      let swept = sweep env.now (find_pool cs p.pools) p.attached in
      ground (
        arith,
        NoneFree-reuse env owner swept.0 held,
        create_lem num_to_str env cs swept.0 swept.1 p,
      )

  attach_ok :
      (env : Env) (owner d : ℕ) (cs : Bytes) (timeout_ms : ℕ) (readings : List ℕ) (p : Pool)
      {id : Bytes} {r : Pool}
      → p.attached owner ≡ none
      → attach num_to_str env owner cs timeout_ms readings p ≡ (ok id, r)
      → (r.attached d ≡ (
          if d == owner
          then some id
          else (get_connection num_to_str env owner cs timeout_ms readings p).1.attached d))
        × (r.pools ≡ (get_connection num_to_str env owner cs timeout_ms readings p).1.pools)
  unfolding attach
  attach_ok env owner d cs timeout_ms readings p a h = ground arith

  -- Two databases at one connection. Database `db` gets a connection that is newly made while
  -- others exist, below the limit; after any events that are for others, `other` asks and is given
  -- the same connection. Then the pointers of both lead to it.
  pub attach_shared :
      (env later : Env) (other : ℕ) (cs : Bytes) (timeout_ms : ℕ) (readings : List ℕ)
      (es : List Event) (p : Pool) {id : Bytes} {q r : Pool}
      → p.attached db ≡ none
      → IsUnowned db p
      → 0 < length (sweep env.now (find_pool cs p.pools) p.attached).0
      → length (sweep env.now (find_pool cs p.pools) p.attached).0 < p.max_conn
      → NoneFree (sweep env.now (find_pool cs p.pools) p.attached).0
      → attach num_to_str env db cs timeout_ms readings p ≡ (ok id, q)
      → IsForOthers db es
      → db == other ≡ false
      → (history num_to_str es q).attached other ≡ none
      → attach num_to_str later other cs timeout_ms readings (history num_to_str es q) ≡ (ok id, r)
      → (r.attached db ≡ some id) × (r.attached other ≡ some id)
  attach_shared env later other cs timeout_ms readings es p {id} {q} {r} none_yet u some_left room
        held first o ne none_other second =
      let swept = sweep env.now (find_pool cs p.pools) p.attached in
      let made = get_connection_created env db cs timeout_ms readings p some_left room held in
      let mine = attach_ok env db db cs timeout_ms readings p none_yet first in
      let clean = sweep-AllUnowned db env.now (find_pool cs p.pools) p.attached (u cs) in
      let unowned : IsUnowned db q = λ k.
        rw (mine.1, made)
          (store_pool-IsUnowned db cs (swept.0 ++ locked_new num_to_str env cs p ∷ []) swept.1 p u
            (AllUnowned-append db swept.0 (locked_new num_to_str env cs p ∷ []) clean.0
              (unfold connection in (refl, tt)))
            k) in
      let since = history-Untold es q o unowned in
      let final =
        get_connection-Untold later other cs timeout_ms readings (history num_to_str es q) ne
          since.0 in
      let theirs =
        attach_ok later other db cs timeout_ms readings (history num_to_str es q) none_other
          second in
      let others =
        attach_ok later other other cs timeout_ms readings (history num_to_str es q) none_other
          second in
      (ground (arith, theirs.0, final.1, since.1, mine.0, ne), ground (arith, others.0))
