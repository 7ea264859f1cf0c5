-- ===== src/LargeObject/Histories.antt =====
-- src/data_large_object.cpp: an object is open exactly while its database is in a transaction.
use pq_async.Common.{
  ℕ, ◌≡◌, refl, ap, ◌∙◌, sym, subst, true, false, Bool-cases, inl, inr, List, [], ◌∷◌, Option, none,
  some, Result, ok, throw, if◌then◌else◌,
}
use pq_async.Exec.{begin, commit}
use pq_async.LargeObject.{
  LargeObject, large_object, State, Answers, Step, LoError, LoMode, read_mode, write_mode,
  Operation, already_opened, closed, must_be_closed, server_failed, opens, reads, writes, tells,
  seeks, resizes, closes, unlinks, opened, rollback, open_for_now, conn_lock, unlocking, and_then,
  called, opened_by, lo_opened, open_object, lo_answer, use_opened, lo_closed, close, unlink,
  operate, operate_all,
}
use pq_async.LargeObject.Steps.{
  is_some, AreUp, Rests, Agrees, IsConsistent, on_object, opening, using, closing, rests, finished,
  after, unchanged, conn_lock-Leaves, and_then-Leaves, begin-Leaves, commit-Leaves, rollback-Leaves,
  open_for_now-Leaves,
}

module _ (a : Answers) (up : AreUp a) where
  use_opened-Agrees :
      (s : State)
      → IsConsistent s
      → Agrees
          (if opened s.object then using a.lo s.object else (throw closed, s.object))
          (use_opened a s)
  unfolding use_opened
  use_opened-Agrees s c = elim (Bool-cases (opened s.object)) [
    | inr e ↦ rw e (unchanged s (throw closed) c)
    | inl e ↦
        let l = conn_lock-Leaves true a s.db (rests true s c e) in
        rw e (
          after true 1 (using a.lo s.object) s (conn_lock a) (λ t. unlocking a (lo_answer a.lo t)) l
            (answered a.lo (called s (conn_lock a s.db)) l.rests e (c.descriptor ∙ e)))
  ]
    where
      answered :
          (lo : Option ℕ) (t : State)
          → Rests true 1 t.db
          → opened t.object ≡ true
          → is_some t.object.fd ≡ true
          → Agrees (using lo t.object) (unlocking a (lo_answer lo t))
      answered none t w h f =
          finished true 1 a (throw server_failed, t.object) (lo_answer none t) refl refl w h f
      answered (some n) t w h f =
          finished true 1 a (ok n, t.object) (lo_answer (some n) t) refl refl w h f

  ended :
      (lo : Option ℕ) (t : State)
      → t.object ≡ large_object
      → Rests true 1 t.db
      → Agrees (closing lo) (unlocking a (lo_closed a lo t))
  unfolding lo_closed opened
  ended none t o w =
      let l = rollback-Leaves a.at_end t.db up.end_up w in
      let r : Step = (throw server_failed, called t (rollback a.at_end t.db)) in
      subst (λ x. Agrees (closing none) (unlocking a x))
        (sym (and_then-Leaves false 0 t (rollback a.at_end) (λ u. (throw server_failed, u)) l))
        (finished false 0 a (closing none) r refl o l.rests refl refl)
  ended (some n) t o w =
      let l = commit-Leaves a.at_end t.db up.end_up w in
      let r : Step = (ok 0, called t (commit a.at_end t.db)) in
      subst (λ x. Agrees (closing (some n)) (unlocking a x))
        (sym (and_then-Leaves false 0 t (commit a.at_end) (λ u. (ok 0, u)) l))
        (finished false 0 a (closing (some n)) r refl o l.rests refl refl)

  close-Agrees :
      (s : State)
      → IsConsistent s
      → Agrees (if opened s.object then closing a.lo else (ok 0, s.object)) (close a s)
  unfolding close
  close-Agrees s c = elim (Bool-cases (opened s.object)) [
    | inr e ↦ rw e (unchanged s (ok 0) c)
    | inl e ↦
        let l = conn_lock-Leaves true a s.db (rests true s c e) in
        let t = called s (conn_lock a s.db) in
        rw e (
          after true 1 (closing a.lo) s (conn_lock a)
            (λ t. unlocking a (lo_closed a a.lo (record t { object = large_object }))) l
            (ended a.lo (record t { object = large_object }) refl l.rests))
  ]

  opened_up :
      (m : LoMode) (lo : Option ℕ) (t : State)
      → opened t.object ≡ false
      → Rests true 1 t.db
      → Agrees (opening m lo t.object) (unlocking a (lo_opened m a lo t))
  unfolding lo_opened opened
  opened_up m none t h w =
      let t' = record t { object = record (t.object) { fd = none } } in
      let l = rollback-Leaves a.at_end t.db up.end_up w in
      let r : Step = (throw server_failed, called t' (rollback a.at_end t.db)) in
      subst (λ x. Agrees (opening m none t.object) (unlocking a x))
        (sym (and_then-Leaves false 0 t' (rollback a.at_end) (λ u. (throw server_failed, u)) l))
        (finished false 0 a (opening m none t.object) r refl refl l.rests h refl)
  opened_up read_mode (some n) t h w =
      finished true 1 a (opening read_mode (some n) t.object)
        (ok 0, record t { object = opened_by read_mode n }) refl refl w refl refl
  opened_up write_mode (some n) t h w =
      finished true 1 a (opening write_mode (some n) t.object)
        (ok 0, record t { object = opened_by write_mode n }) refl refl w refl refl

  open_object-Agrees :
      (m : LoMode) (s : State)
      → IsConsistent s
      → Agrees
          (if opened s.object then (throw already_opened, s.object) else opening m a.lo s.object)
          (open_object m a s)
  unfolding open_object
  open_object-Agrees m s c = elim (Bool-cases (opened s.object)) [
    | inl e ↦ rw e (unchanged s (throw already_opened) c)
    | inr e ↦
        let l = open_for_now-Leaves a.at_open s.db up.open_up (rests false s c e) in
        let t = called s (open_for_now a.at_open s.db) in
        let k = conn_lock-Leaves false a t.db l.rests in
        let u = called t (conn_lock a t.db) in
        let b = begin-Leaves a.at_begin u.db up.begin_up k.rests in
        let v = opening m a.lo s.object in
        rw e (
          after false 0 v s (open_for_now a.at_open)
            (λ t.
              and_then t (conn_lock a)
                (λ u. unlocking a (and_then u (begin a.at_begin) (lo_opened m a a.lo))))
            l
            (after false 1 v t (conn_lock a)
              (λ u. unlocking a (and_then u (begin a.at_begin) (lo_opened m a a.lo))) k
              (subst (λ x. Agrees v (unlocking a x))
                (sym (and_then-Leaves true 1 u (begin a.at_begin) (lo_opened m a a.lo) b))
                (opened_up m a.lo (called u (begin a.at_begin u.db)) e b.rests))))
  ]

  unlink-Agrees :
      (s : State)
      → IsConsistent s
      → Agrees
          (if opened s.object then (throw must_be_closed, s.object) else (ok 0, s.object))
          (unlink a s)
  unfolding unlink
  unlink-Agrees s c = elim (Bool-cases (opened s.object)) [
    | inl e ↦ rw e (unchanged s (throw must_be_closed) c)
    | inr e ↦
        let l = open_for_now-Leaves a.at_open s.db up.open_up (rests false s c e) in
        let t = called s (open_for_now a.at_open s.db) in
        let k = conn_lock-Leaves false a t.db l.rests in
        rw e (
          after false 0 (ok 0, s.object) s (open_for_now a.at_open)
            (λ t. and_then t (conn_lock a) (λ u. unlocking a (ok 0, u))) l
            (after false 1 (ok 0, s.object) t (conn_lock a) (λ u. unlocking a (ok 0, u)) k
              (finished false 1 a (ok 0, s.object) (ok 0, called t (conn_lock a t.db)) refl refl
                k.rests e (c.descriptor ∙ e))))
  ]

  operate-Agrees :
      (op : Operation) (s : State)
      → IsConsistent s
      → Agrees (on_object op a.lo s.object) (operate op a s)
  unfolding operate on_object
  operate-Agrees (opens m) s c = open_object-Agrees m s c
  operate-Agrees reads s c = use_opened-Agrees s c
  operate-Agrees writes s c = use_opened-Agrees s c
  operate-Agrees tells s c = use_opened-Agrees s c
  operate-Agrees seeks s c = use_opened-Agrees s c
  operate-Agrees resizes s c = use_opened-Agrees s c
  operate-Agrees closes s c = close-Agrees s c
  operate-Agrees unlinks s c = unlink-Agrees s c

-- The server does what the database asks during each operation.
abbrev pub AllUp : List (Operation × Answers) → Type 0
AllUp [] = Unit
AllUp ((op, a) ∷ rest) = AreUp a × AllUp rest

-- The operations on an object alone.
unfoldable pub on_object_all :
    List (Operation × Answers) → LargeObject → List (Result LoError ℕ) × LargeObject
on_object_all [] o = ([], o)
on_object_all ((op, a) ∷ rest) o =
    let r = on_object op a.lo o in let later = on_object_all rest r.1 in (r.0 ∷ later.0, later.1)

-- Where the server begins, commits and rolls back as it is asked, any history of operations has the
-- results and leaves the object that it has without a database, where an object is open or not and
-- each call of libpq succeeds or fails; and at the end of it, as after each operation, the database
-- is in a transaction and holds its lock exactly while the object is open, no work is left running
-- and only an open object has a descriptor.
pub operate_all-on_object :
    (h : List (Operation × Answers)) (s : State)
    → AllUp h
    → IsConsistent s
    → ((operate_all h s).0 ≡ (on_object_all h s.object).0)
      × ((operate_all h s).1.object ≡ (on_object_all h s.object).1)
      × IsConsistent (operate_all h s).1
unfolding operate_all on_object_all
operate_all-on_object [] s up c = (refl, refl, c)
operate_all-on_object ((op, a) ∷ rest) s (up, ups) c =
    let g = operate-Agrees a up op s c in
    let (e, o, i) = operate_all-on_object rest (operate op a s).1 ups g.consistent in
    (rw (g.result, e, g.object) refl, o ∙ ap (λ x. (on_object_all rest x).1) g.object, i)
