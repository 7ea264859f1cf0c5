-- ===== src/Pool/Find.antt =====
-- The map of pools, and writes through pointers.
use pq_async.Common.{
  ℕ, ◌≡◌, refl, ap, true, List, [], ◌∷◌, Bytes, arith, bytes_eq, bytes_eq_iff, length,
  if◌then◌else◌,
}
use pq_async.Connection.{Connection}
use pq_async.Pool.{find_pool, put_pool, update_conn}

pub bytes_eq_refl : (a : Bytes) → bytes_eq a a ≡ true
bytes_eq_refl a = (bytes_eq_iff a a).1 refl

pub find_pool-put_pool :
    (k cs : Bytes) (cons : List Connection) (ps : List (Bytes × List Connection))
    → find_pool k (put_pool cs cons ps) ≡ (if bytes_eq cs k then cons else find_pool k ps)
unfolding find_pool put_pool
find_pool-put_pool k cs cons [] = refl
find_pool-put_pool k cs cons ((j, old) ∷ ps) =
    ground (
      arith,
      find_pool-put_pool k cs cons ps,
      bytes_eq_iff j cs,
      bytes_eq_iff j k,
      bytes_eq_iff cs k,
    )

pub find_pool-put_pool_self :
    (cs : Bytes) (cons : List Connection) (ps : List (Bytes × List Connection))
    → find_pool cs (put_pool cs cons ps) ≡ cons
find_pool-put_pool_self cs cons ps = rw (find_pool-put_pool cs cs cons ps, bytes_eq_refl cs)

pub length-update_conn :
    (id : Bytes) (f : Connection → Connection) (cons : List Connection)
    → length (update_conn id f cons) ≡ length cons
unfolding update_conn
length-update_conn id f [] = refl
length-update_conn id f (c ∷ cs) = ap (λ n. ℕ.suc n) (length-update_conn id f cs)
