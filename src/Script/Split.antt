-- ===== src/Script/Split.antt =====
-- Whole scripts.
use pq_async.Common.{
  ℕ, ◌≡◌, refl, ap, ◌∙◌, ◌≢◌, false, List, [], ◌∷◌, ◌++◌, Bytes, ◌==◌, if◌then◌else◌, append_assoc,
  append-nil,
}
use pq_async.Script.{
  Strings, Scanner, plain, add, become, at_char, split_loop, push_query, is_copy_stdin, mode_after,
  split_queries,
}
use pq_async.Script.Pieces.{Query, append_cons_ne, run, run_to}
use pq_async.Script.Reads.{IsClear, run-Query}

-- A script of queries: each but the last ends with a `;`, the last with a `;` or with a byte that
-- is no quote and no dash. The second list has what goes into each query.
pub data Script : Bytes → List Bytes → Type 0 where
  ended : {src vis : Bytes} → Query src vis → Script (src ++ b';' ∷ []) (vis ∷ [])
  open_end :
      {src vis : Bytes} (n : ℕ)
      → IsClear n
      → n == b';' ≡ false
      → Query src vis
      → Script (src ++ n ∷ []) ((vis ++ n ∷ []) ∷ [])
  next :
      {src vis rest : Bytes} {others : List Bytes}
      → Query src vis
      → Script rest others
      → Script (src ++ (b';' ∷ rest)) (vis ∷ others)

module _ (strings : Strings) where
  open strings use {trim}

  -- Each query trimmed, without those that are empty then.
  abbrev pub queries_of : List Bytes → List Bytes
  queries_of [] = []
  queries_of (v ∷ vs) = push_query strings (trim v) [] ++ queries_of vs

  -- No query begins "copy " and ends " stdin" in the words of `is_copy_stdin`.
  abbrev pub HasNoCopy : List Bytes → Type 0
  HasNoCopy [] = Unit {0}
  HasNoCopy (v ∷ vs) = (is_copy_stdin strings (trim v) ≡ false) × HasNoCopy vs

  push_query_lem :
      (q : Bytes) (qs : List Bytes) → push_query strings q qs ≡ qs ++ push_query strings q []
  unfolding push_query
  push_query_lem [] qs = rw append-nil
  push_query_lem (c ∷ q) qs = refl

  Script-ne : {src : Bytes} {vs : List Bytes} → Script src vs → src ≢ []
  Script-ne (ended {src} q) = append_cons_ne src [] b';'
  Script-ne (open_end {src} n a b q) = append_cons_ne src [] n
  Script-ne (next {src} {vis} {rest} q t) = append_cons_ne src rest b';'

  plain_mode : (q : Bytes) → is_copy_stdin strings q ≡ false → mode_after strings q ≡ plain
  unfolding mode_after
  plain_mode [] h = refl
  plain_mode (c ∷ q) h = unfold is_copy_stdin in rw h

  pub semicolon_lem :
      (r : Bytes) (s : Scanner)
      → is_copy_stdin strings (trim s.cur_qry) ≡ false
      → at_char strings plain b';' r (become plain s) ≡ (
        record {
          mode = plain;
          cur_qry = [];
          queries = s.queries ++ push_query strings (trim s.cur_qry) [];
        },
        0,
      )
  unfolding at_char
  semicolon_lem r s h =
      rw (push_query_lem (trim s.cur_qry) s.queries, plain_mode (trim s.cur_qry) h)

  pub at_end_lem :
      (c : ℕ) (s : Scanner)
      → (run strings (c ∷ []) s).queries
        ≡ s.queries
          ++ push_query strings (trim (if c == b';' then s.cur_qry else s.cur_qry ++ c ∷ [])) []
  unfolding split_loop
  at_end_lem c s =
      push_query_lem (trim (if c == b';' then s.cur_qry else s.cur_qry ++ c ∷ [])) s.queries

  -- At the start of a query.
  abbrev pub fresh : List Bytes → Scanner
  fresh qs = record { mode = plain; cur_qry = []; queries = qs }

  run-Script :
      {src : Bytes} {vs : List Bytes} (qs : List Bytes)
      → Script src vs
      → HasNoCopy vs
      → (run strings src (fresh qs)).queries ≡ qs ++ queries_of vs
  run-Script qs (ended {src} {vis} q) h =
      ap (λ t. t.queries) (run-Query strings b';' [] (refl, refl, refl) q (fresh qs))
      ∙ at_end_lem b';' (add vis (fresh qs))
      ∙ rw append-nil
  run-Script qs (open_end {src} {vis} n ok other q) h =
      ap (λ t. t.queries) (run-Query strings n [] ok q (fresh qs))
      ∙ at_end_lem n (add vis (fresh qs))
      ∙ rw (other, append-nil)
  run-Script qs (next {src} {vis} {rest} {others} q t) h =
      ap (λ t. t.queries)
        (run-Query strings b';' rest (refl, refl, refl) q (fresh qs)
          ∙ run_to strings b';' rest (add vis (fresh qs)) (Script-ne t)
              (semicolon_lem rest (add vis (fresh qs)) h.0))
      ∙ run-Script (qs ++ push_query strings (trim vis) []) t h.1
      ∙ append_assoc qs (push_query strings (trim vis) []) (queries_of others)

  -- A script of the form of `Script` whose queries hold no COPY is split at the `;` that stand
  -- outside literals, quoted identifiers, dollar quotes and remarks, and nowhere else: it gives the
  -- text of each query as it was written, literals and all, without the remarks, trimmed, and
  -- without the queries that are empty then. In that form each literal, quoted identifier, dollar
  -- quote and remark is closed within its query, a remark with what the scanner drops behind it,
  -- and the last query ends with a `;` or with a byte that is no quote and no dash.
  pub split_queries-Script :
      {src : Bytes} {vs : List Bytes}
      → Script src vs
      → HasNoCopy vs
      → split_queries strings src ≡ queries_of vs
  unfolding split_queries
  split_queries-Script t h = run-Script [] t h
