-- ===== src/Script/Ends.antt =====
-- What becomes of a script whose end is not a `;` or a plain byte: the last character is handled
-- before the mode is looked at, and a round that skips past the last character never handles it.
use pq_async.Common.{ℕ, ◌≡◌, refl, ap, sym, ◌∙◌, false, [], ◌∷◌, ◌++◌, Bytes, ◌==◌, append-nil}
use pq_async.Script.{
  Strings, Scanner, comment, dollar_quote, add, become, split_loop, split_queries, is_copy_stdin,
  push_query,
}
use pq_async.Script.Pieces.{
  Lacks, Query, run, run_to, append_cons_ne, run_dollar_quote, remark_other,
}
use pq_async.Script.Reads.{run-Query, run_open_dollar, open_remark, at_char_byte}
use pq_async.Script.Split.{queries_of, fresh, semicolon_lem, at_end_lem}

module _ (strings : Strings) where
  open strings use {trim}

  -- A query that ends in a dollar quote, with nothing behind it, is lost.
  pub split_queries_dollar_end :
      {src vis : Bytes} (tag body : Bytes)
      → Query src vis
      → Lacks b'$' tag
      → Lacks b'$' body
      → split_queries strings
          (src ++ (b'$' ∷ ((tag ++ b'$' ∷ []) ++ (body ++ (b'$' ∷ (tag ++ b'$' ∷ []))))))
        ≡ []
  unfolding split_queries
  split_queries_dollar_end {src} {vis} tag body q h k =
      let t = tag ++ b'$' ∷ [] in
      let inside = body ++ (b'$' ∷ t) in
      let opened = add (b'$' ∷ t) (add vis (fresh strings [])) in
      ap (λ s. s.queries)
        (run-Query strings b'$' (t ++ inside) (refl, refl, refl) q (fresh strings [])
          ∙ run_open_dollar strings tag inside (add vis (fresh strings [])) h
          ∙ ap (λ l. run strings (body ++ (b'$' ∷ l)) (become (dollar_quote (b'$' ∷ t)) opened))
              (sym (append-nil t))
          ∙ run_dollar_quote strings t body [] opened (append_cons_ne tag [] b'$') k
          ∙ unfold split_loop in refl)

  run_remark_end :
      (body : Bytes) (c : ℕ) (s : Scanner)
      → Lacks b'\n' body
      → run strings (body ++ c ∷ []) (become comment s) ≡ run strings (c ∷ []) (become comment s)
  run_remark_end [] c s h = refl
  run_remark_end (d ∷ body) c s h =
      run_to strings d (body ++ c ∷ []) (become comment s) (append_cons_ne body [] c)
        (remark_other strings d (body ++ c ∷ []) (become comment s) h.0)
      ∙ run_remark_end body c s h.1

  -- A remark on the last line, with no line end behind it: its last byte, unless that is a `;`,
  -- becomes a query of its own.
  pub split_queries_remark_end :
      {src vis : Bytes} (body : Bytes) (c : ℕ)
      → Query src vis
      → is_copy_stdin strings (trim vis) ≡ false
      → Lacks b'\n' body
      → c == b';' ≡ false
      → split_queries strings (src ++ (b';' ∷ b'\n' ∷ b'-' ∷ b'-' ∷ (body ++ c ∷ [])))
        ≡ queries_of strings (vis ∷ (b'\n' ∷ c ∷ []) ∷ [])
  unfolding split_queries
  split_queries_remark_end {src} {vis} body c q copy h other =
      let tail = b'-' ∷ (body ++ c ∷ []) in
      let line = b'\n' ∷ b'-' ∷ tail in
      let after = fresh strings (push_query strings (trim vis) []) in
      ap (λ s. s.queries)
        (run-Query strings b';' line (refl, refl, refl) q (fresh strings [])
          ∙ run_to strings b';' line (add vis (fresh strings [])) (λ e. cc)
              (semicolon_lem strings line (add vis (fresh strings [])) copy)
          ∙ run_to strings b'\n' (b'-' ∷ tail) after (λ e. cc)
              (at_char_byte strings b'\n' (b'-' ∷ tail) after refl refl)
          ∙ run_to strings b'-' tail (add (b'\n' ∷ []) after) (λ e. cc)
              (open_remark strings (body ++ c ∷ []) (add (b'\n' ∷ []) after))
          ∙ run_remark_end (b'-' ∷ body) c (add (b'\n' ∷ []) after) (refl, h))
      ∙ at_end_lem strings c (become comment (add (b'\n' ∷ []) after))
      ∙ rw (other, append-nil)
