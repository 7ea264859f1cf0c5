-- ===== src/Script.antt =====
-- `database_t::split_queries` of src/database.cpp: a script becomes its queries.
--
-- The loop runs over the part of `sql` from index `i` on; what a branch adds to `i` is a number of
-- characters to skip. Of the flags `in_comment`, `in_single_quote`, .. at most one is ever set, so
-- they are one `Mode`. The functions of md and boost that it calls are the record `Strings`.
pub mod Pieces
pub mod Reads
pub mod Split
pub mod Ends
use pq_async.Common.{
  ℕ, zero, suc, ◌-◌, Bool, true, false, ◌&&◌, ◌||◌, List, [], ◌∷◌, ◌++◌, Bytes, bytes_eq, codes,
  length, take, ◌==◌, if◌then◌else◌,
}

pub record Strings : Type 0 where
  -- `md::trim`
  pub trim : Bytes → Bytes
  -- `md::replace_substring_copy`
  pub replace_substring_copy : Bytes → Bytes → Bytes → Bytes
  -- of `boost::algorithm`
  pub istarts_with : Bytes → Bytes → Bool
  pub iends_with : Bytes → Bytes → Bool

pub data Mode : Type 0 where
  plain comment single_quote double_quote copy : Mode
  dollar_quote : Bytes → Mode

pub record Scanner : Type 0 where
  pub mode : Mode
  pub cur_qry : Bytes
  pub queries : List Bytes

-- The character at an offset, or '\0' where there is none.
abbrev pub char_or_nul : Bytes → ℕ
char_or_nul [] = 0
char_or_nul (c ∷ r) = c

abbrev pub tail : Bytes → Bytes
tail [] = []
tail (c ∷ r) = r

-- The tag behind a `$`, up to the next `$` or the end.
unfoldable pub read_tag : Bytes → Bytes
read_tag [] = []
read_tag (c ∷ r) = c ∷ (if c == b'$' then [] else read_tag r)

abbrev pub add : Bytes → Scanner → Scanner
add text s = record s { cur_qry = s.cur_qry ++ text }

abbrev pub become : Mode → Scanner → Scanner
become m s = record s { mode = m }

-- The `continue` of a branch: the state, and how much the branch adds to `i`.
abbrev pub Next : Type 0
Next = Scanner × ℕ

-- In a literal with the quote `q`, doubled to escape it.
unfoldable pub in_quote : ℕ → ℕ → ℕ → Scanner → Next
in_quote q c n s =
    if c == q
    then (if n == q then (add (c ∷ n ∷ []) s, 1) else (become plain (add (c ∷ []) s), 0))
    else (add (c ∷ []) s, 0)

unfoldable pub in_dollar_quote : Bytes → ℕ → Bytes → Scanner → Next
in_dollar_quote tag c r s =
    if c == b'$' && bytes_eq tag (take (length tag) (c ∷ r))
    then (become plain (add tag s), length tag - 1)
    else (add (c ∷ []) s, 0)

module _ (strings : Strings) where
  open strings use {trim, replace_substring_copy, istarts_with, iends_with}

  unfoldable pub is_copy_stdin : Bytes → Bool
  is_copy_stdin qry =
      let cp_qry = replace_substring_copy qry (codes "\n") (codes " ") in
      istarts_with cp_qry (codes "copy ") && iends_with cp_qry (codes " stdin")

  -- `if(cur_qry.size() > 0) queries.push_back(cur_qry)`
  unfoldable pub push_query : Bytes → List Bytes → List Bytes
  push_query [] queries = queries
  push_query (c ∷ qry) queries = queries ++ (c ∷ qry) ∷ []

  -- "it's the end"; the query stays in `cur_qry`.
  unfoldable pub at_end : ℕ → Scanner → Scanner
  unfolding push_query
  at_end c s =
      let qry = trim (if c == b';' then s.cur_qry else s.cur_qry ++ c ∷ []) in
      record s { cur_qry = qry; queries = push_query qry s.queries }

  unfoldable pub in_copy : ℕ → Bytes → Scanner → Next
  in_copy c r s =
      if (c == b'\n' || c == b'\r') && char_or_nul r == b'\\' && char_or_nul (tail r) == b'.'
      then (record { mode = plain; cur_qry = []; queries = s.queries ++ trim s.cur_qry ∷ [] }, 2)
      else (add (c ∷ []) s, 0)

  unfoldable pub mode_after : Bytes → Mode
  unfolding is_copy_stdin
  mode_after [] = plain
  mode_after (c ∷ qry) = if is_copy_stdin (c ∷ qry) then copy else plain

  -- "end of query"
  unfoldable pub at_semicolon : Scanner → Scanner
  unfolding push_query mode_after
  at_semicolon s =
      let qry = trim s.cur_qry in
      record { mode = mode_after qry; cur_qry = []; queries = push_query qry s.queries }

  unfoldable pub in_plain : ℕ → Bytes → Scanner → Next
  unfolding at_semicolon read_tag
  in_plain c r s =
      if c == b'-' && char_or_nul r == b'-'
      then (become comment s, 0)
      else if c == b'$'
      then (
        become (dollar_quote (b'$' ∷ read_tag r)) (add (b'$' ∷ read_tag r) s),
        length (read_tag r),
      )
      else if c == b'\''
      then (become single_quote (add (c ∷ []) s), 0)
      else if c == b'"'
      then (become double_quote (add (c ∷ []) s), 0)
      else if c == b';'
      then (at_semicolon s, 0)
      else (add (c ∷ []) s, 0)

  -- One round with a character that is not the last.
  unfoldable pub at_char : Mode → ℕ → Bytes → Scanner → Next
  unfolding in_quote in_dollar_quote in_copy in_plain
  at_char comment c r s = (if c == b'\n' then become plain s else s, 0)
  at_char single_quote c r s = in_quote b'\'' c (char_or_nul r) s
  at_char double_quote c r s = in_quote b'"' c (char_or_nul r) s
  at_char (dollar_quote tag) c r s = in_dollar_quote tag c r s
  at_char copy c r s = in_copy c r s
  at_char plain c r s = in_plain c r s

  unfoldable pub round : ℕ → Bytes → Scanner → Next
  unfolding at_end at_char
  round c [] s = (at_end c s, 0)
  round c (n ∷ r) s = at_char s.mode c (n ∷ r) s

  unfoldable pub split_loop : Bytes → ℕ → Scanner → Scanner
  unfolding round
  split_loop [] k s = s
  split_loop (c ∷ r) (suc k) s = split_loop r k s
  split_loop (c ∷ r) zero s = let (t, k) = round c r s in split_loop r k t

  unfoldable pub split_queries : Bytes → List Bytes
  unfolding split_loop
  split_queries sql =
      (split_loop sql 0 (record { mode = plain; cur_qry = []; queries = [] })).queries
