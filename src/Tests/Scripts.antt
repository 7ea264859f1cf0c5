-- ===== src/Tests/Scripts.antt =====
-- src/database.cpp: scripts of queries.
use pq_async.Common.{◌≡◌, refl, false, [], ◌∷◌, Bytes, bytes_eq, codes, ◌==◌, ◌||◌, if◌then◌else◌}
use pq_async.Script.{Strings, split_queries, push_query, is_copy_stdin}
use pq_async.Script.Pieces.{Query, done, byte, literal, dollar, remark}
use pq_async.Script.Split.{ended, next, split_queries-Script}
use pq_async.Script.Ends.{split_queries_dollar_end, split_queries_remark_end}

-- `trim` for texts with white space in front only, and no COPY.
abbrev trim_front : Bytes → Bytes
trim_front [] = []
trim_front (c ∷ r) = if c == b' ' || c == b'\n' then trim_front r else c ∷ r

abbrev strings : Strings
strings = record {
  trim = trim_front;
  replace_substring_copy = λ text from to. text;
  istarts_with = λ text prefix. false;
  iends_with = λ text suffix. false;
}

two_queries :
    split_queries strings (codes "a ';--$' b; --x;y\n\"q\"\"\";;$t$;$t$ c")
    ≡ codes "a ';--$' b" ∷ codes "\"q\"\"\"" ∷ codes "$t$;$t$ c" ∷ []
unfolding split_queries bytes_eq
two_queries = refl

-- `a ';'` and, behind a remark, `$t$;$t$`.
first_Query : Query (codes "a ';'") (codes "a ';'")
first_Query = byte refl refl (byte refl refl (literal (codes ";") refl done))

second_Query : Query (codes "--;\n$t$;$t$") (codes "$t$;$t$")
second_Query =
    remark (codes ";") (refl, tt) (dollar (codes "t") (codes ";") (refl, tt) (refl, tt) done)

split_queries-Script_example :
    split_queries strings (codes "a ';';--;\n$t$;$t$;") ≡ codes "a ';'" ∷ codes "$t$;$t$" ∷ []
unfolding push_query is_copy_stdin
split_queries-Script_example =
    split_queries-Script strings (next first_Query (ended second_Query)) (refl, (refl, tt))

split_queries_dollar_end_run : split_queries strings (codes "a ';'$t$;$t$") ≡ []
split_queries_dollar_end_run =
    split_queries_dollar_end strings (codes "t") (codes ";") first_Query (refl, tt) (refl, tt)

split_queries_remark_end_run :
    split_queries strings (codes "a ';';\n--xy") ≡ codes "a ';'" ∷ codes "y" ∷ []
unfolding push_query is_copy_stdin
split_queries_remark_end_run =
    split_queries_remark_end strings (codes "x") b'y' first_Query refl (refl, tt) refl
