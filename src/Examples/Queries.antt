-- ===== src/Examples/Queries.antt =====
-- Quoting on example titles.
use piace.Base.{String, some, ◌≡◌, refl}
use piace.Impact.Pql.{quote_pql_string, build_pql}
use piace.Impact.Pql.Laws.{read_literal, read_literal-quote_pql_string}
use piace.Examples.Data.{named}

quoted : quote_pql_string "a\"b\\c" ≡ some "\"a\\\"b\\\\c\""
unfolding quote_pql_string
quoted = refl

title_query :
    build_pql (named "File" "/etc/motd")
    ≡ some "resources[certname] { type = \"File\" and title = \"/etc/motd\" }"
unfolding build_pql
title_query = refl

read_literal-quote_pql_string_example : read_literal "\"a\\\"b\\\\c\"" ≡ some ("a\"b\\c", String.[])
read_literal-quote_pql_string_example =
    read_literal-quote_pql_string "a\"b\\c" "\"a\\\"b\\\\c\"" quoted
