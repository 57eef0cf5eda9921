-- ===== src/Impact/Pql.antt =====
-- internal/impact/pql.go: the query text for one resource identity. An error is `none`.
pub mod Laws
use Prim.Native.Char.{Char, code}
use Prim.Native.String
use Prim.Native.String.{◌++◌ as ◌<>◌}
use piace.Base.{ℕ, String, Bool, true, false, Option, none, some, ltb, nat_eq, if◌then◌else◌}
use piace.Model.Catalog.{ResourceIdentity}

-- A character written behind a backslash, or as it is.
write : Bool → Char → Option String → Option String
write escaped c none = none
write true c (some s) = some (String.◌∷◌ "\\" (String.◌∷◌ c s))
write false c (some s) = some (String.◌∷◌ c s)

-- The `switch` for one character, in front of what follows it.
write_char : Char → Option String → Option String
unfolding write
write_char c rest =
    if nat_eq (code c) 0x5c
    then write true c rest
    else if nat_eq (code c) 0x22
    then write true c rest
    else if nat_eq (code c) 0x0a
    then write true "n" rest
    else if nat_eq (code c) 0x0d
    then write true "r" rest
    else if nat_eq (code c) 0x09
    then write true "t" rest
    else if ltb (code c) 0x20
    then none
    else write false c rest

-- The loop over the characters, and the closing quote.
unfoldable pub write_all : String → Option String
unfolding write_char
write_all String.[] = some "\""
write_all (String.◌∷◌ c s) = write_char c (write_all s)

unfoldable pub quote_pql_string : String → Option String
unfolding write_all write
quote_pql_string s = write false "\"" (write_all s)

query : Option String → Option String → Option String
query none title = none
query (some type) none = none
query (some type) (some title) =
    some ("resources[certname] { type = " <> (type <> (" and title = " <> (title <> " }"))))

unfoldable pub build_pql : ResourceIdentity → Option String
unfolding query quote_pql_string
build_pql identity = query (quote_pql_string identity.type) (quote_pql_string identity.title)
