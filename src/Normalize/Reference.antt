-- ===== src/Normalize/Reference.antt =====
-- internal/normalize/wire.go: a resource reference `Type[title]`, as its regular expression reads it.
pub mod Laws
use Prim.Native.Char.{Char, code}
use piace.Base.{
  String, Bool, true, false, ◌||◌, not, Option, none, some, ◌==◌, string_eq, if◌then◌else◌, nat_eq,
}
use Prim.Native.String
use piace.Model.Catalog.{ResourceIdentity}

unfoldable pub cons_title : Char → Option String → Option String
cons_title c none = none
cons_title c (some title) = some (String.◌∷◌ c title)

-- The text in front of the last character, which has to be `]`.
unfoldable pub before_bracket : String → Option String
unfolding cons_title
before_bracket String.[] = none
before_bracket (String.◌∷◌ c String.[]) = if nat_eq (code c) b']' then some String.[] else none
before_bracket (String.◌∷◌ c (String.◌∷◌ d s)) = cons_title c (before_bracket (String.◌∷◌ d s))

unfoldable pub cons_type : Char → Option (String × String) → Option (String × String)
cons_type c none = none
cons_type c (some (type, title)) = some (String.◌∷◌ c type, title)

-- The text in front of the first bracket, which has to be `[`, and the text behind it.
unfoldable pub at_bracket : String → Option (String × String)
unfolding cons_type
at_bracket String.[] = none
at_bracket (String.◌∷◌ c s) =
    let rest = at_bracket s in
    if nat_eq (code c) b'['
    then some (String.[], s)
    else if nat_eq (code c) b']'
    then none
    else cons_type c rest

-- A type and a title that are not empty.
unfoldable pub named_parts : String → Option String → Option ResourceIdentity
named_parts type none = none
named_parts type (some title) =
    if type == "" || title == "" then none else some (record { type = type; title = title })

unfoldable pub split_parts : Option (String × String) → Option ResourceIdentity
unfolding named_parts before_bracket
split_parts none = none
split_parts (some (type, rest)) = named_parts type (before_bracket rest)

-- `resourceReferencePattern` with its two groups.
unfoldable pub parse_reference : String → Option ResourceIdentity
unfolding split_parts at_bracket
parse_reference ref = split_parts (at_bracket ref)
