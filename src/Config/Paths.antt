-- ===== src/Config/Paths.antt =====
-- internal/config/resolve/validate.go: certnames, and the file paths of a target. The functions of
-- `path/filepath` are arguments.
pub mod Laws
use piace.Base.{
  String, Bool, true, false, ◌||◌, not, Option, none, some, List, [], ◌∷◌, ◌==◌, string_eq,
  if◌then◌else◌,
}
use piace.Base.Split.{has_code, has_prefix, trim_prefix, contains_text, split, join}
use Prim.Native.String.{◌++◌ as ◌<>◌}

pub data CertnameError : Type 0 where
  empty_name nul_byte path_separator dots : CertnameError

-- `validateCertname`; `none` is no error.
unfoldable pub validate_certname : String → Option CertnameError
unfolding has_code contains_text
validate_certname certname =
    if certname == ""
    then some empty_name
    else if has_code 0 certname
    then some nul_byte
    else if has_code b'/' certname || has_code 0x5c certname
    then some path_separator
    else if contains_text ".." certname
    then some dots
    else none

abbrev pub certname_token : String
certname_token = "{certname}"

-- `expandCertnameSegment`; an error is `none`.
unfoldable pub expand_segment : String → String → Option String
unfolding contains_text trim_prefix has_prefix
expand_segment certname seg =
    let rest = trim_prefix certname_token seg in
    if not (contains_text certname_token seg)
    then some seg
    else if seg == certname_token
    then some certname
    else if rest == seg || (not (has_prefix "." rest) || contains_text certname_token rest)
    then none
    else some (certname <> rest)

with_segment : Option String → Option (List String) → Option (List String)
with_segment none parts = none
with_segment (some seg) none = none
with_segment (some seg) (some parts) = some (seg ∷ parts)

-- The loop over the segments.
unfoldable pub expand_all : String → List String → Option (List String)
unfolding with_segment expand_segment
expand_all certname [] = some []
expand_all certname (seg ∷ segs) =
    with_segment (expand_segment certname seg) (expand_all certname segs)

-- `filepath.FromSlash`, `Clean`, `Join`, `Abs` and `Rel`.
pub record FilePaths : Type 0 where
  pub from_slash : String → String
  pub clean : String → String
  pub join_path : String → String → String
  pub abs : String → Option String
  pub rel : String → String → Option String

pub data PathError : Type 0 where
  misplaced_token no_directory no_path escapes : PathError

pub data PathAnswer : Type 0 where
  bad_path : PathError → PathAnswer
  good_path : String → PathAnswer

-- The relative path leads out of the directory, or there is none.
unfoldable pub is_outside : Option String → Bool
unfolding has_prefix
is_outside none = true
is_outside (some r) = r == ".." || has_prefix "../" r

unfoldable pub beneath : FilePaths → String → Option String → Option String → PathAnswer
unfolding is_outside
beneath fp joined none target = bad_path no_directory
beneath fp joined (some dir) none = bad_path no_path
beneath fp joined (some dir) (some target) =
    if is_outside (fp.rel dir target) then bad_path escapes else good_path joined

unfoldable pub expanded_path : FilePaths → String → Option (List String) → PathAnswer
unfolding beneath has_prefix join
expanded_path fp dir none = bad_path misplaced_token
expanded_path fp dir (some segments) =
    let slashed = join "/" segments in
    let joined = fp.join_path dir (fp.from_slash slashed) in
    if has_prefix "/" slashed
    then good_path (fp.clean (fp.from_slash slashed))
    else beneath fp joined (fp.abs dir) (fp.abs joined)

unfoldable pub resolve_file_path : FilePaths → String → String → String → PathAnswer
unfolding expanded_path expand_all split
resolve_file_path fp raw dir certname =
    if raw == "" then good_path "" else expanded_path fp dir (expand_all certname (split b'/' raw))
