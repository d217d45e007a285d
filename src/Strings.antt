-- ===== src/Strings.antt =====
-- What the program uses of Go's `strings` and `path` packages: Split and Join at one separator,
-- Contains, and path.Join with its Clean.
pub mod Split
use Prim.Native.String.{◌++◌ as ◌<>◌, len}
use mathlib.Core.List.{reverse}
use component_cli.Prelude.{
  ℕ, zero, suc, ◌-◌, Option, none, some, Char, code, String, Bool, true, false, ◌&&◌, ◌||◌, List,
  [], ◌∷◌, nat_eq, ◌==◌, if◌then◌else◌,
}

abbrev pub slash : Char
slash = "/"

-- `strings.Split(s, sep)` at a separator of one character: never the empty list.
abbrev pub cons_head : Char → List String → List String
cons_head c [] = (String.◌∷◌ c "") ∷ []
cons_head c (w ∷ ws) = (String.◌∷◌ c w) ∷ ws

unfoldable pub split : Char → String → List String
split sep String.[] = "" ∷ []
split sep (String.◌∷◌ c s) =
    if nat_eq (code c) (code sep) then "" ∷ split sep s else cons_head c (split sep s)

-- `strings.Join(words, sep)`.
unfoldable pub join : Char → List String → String
join sep [] = ""
join sep (w ∷ []) = w
join sep (w ∷ v ∷ ws) = w <> (String.◌∷◌ sep "") <> join sep (v ∷ ws)

-- `strings.Contains(s, sep)` for a text of one character.
unfoldable pub contains : Char → String → Bool
contains sep String.[] = false
contains sep (String.◌∷◌ c s) = nat_eq (code c) (code sep) || contains sep s

-- The element loop of `path.Clean`: empty elements and "." go, ".." takes the element before it
-- away where there is one, is kept in front of a relative path and dropped behind a root.
-- `out` holds the elements so far, the last one first.
unfoldable pub clean_elems : Bool → List String → List String → List String
clean_elems rooted out [] = out
clean_elems rooted [] (e ∷ es) =
    clean_elems rooted (if e == "" || e == "." || (rooted && e == "..") then [] else e ∷ []) es
clean_elems rooted (o ∷ out) (e ∷ es) =
    clean_elems rooted
      (if e == "" || e == "."
        then o ∷ out
        else if e == ".."
        then (if o == ".." then e ∷ o ∷ out else out)
        else e ∷ o ∷ out)
      es

is_rooted : String → Bool
is_rooted String.[] = false
is_rooted (String.◌∷◌ c s) = nat_eq (code c) (code slash)

or_dot : String → String
or_dot s = if s == "" then "." else s

-- `path.Clean(s)`.
unfoldable pub clean : String → String
unfolding is_rooted or_dot split join clean_elems
clean s =
    let rooted = is_rooted s in
    let elems = join slash (reverse (clean_elems rooted [] (split slash s))) in
    or_dot (if rooted then "/" <> elems else elems)

-- `path.Join(a, b)`: empty elements in front are left out.
unfoldable pub path_join : String → String → String
unfolding clean
path_join a b =
    if a == "" then (if b == "" then "" else clean b) else clean (a <> (String.◌∷◌ slash b))

-- `strings.HasPrefix(s, prefix)`
unfoldable pub has_prefix : String → String → Bool
has_prefix s String.[] = true
has_prefix String.[] (String.◌∷◌ d prefix) = false
has_prefix (String.◌∷◌ c s) (String.◌∷◌ d prefix) = nat_eq (code c) (code d) && has_prefix s prefix

-- `strings.TrimPrefix(s, prefix)`
unfoldable pub behind : String → String → Option String
behind s String.[] = some s
behind String.[] (String.◌∷◌ d prefix) = none
behind (String.◌∷◌ c s) (String.◌∷◌ d prefix) =
    let rest = behind s prefix in if nat_eq (code c) (code d) then rest else none

unfoldable pub trim_prefix : String → String → String
unfolding behind
trim_prefix s prefix = elim (behind s prefix) [ none ↦ s | some rest ↦ rest ]

-- `strings.ReplaceAll(s, old, new)`, where the characters of a match are skipped. An empty text is found
-- in front of each character and at the end.
unfoldable pub replace_from : ℕ → String → String → String → String
unfolding has_prefix
replace_from skip old new String.[] = ""
replace_from (suc skip) old new (String.◌∷◌ c s) = replace_from skip old new s
replace_from zero old new (String.◌∷◌ c s) = elim (has_prefix (String.◌∷◌ c s) old) [
  | true ↦ new <> replace_from (len old - 1) old new s
  | false ↦ String.◌∷◌ c (replace_from zero old new s)
]

unfoldable pub replace_empty : String → String → String
replace_empty new String.[] = new
replace_empty new (String.◌∷◌ c s) = new <> (String.◌∷◌ c (replace_empty new s))

unfoldable pub replace_all : String → String → String → String
unfolding replace_from replace_empty
replace_all s old new = if old == "" then replace_empty new s else replace_from zero old new s
