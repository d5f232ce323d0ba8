-- ===== src/JoinCode.antt =====
-- Join codes of links and inputs: `extractJoinCode` and `formatJoinCode` of
-- apps/desktop/src/App.tsx. `upper` is `toUpperCase` of a character outside ASCII.
pub mod Links
pub mod Results
pub mod Lengths
use Prim.Native.Char.{Char, code}
use Prim.Native.String
use wormhole.Paths.{text_length}
use wormhole.HistoryHook.{make_share_link}
use wormhole.Texts.{
  strip_prefix, drop_prefix, is_empty, trim, keep, all_chars, take_chars, drop_chars, is_lower,
  is_upper, is_digit, to_upper_case,
}
use wormhole.Texts.Laws.{is_alnum, is_code_char}
use wormhole.Common.{
  ℕ, String, Bool, true, false, ◌&&◌, ◌||◌, Option, none, some, leb, nat_eq, not, is_some,
  if◌then◌else◌,
}

-- `/[A-Z0-9-]/`
abbrev pub is_dashed_char : ℕ → Bool
is_dashed_char c = is_code_char c || nat_eq c b'-'

unfoldable pub format_join_code : String → String
format_join_code normalized =
    if nat_eq (text_length normalized) 6
    then String.◌++◌ (take_chars 3 normalized) (String.◌++◌ "-" (drop_chars 3 normalized))
    else normalized

-- `/^(join|j)\//` replaced by nothing.
abbrev pub drop_join : String → String
drop_join s = elim (strip_prefix s "join/") [ none ↦ drop_prefix "j/" s | some rest ↦ rest ]

-- `([A-Za-z0-9-]+)`: the longest start of such characters.
abbrev pub run_of_code : String → String
run_of_code String.[] = ""
run_of_code (String.◌∷◌ c s) =
    let rest = run_of_code s in
    if is_alnum (code c) || nat_eq (code c) b'-' then String.◌∷◌ c rest else ""

-- The group of the expression at one place, behind its fixed start; an empty one is no match.
abbrev pub group_behind : Option String → Option String
group_behind none = none
group_behind (some s) = if is_empty (run_of_code s) then none else some (run_of_code s)

abbrev pub first_of : Option String → Option String → Option String
first_of none o = o
first_of (some a) o = some a

-- The group of the first match of `/\/(?:j|join)\/([A-Za-z0-9-]+)/`.
abbrev pub match_link : String → Option String
match_link String.[] = none
match_link (String.◌∷◌ c s) =
    first_of (group_behind (strip_prefix (String.◌∷◌ c s) "/j/"))
      (first_of (group_behind (strip_prefix (String.◌∷◌ c s) "/join/")) (match_link s))

-- `/^[A-Z0-9]{3}-[A-Z0-9]{3}$/i.test(s)`
abbrev pub is_formatted : String → Bool
is_formatted s =
    nat_eq (text_length s) 7
    && (all_chars is_alnum (take_chars 3 s)
        && (is_some (strip_prefix (drop_chars 3 s) "-") && all_chars is_alnum (drop_chars 4 s)))

-- The text behind `/^wormhole:\/?\/?/`; `none` for another scheme.
abbrev pub deep_path : String → Option String
deep_path s = elim (strip_prefix s "wormhole:") [
  | none ↦ none
  | some rest ↦ some (drop_prefix "/" (drop_prefix "/" rest))
]

abbrev pub is_web_link : String → Bool
is_web_link s = is_some (strip_prefix s "http://") || is_some (strip_prefix s "https://")

module _ (upper : Char → String) where
  -- `c.toUpperCase().replace(/[^A-Z0-9]/g, "")`
  abbrev pub normal : String → String
  normal s = keep is_code_char (to_upper_case upper s)

  -- The branch of `wormhole:`, from the text behind the scheme and the slashes. The dashes count for
  -- the length and are taken out after it.
  unfoldable pub from_deep_link : String → Option String
  from_deep_link path =
      let dashed = keep is_dashed_char (to_upper_case upper (drop_join path)) in
      if leb 6 (text_length dashed)
      then some (format_join_code (keep (λ c. not (nat_eq c b'-')) dashed))
      else none

  abbrev pub from_match : Option String → Option String
  from_match none = none
  from_match (some group) =
      if leb 6 (text_length (normal group)) then some (format_join_code (normal group)) else none

  -- The branch of a link with `http:` or `https:`.
  unfoldable pub from_web_link : String → Option String
  from_web_link trimmed = from_match (match_link trimmed)

  -- The last two branches: a plain code, and one that is formatted.
  unfoldable pub from_plain : String → Option String
  from_plain trimmed =
      if nat_eq (text_length (normal trimmed)) 6
      then some (format_join_code (normal trimmed))
      else if is_formatted trimmed
      then some (to_upper_case upper trimmed)
      else none

  abbrev pub extract_from : String → Option String → Option String
  extract_from trimmed (some path) = from_deep_link path
  extract_from trimmed none =
      if is_web_link trimmed then from_web_link trimmed else from_plain trimmed

  unfoldable pub extract_join_code : String → Option String
  unfolding from_deep_link from_web_link from_plain format_join_code
  extract_join_code input = extract_from (trim input) (deep_path (trim input))
