-- ===== src/Tests/JoinCodeTests.antt =====
-- Join codes as they are typed in and in links.
use Prim.Native.Char.{Char}
use Prim.Native.String
use wormhole.Texts.{to_upper_case, keep}
use wormhole.Texts.Laws.{Every, is_alnum}
use wormhole.HistoryHook.{make_share_link}
use wormhole.JoinCode.{
  is_dashed_char, format_join_code, from_plain, from_web_link, extract_join_code,
}
use wormhole.JoinCode.Links.{extract_join_code-links}
use wormhole.JoinCode.Results.{extract_join_code-Every}
use wormhole.Common.{String, ◌≡◌, refl, none, some}

abbrev sharp_s : Char → String
sharp_s c = "SS"

typed_in : extract_join_code sharp_s "  abc-123 " ≡ some "ABC-123"
unfolding extract_join_code from_plain format_join_code
typed_in = refl

with_query : extract_join_code sharp_s "https://x.y/j/abc-123?x=1" ≡ some "ABC-123"
unfolding extract_join_code from_web_link format_join_code
with_query = refl

too_short : extract_join_code sharp_s "abc-12" ≡ none
unfolding extract_join_code from_plain
too_short = refl

extract_join_code-links_example :
    (extract_join_code sharp_s "a-bc12-3"
      ≡ some (format_join_code (to_upper_case sharp_s (keep is_alnum "a-bc12-3"))))
    × (extract_join_code sharp_s (make_share_link "a-bc12-3")
        ≡ some (format_join_code (to_upper_case sharp_s (keep is_alnum "a-bc12-3"))))
    × (extract_join_code sharp_s (String.◌++◌ "wormhole://join/" "a-bc12-3")
        ≡ some (format_join_code (to_upper_case sharp_s (keep is_alnum "a-bc12-3"))))
extract_join_code-links_example =
    extract_join_code-links sharp_s "a-bc12-3"
      (refl, (refl, (refl, (refl, (refl, (refl, (refl, (refl, tt)))))))) refl

extract_join_code-Every_example : Every is_dashed_char "ABC-123"
extract_join_code-Every_example = extract_join_code-Every sharp_s "  abc-123 " "ABC-123" typed_in
