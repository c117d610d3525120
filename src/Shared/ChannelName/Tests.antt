-- ===== src/Shared/ChannelName/Tests.antt =====
-- Runs of the theorems of internal/shared/channelname at concrete inputs, with the character tables
-- of ASCII.
use aso_bell.Common.{ℕ, ◌+◌, ◌≤◌, ◌≡◌, refl, true, ◌||◌, ◌&&◌, leb, map, if◌then◌else◌}
use aso_bell.Common.Lists.{is_empty}
use aso_bell.Common.Text.{codes, rune_count, trim_right, text_eq}
use aso_bell.Shared.ChannelName.{
  Unicode, replace_others, collapse, collapse_from, build, slug, with_suffix, slack_max_len,
}
use aso_bell.Shared.ChannelName.Bounds.{joined, build-IsName}

abbrev lower : ℕ → ℕ
lower c = if leb b'A' c && leb c b'Z' then c + 32 else c

abbrev ascii : Unicode
ascii = record {
  fold = map lower;
  is_letter = λ c. leb b'a' c && leb c b'z';
  is_digit = λ c. leb b'0' c && leb c b'9';
}

build-IsName_example :
    (rune_count
        (build ascii (codes "ev-") (codes "Board / Game  Night!") (codes "0920") slack_max_len)
      ≤ slack_max_len)
    × (rune_count (
          with_suffix
            (build ascii (codes "ev-") (codes "Board / Game  Night!") (codes "0920") slack_max_len)
            2
            slack_max_len)
        ≤ slack_max_len)
    × ((is_empty (slug ascii (codes "Board / Game  Night!"))
          || joined ascii true (slug ascii (codes "Board / Game  Night!")))
        ≡ true)
build-IsName_example =
    build-IsName ascii (codes "ev-") (codes "Board / Game  Night!") (codes "0920") 2 slack_max_len

slashes : slug ascii (codes "Board / Game  Night!") ≡ codes "board-game-night"
unfolding slug replace_others collapse collapse_from text_eq trim_right
slashes = refl
