-- ===== src/Shared/ChannelName.antt =====
-- internal/shared/channelname/channelname.go. What comes from outside the repository is an argument:
-- `fold` is strings.ToLower behind norm.NFKC.String, `is_letter` and `is_digit` are the tests of
-- package unicode, and the date is the text that time.Format gives for 0102.
pub mod Bounds
mod Tests
use aso_bell.Common.{
  ℕ, ◌-◌, Bool, true, false, ◌||◌, List, [], ◌∷◌, ◌++◌, leb, ◌==◌, ltb, if◌then◌else◌,
}
use aso_bell.Common.Int.{pos}
use aso_bell.Common.Lists.{is_empty, take}
use aso_bell.Common.Text.{Text, rune_count, trim_right}
use aso_bell.Domain.Job.{decimal}

abbrev pub slack_max_len : ℕ
slack_max_len = 80

abbrev pub discord_max_len : ℕ
discord_max_len = 90

-- separator
abbrev pub is_separator : ℕ → Bool
is_separator c = c == b'-'

-- The character tables.
pub record Unicode : Type 0 where
  pub fold : Text → Text
  pub is_letter : ℕ → Bool
  pub is_digit : ℕ → Bool

-- The cases of Slug's switch.
abbrev pub is_kept : Unicode → ℕ → Bool
is_kept u r = u.is_letter r || u.is_digit r || r == b'_'

-- Slug's loop.
replace_others : Unicode → Text → Text
replace_others u [] = []
replace_others u (r ∷ s) = (if is_kept u r then r else b'-') ∷ replace_others u s

-- collapse's loop, with prevSep.
collapse_from : Bool → Text → Text
collapse_from prev_sep [] = []
collapse_from true (r ∷ s) =
    let skipped = collapse_from true s in
    let kept = collapse_from false s in if is_separator r then skipped else r ∷ kept
collapse_from false (r ∷ s) =
    let after_sep = collapse_from true s in
    let kept = collapse_from false s in if is_separator r then r ∷ after_sep else r ∷ kept

-- collapse
collapse : Text → Text
unfolding collapse_from
collapse s = trim_right is_separator (collapse_from true s)

-- Slug
unfoldable pub slug : Unicode → Text → Text
unfolding replace_others collapse
slug u title = collapse (replace_others u (u.fold title))

-- truncate
truncate : Text → ℕ → Text
truncate s max_len =
    if leb (rune_count s) max_len
    then trim_right is_separator s
    else trim_right is_separator (take max_len s)

-- Build
unfoldable pub build : Unicode → Text → Text → Text → ℕ → Text
unfolding truncate
build u prefix title date max_len =
    let head = prefix ++ date in
    if is_empty (slug u title)
    then truncate head max_len
    else truncate (head ++ b'-' ∷ slug u title) max_len

-- WithSuffix
unfoldable pub with_suffix : Text → ℕ → ℕ → Text
unfolding truncate
with_suffix name n max_len =
    let suffix = b'-' ∷ decimal (pos n) in
    let room = max_len - rune_count suffix in
    if ltb room 1 then truncate suffix max_len else truncate name room ++ suffix
