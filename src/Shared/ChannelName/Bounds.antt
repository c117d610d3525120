-- ===== src/Shared/ChannelName/Bounds.antt =====
-- channelname.go: the names fit the limit, and the slug is made of words with single separators.
use aso_bell.Common.{
  ℕ, suc, ◌+◌, ◌-◌, ◌≤◌, ◌≡◌, refl, ap, Bool, true, false, not, ◌&&◌, ◌||◌, [], ◌∷◌, ◌++◌, leb, ltb,
  if◌then◌else◌, Bool-cases, &&_true, inl, inr, arith,
}
use aso_bell.Common.Lists.{is_empty, length, take, length-take}
use aso_bell.Common.Text.{Text, rune_count, trim_right, rune_count-trim_right, keep_unless}
use aso_bell.Common.Int.{pos}
use aso_bell.Domain.Job.{decimal}
use aso_bell.Shared.ChannelName.{
  Unicode, is_separator, is_kept, replace_others, collapse_from, collapse, slug, truncate, build,
  with_suffix,
}

rune_count-length : (s : Text) → rune_count s ≡ length s
unfolding rune_count
rune_count-length [] = refl
rune_count-length (c ∷ s) = ap suc (rune_count-length s)

rune_count-append : (s t : Text) → rune_count (s ++ t) ≡ rune_count s + rune_count t
unfolding rune_count
rune_count-append [] t = omega arith
rune_count-append (c ∷ s) t = omega (arith, rune_count-append s t)

truncate-fits : (s : Text) (n : ℕ) → rune_count (truncate s n) ≤ n
unfolding truncate
truncate-fits s n = elim (Bool-cases (leb (rune_count s) n)) [
  | inl e ↦ rw e (ground (arith, rune_count-trim_right is_separator s))
  | inr e ↦ rw e (
      omega (
        arith,
        rune_count-trim_right is_separator (take n s),
        rune_count-length (take n s),
        length-take n s,
      ))
]

ltb-false : (a b : ℕ) → ltb a b ≡ false → b ≤ a
ltb-false a b h = ground arith

build-fits :
    (u : Unicode) (prefix title date : Text) (n : ℕ) → rune_count (build u prefix title date n) ≤ n
unfolding build
build-fits u prefix title date n = elim (Bool-cases (is_empty (slug u title))) [
  | inl e ↦ rw e (truncate-fits (prefix ++ date) n)
  | inr e ↦ rw e (truncate-fits ((prefix ++ date) ++ b'-' ∷ slug u title) n)
]

suffix-fits : (name : Text) (k n : ℕ) → rune_count (with_suffix name k n) ≤ n
unfolding with_suffix
suffix-fits name k n =
    let suffix = b'-' ∷ decimal (pos k) in
    let room = n - rune_count suffix in
    elim (Bool-cases (ltb room 1)) [
      | inl e ↦ rw e (truncate-fits suffix n)
      | inr e ↦ rw e (
          omega (
            arith,
            ltb-false room 1 e,
            rune_count-append (truncate name room) suffix,
            truncate-fits name room,
          ))
    ]

-- A name of words and single separators: it neither begins nor ends with one, and no two follow each
-- other. The first argument tells whether the character in front is a separator.
abbrev pub joined : Unicode → Bool → Text → Bool
joined u after_sep [] = not after_sep
joined u after_sep (c ∷ s) =
    if is_separator c then not after_sep && joined u true s else is_kept u c && joined u false s

-- As `joined`, but a separator may stand at the end.
spaced : Unicode → Bool → Text → Bool
spaced u after_sep [] = true
spaced u after_sep (c ∷ s) =
    if is_separator c then not after_sep && spaced u true s else is_kept u c && spaced u false s

-- Only kept characters and separators.
abbrev replaced : Unicode → Text → Bool
replaced u [] = true
replaced u (c ∷ s) = (is_separator c || is_kept u c) && replaced u s

replace_others-replaced : (u : Unicode) (s : Text) → replaced u (replace_others u s) ≡ true
unfolding replace_others
replace_others-replaced u [] = refl
replace_others-replaced u (c ∷ s) = elim (Bool-cases (is_kept u c)) [
  | inl e ↦ rw (e, replace_others-replaced u s) (ground (arith, e))
  | inr e ↦ rw (e, replace_others-replaced u s) refl
]

collapse_from-spaced :
    (u : Unicode) (b : Bool) (s : Text)
    → replaced u s ≡ true
    → spaced u b (collapse_from b s) ≡ true
unfolding collapse_from spaced
collapse_from-spaced u b [] h = refl
collapse_from-spaced u true (c ∷ s) h = elim (Bool-cases (is_separator c)) [
  | inl e ↦ rw e (collapse_from-spaced u true s (ground arith))
  | inr e ↦ rw (e, e) (ground (arith, collapse_from-spaced u false s))
]
collapse_from-spaced u false (c ∷ s) h = elim (Bool-cases (is_separator c)) [
  | inl e ↦ rw (e, e) (ground (arith, collapse_from-spaced u true s))
  | inr e ↦ rw (e, e) (ground (arith, collapse_from-spaced u false s))
]

-- A character in front of a text that has been trimmed.
separator_joined :
    (u : Unicode) (b : Bool) (c : ℕ) (t : Text)
    → is_separator c ≡ true
    → not b ≡ true
    → (is_empty t || joined u true t) ≡ true
    → (is_empty (keep_unless true c t) || joined u b (keep_unless true c t)) ≡ true
separator_joined u b c [] sep first h = refl
separator_joined u b c (d ∷ t) sep first h = rw (sep, first) h

kept_joined :
    (u : Unicode) (b : Bool) (c : ℕ) (t : Text)
    → is_separator c ≡ false
    → is_kept u c ≡ true
    → (is_empty t || joined u false t) ≡ true
    → (is_empty (keep_unless false c t) || joined u b (keep_unless false c t)) ≡ true
kept_joined u b c [] sep kept h = rw (sep, kept) refl
kept_joined u b c (d ∷ t) sep kept h = rw (sep, kept) h

trimmed_joined :
    (u : Unicode) (b : Bool) (s : Text)
    → spaced u b s ≡ true
    → (is_empty (trim_right is_separator s) || joined u b (trim_right is_separator s)) ≡ true
unfolding spaced trim_right
trimmed_joined u b [] h = refl
trimmed_joined u b (c ∷ s) h = elim (Bool-cases (is_separator c)) [
  | inl e ↦
      let (first, rest) = &&_true (not b) (spaced u true s) (rw e at h) in
      rw e
        (separator_joined u b c (trim_right is_separator s) e first (trimmed_joined u true s rest))
  | inr e ↦
      let (kept, rest) = &&_true (is_kept u c) (spaced u false s) (rw e at h) in
      rw e (kept_joined u b c (trim_right is_separator s) e kept (trimmed_joined u false s rest))
]

slug-joined :
    (u : Unicode) (title : Text) → (is_empty (slug u title) || joined u true (slug u title)) ≡ true
unfolding slug collapse
slug-joined u title =
    let text = replace_others u (u.fold title) in
    trimmed_joined u true (collapse_from true text)
      (collapse_from-spaced u true text (replace_others-replaced u (u.fold title)))

-- Whatever the title and the character tables: a channel name is not longer than the limit, with a
-- suffix or without, and the title's part is empty or words of letters, digits and underscores with
-- single separators between them.
pub build-IsName :
    (u : Unicode) (prefix title date : Text) (k n : ℕ)
    → (rune_count (build u prefix title date n) ≤ n)
      × (rune_count (with_suffix (build u prefix title date n) k n) ≤ n)
      × ((is_empty (slug u title) || joined u true (slug u title)) ≡ true)
build-IsName u prefix title date k n = (
  build-fits u prefix title date n,
  suffix-fits (build u prefix title date n) k n,
  slug-joined u title,
)
