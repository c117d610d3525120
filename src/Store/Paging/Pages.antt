-- ===== src/Store/Paging/Pages.antt =====
-- memstore.go, eventsRepo.List: a page continues where the page before it ended, so that following
-- the cursors reads every matching event.
use aso_bell.Common.{
  ℕ, zero, suc, ◌-◌, ◌<◌, ◌≤◌, ◌≡◌, refl, sym, ap, subst, ◌∙◌, true, false, List, [], ◌++◌, Option,
  none, some, arith, Bool-cases, inl, inr, ltb, if◌then◌else◌, ltb→lt,
}
use aso_bell.Common.Int.{ℤ, pos, negsuc}
use aso_bell.Common.Lists.{
  All, All-keep, All-get_elem?, append-take-drop, length, length-drop, is_empty, keep, drop,
  get_elem?, get_elem?-some,
}
use aso_bell.Common.Text.{Text}
use aso_bell.Domain.Errors.{Result, ok}
use aso_bell.Domain.Event.{Event}
use aso_bell.Domain.Job.{decimal}
use aso_bell.Store.State.{Store}
use aso_bell.Store.Paging.{
  Codec, EventFilter, EventPage, is_wanted, unix_milli, encode_mem_cursor, sort_events,
  matches_event_filter, cursor_of, filter_from, filter_behind, filter_events, first_page,
  page_limit, page, list,
}
use aso_bell.Store.Paging.Order.{IsOrdered, IsApart, All-sort_events, sort_events-IsOrdered}
use aso_bell.Store.Paging.Cursor.{
  IsCodec, IsReadable, decode-encode, nonempty-encode, cursor_of-some,
}
use aso_bell.Store.Paging.Next.{filter_from-next, IsApart-keep, length-sort_events, length-keep}

abbrev behind : List Event → Option (List Event) → Option (List Event)
behind first none = none
behind first (some more) = some (first ++ more)

abbrev collect_page : (Text → Option (List Event)) → Result EventPage → Option (List Event)
collect_page next (Result.failed e) = none
collect_page next (ok p) =
    if is_empty p.next_cursor then some p.events else behind p.events (next p.next_cursor)

-- What a client reads that follows the cursors from a filter on, if it comes to an end in so many
-- pages.
unfoldable pub collect : ℕ → Codec → EventFilter → Store → Option (List Event)
unfolding list
collect zero c f s = none
collect (suc fuel) c f s =
    collect_page (λ cursor. collect fuel c (record f { cursor = cursor }) s) (list c f s)

filter_events-from :
    (c : Codec) (f : EventFilter) (cursor : Option (ℤ × Text)) (s : Store)
    → cursor_of c f ≡ ok cursor
    → filter_events c f s ≡ ok (filter_from f cursor s)
unfolding filter_events
filter_events-from c f cursor s h = ap (filter_behind f s) h

page_limit-pos : (limit : ℤ) → 1 ≤ page_limit limit
page_limit-pos (pos zero) = ground arith
page_limit-pos (pos (suc n)) = ground arith
page_limit-pos (negsuc n) = ground arith

suc_of : (n : ℕ) → 1 ≤ n → (i : ℕ) × (n ≡ suc i)
suc_of zero h = absurd (omega arith)
suc_of (suc i) h = (i, refl)

-- The cursor that a page with events behind it returns, and what the next page begins with.
module _ (c : Codec) (s : Store) (coded : IsCodec c) (apart : IsApart s.events)
    (readable : All (IsReadable c) s.events) where
  nonempty_cursor : (last : Event) → is_empty (encode_mem_cursor c last.starts_at last.id) ≡ false
  unfolding encode_mem_cursor
  nonempty_cursor last = nonempty-encode c (decimal (unix_milli last.starts_at)) b'|' last.id coded

  abbrev next_filter : EventFilter → Event → EventFilter
  next_filter f last = record f { cursor = encode_mem_cursor c last.starts_at last.id }

  next_filter-read :
      (f : EventFilter) (cursor : Option (ℤ × Text)) (i : ℕ) (last : Event)
      → get_elem? (filter_from f cursor s) i ≡ some last
      → cursor_of c (next_filter f last) ≡ ok (some (last.starts_at, last.id))
  unfolding filter_from
  next_filter-read f cursor i last e =
      let reads : IsReadable c last =
        All-get_elem? (IsReadable c) i (filter_from f cursor s) last
          (All-sort_events (IsReadable c) (keep (is_wanted f cursor) s.events)
            (All-keep (IsReadable c) (is_wanted f cursor) s.events readable))
          e in
      cursor_of-some c (next_filter f last) (last.starts_at, last.id) (nonempty_cursor last)
        (decode-encode c last coded reads)

  next_filter-from :
      (f : EventFilter) (cursor : Option (ℤ × Text)) (i : ℕ) (last : Event)
      → get_elem? (filter_from f cursor s) i ≡ some last
      → filter_from (next_filter f last) (some (last.starts_at, last.id)) s
        ≡ drop (suc i) (filter_from f cursor s)
  unfolding matches_event_filter
  next_filter-from f cursor i last e =
      filter_from-next f (next_filter f last) cursor s i last apart (λ x. refl) e

  collect_page-last :
      (next : Text → Option (List Event)) (n : ℕ) (matched : List Event)
      → ltb n (length matched) ≡ false
      → collect_page next (ok (page c n matched)) ≡ some matched
  collect_page-last next n matched h = rw h refl

  collect_page-more :
      (next : Text → Option (List Event)) (i : ℕ) (matched : List Event) (last : Event)
      → ltb (suc i) (length matched) ≡ true
      → get_elem? matched i ≡ some last
      → next (encode_mem_cursor c last.starts_at last.id) ≡ some (drop (suc i) matched)
      → collect_page next (ok (page c (suc i) matched)) ≡ some matched
  collect_page-more next i matched last h e k =
      let back : i ≡ suc i - 1 = omega arith in
      let at : get_elem? matched (suc i - 1) ≡ some last =
        subst (λ n. get_elem? matched n ≡ some last) back e in
      rw (h, at, nonempty_cursor last, k) (ap some (append-take-drop (suc i) matched))

  collect_complete_from :
      (fuel : ℕ) (f : EventFilter) (cursor : Option (ℤ × Text))
      → cursor_of c f ≡ ok cursor
      → length (filter_from f cursor s) < fuel
      → collect fuel c f s ≡ some (filter_from f cursor s)
  unfolding collect list
  collect_complete_from zero f cursor h k = absurd (omega arith)
  collect_complete_from (suc fuel) f cursor h k =
      let matched = filter_from f cursor s in
      let next = λ (text : Text). collect fuel c (record f { cursor = text }) s in
      ap (λ r. collect_page next (first_page c f.limit r)) (filter_events-from c f cursor s h)
      ∙ elim (Bool-cases (ltb (page_limit f.limit) (length matched))) [
        | inr e ↦ collect_page-last next (page_limit f.limit) matched e
        | inl e ↦
            let (i, size) = suc_of (page_limit f.limit) (page_limit-pos f.limit) in
            let inside : ltb (suc i) (length matched) ≡ true =
              subst (λ n. ltb n (length matched) ≡ true) size e in
            let less = ltb→lt (suc i) (length matched) inside in
            let (last, at) = get_elem?-some i matched (omega (arith, less)) in
            let from = next_filter-from f cursor i last at in
            let rest =
              collect_complete_from fuel (next_filter f last) (some (last.starts_at, last.id))
                (next_filter-read f cursor i last at)
                (rw from (omega (arith, less, length-drop (suc i) matched))) in
            subst (λ n. collect_page next (ok (page c n matched)) ≡ some matched) (sym size)
              (collect_page-more next i matched last inside at (rest ∙ ap some from))
      ]

-- The events that match a filter, in the order of the pages.
unfoldable pub all_matching : EventFilter → Store → List Event
unfolding sort_events matches_event_filter
all_matching f s = sort_events (keep (λ e. matches_event_filter e f) s.events)

-- In a repository whose events have different IDs and instants that the cursor can carry, a client
-- that lists with any filter and any limit, and follows the cursors until one is empty, gets after
-- at most as many pages as there are events, and one, exactly the matching events, each once,
-- latest start first and equal starts by descending ID.
pub collect_complete :
    (c : Codec) (f : EventFilter) (s : Store)
    → IsCodec c
    → IsApart s.events
    → All (IsReadable c) s.events
    → (collect (suc (length s.events)) c (record f { cursor = [] }) s ≡ some (all_matching f s))
      × IsOrdered (all_matching f s)
unfolding all_matching filter_from
collect_complete c f s coded apart readable =
    let test = λ (e : Event). matches_event_filter e f in
    (
      collect_complete_from c s coded apart readable (suc (length s.events))
          (record f { cursor = [] }) none refl
          (omega (arith, length-sort_events (keep test s.events), length-keep test s.events)),
      sort_events-IsOrdered (keep test s.events) (IsApart-keep test s.events apart),
    )
