-- ===== src/Store/Paging.antt =====
-- memstore.go: eventsRepo.List, with its filter, its order and its cursor, and workspacesRepo.List.
use aso_bell.Common.{
  ℕ, ◌-◌, ◌/◌, ◌≤◌, Bool, true, false, not, ◌&&◌, ◌||◌, List, [], ◌∷◌, ◌++◌, Option, none, some,
  ltb, ◌==◌, if◌then◌else◌, min,
}
use aso_bell.Common.Int.{ℤ, pos, negsuc, pos_part, ◌*ℤ◌, eq_ℤ, ltb_ℤ, leb_ℤ}
use aso_bell.Common.Lists.{length, is_empty, any, keep, take, get_elem?}
use aso_bell.Common.Text.{Text, codes, text_eq}
use aso_bell.Domain.Errors.{Error, Result, ok}
use aso_bell.Domain.Event.{Event, EventStatus}
use aso_bell.Domain.Job.{decimal}
use aso_bell.Domain.Workspace.{Workspace}
use aso_bell.Store.State.{Store}
pub mod Order
pub mod Cursor
pub mod Next
pub mod Pages
mod Tests

abbrev pub default_page_size : ℤ
default_page_size = pos 20

abbrev pub max_page_size : ℕ
max_page_size = 100

-- EventFilter
pub record EventFilter : Type 0 where
  pub workspace_id : Text
  pub statuses : List EventStatus
  pub ids : List Text
  pub starts_after : Option ℤ
  pub limit : ℤ
  pub cursor : Text

-- EventPage
pub record EventPage : Type 0 where
  pub events : List Event
  pub next_cursor : Text

-- base64.RawURLEncoding, and strconv.ParseInt with base 10 and 64 bits.
pub record Codec : Type 0 where
  pub encode : Text → Text
  pub decode : Text → Option Text
  pub parse_int : Text → Option ℤ

-- The order of Go strings.
unfoldable pub text_lt : Text → Text → Bool
text_lt [] [] = false
text_lt [] (y ∷ ys) = true
text_lt (x ∷ xs) [] = false
text_lt (x ∷ xs) (y ∷ ys) = ltb x y || (x == y && text_lt xs ys)

abbrev pub same_status : EventStatus → EventStatus → Bool
same_status EventStatus.open_status EventStatus.open_status = true
same_status EventStatus.ended EventStatus.ended = true
same_status EventStatus.canceled EventStatus.canceled = true
same_status _ _ = false

abbrev is_after : Option ℤ → ℤ → Bool
is_after none at = true
is_after (some bound) at = not (ltb_ℤ at bound)

-- matchesEventFilter
unfoldable pub matches_event_filter : Event → EventFilter → Bool
matches_event_filter ev f =
    (is_empty f.workspace_id || text_eq ev.workspace_id f.workspace_id)
    && (is_empty f.statuses || any (λ status. same_status status ev.status) f.statuses)
    && (is_empty f.ids || any (λ id. text_eq id ev.id) f.ids)
    && is_after f.starts_after ev.starts_at

-- beforeCursor
abbrev pub before_cursor : Event → ℤ × Text → Bool
before_cursor ev (starts_at, id) =
    ltb_ℤ ev.starts_at starts_at || (eq_ℤ ev.starts_at starts_at && text_lt ev.id id)

-- time.Time.UnixMilli
unfoldable pub unix_milli : ℤ → ℤ
unix_milli (pos n) = pos (n / 1000000)
unix_milli (negsuc n) = negsuc (n / 1000000)

-- time.UnixMilli
unfoldable pub of_milli : ℤ → ℤ
of_milli m = m *ℤ pos 1000000

-- encodeMemCursor
unfoldable pub encode_mem_cursor : Codec → ℤ → Text → Text
unfolding unix_milli decimal
encode_mem_cursor c starts_at id = c.encode (decimal (unix_milli starts_at) ++ b'|' ∷ id)

-- strings.SplitN at the first bar, with two parts.
unfoldable pub split_bar : Text → Option (Text × Text)
split_bar [] = none
split_bar (x ∷ xs) =
    let rest = split_bar xs in
    if x == b'|'
    then some ([], xs)
    else elim rest [ none ↦ none | some (front, back) ↦ some (x ∷ front, back) ]

abbrev malformed {ℓ} : {A : Type ℓ} → Result A
malformed = Result.failed (Error.other (codes "decode cursor"))

abbrev read_millis : Option ℤ → Text → Result (ℤ × Text)
read_millis none id = malformed
read_millis (some millis) id = ok (of_milli millis, id)

abbrev read_parts : Codec → Option (Text × Text) → Result (ℤ × Text)
read_parts c none = malformed
read_parts c (some (millis, id)) = read_millis (c.parse_int millis) id

abbrev read_raw : Codec → Option Text → Result (ℤ × Text)
read_raw c none = malformed
read_raw c (some raw) = read_parts c (split_bar raw)

-- decodeMemCursor
unfoldable pub decode_mem_cursor : Codec → Text → Result (ℤ × Text)
unfolding split_bar of_milli
decode_mem_cursor c cursor = read_raw c (c.decode cursor)

-- The comparison of filterEvents puts the first event before the second.
abbrev pub is_ahead : Event → Event → Bool
is_ahead a b = before_cursor b (a.starts_at, a.id)

-- slices.SortFunc by it.
unfoldable pub insert_event : Event → List Event → List Event
unfolding text_lt
insert_event e [] = e ∷ []
insert_event e (x ∷ xs) = if is_ahead x e then x ∷ insert_event e xs else e ∷ x ∷ xs

unfoldable pub sort_events : List Event → List Event
unfolding insert_event
sort_events [] = []
sort_events (e ∷ es) = insert_event e (sort_events es)

abbrev pub is_past : Option (ℤ × Text) → Event → Bool
is_past none ev = true
is_past (some cursor) ev = before_cursor ev cursor

abbrev pub is_wanted : EventFilter → Option (ℤ × Text) → Event → Bool
is_wanted f cursor ev = is_past cursor ev && matches_event_filter ev f

-- The cursor that filterEvents reads, if there is one.
abbrev pub cursor_of : Codec → EventFilter → Result (Option (ℤ × Text))
cursor_of c f = if is_empty f.cursor then ok none else elim (decode_mem_cursor c f.cursor) [
  | ok cursor ↦ ok (some cursor)
  | Result.failed e ↦ Result.failed e
]

-- The walk and the sort of filterEvents.
unfoldable pub filter_from : EventFilter → Option (ℤ × Text) → Store → List Event
unfolding sort_events matches_event_filter text_lt
filter_from f cursor s = sort_events (keep (is_wanted f cursor) s.events)

abbrev pub filter_behind : EventFilter → Store → Result (Option (ℤ × Text)) → Result (List Event)
filter_behind f s (ok cursor) = ok (filter_from f cursor s)
filter_behind f s (Result.failed e) = Result.failed e

-- filterEvents
unfoldable pub filter_events : Codec → EventFilter → Store → Result (List Event)
unfolding decode_mem_cursor filter_from
filter_events c f s = filter_behind f s (cursor_of c f)

-- The limit of a page.
abbrev pub page_limit : ℤ → ℕ
page_limit limit =
    min (pos_part (if leb_ℤ limit (pos 0) then default_page_size else limit)) max_page_size

abbrev pub cursor_behind : Codec → Option Event → Text
cursor_behind c none = []
cursor_behind c (some last) = encode_mem_cursor c last.starts_at last.id

abbrev pub page : Codec → ℕ → List Event → EventPage
page c limit matched =
    if ltb limit (length matched)
    then record {
      events = take limit matched;
      next_cursor = cursor_behind c (get_elem? matched (limit - 1));
    }
    else record { events = matched; next_cursor = [] }

abbrev pub first_page : Codec → ℤ → Result (List Event) → Result EventPage
first_page c limit (ok matched) = ok (page c (page_limit limit) matched)
first_page c limit (Result.failed e) = Result.failed e

-- List
unfoldable pub list : Codec → EventFilter → Store → Result EventPage
unfolding filter_events encode_mem_cursor
list c f s = first_page c f.limit (filter_events c f s)

insert_workspace : Workspace → List Workspace → List Workspace
unfolding text_lt
insert_workspace w [] = w ∷ []
insert_workspace w (x ∷ xs) =
    if text_lt x.name w.name then x ∷ insert_workspace w xs else w ∷ x ∷ xs

sort_workspaces : List Workspace → List Workspace
unfolding insert_workspace
sort_workspaces [] = []
sort_workspaces (w ∷ ws) = insert_workspace w (sort_workspaces ws)

-- workspacesRepo.List
unfoldable pub list_workspaces : Store → List Workspace
unfolding sort_workspaces
list_workspaces s = sort_workspaces s.workspaces
