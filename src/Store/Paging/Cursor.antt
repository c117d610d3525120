-- ===== src/Store/Paging/Cursor.antt =====
-- memstore.go: decodeMemCursor takes back encodeMemCursor.
use aso_bell.Common.{
  ℕ, zero, suc, ◌+◌, ◌%◌, ◌/◌, ◌≡◌, ◌≢◌, refl, sym, ap, ◌∙◌, false, [], ◌∷◌, ◌++◌, some, arith,
  Bool-cases, inl, inr, ltb, ◌==◌, ◌⊎◌,
}
use aso_bell.Common.Int.{ℤ, pos, negsuc}
use aso_bell.Common.Lists.{All, All-append, is_empty}
use aso_bell.Common.Text.{Text}
use aso_bell.Domain.Errors.{ok}
use aso_bell.Domain.Event.{Event}
use aso_bell.Domain.Job.{decimal, digits_on}
use mathlib.Core.Option.{some-injective}
use aso_bell.Store.Paging.{
  Codec, EventFilter, unix_milli, of_milli, encode_mem_cursor, split_bar, decode_mem_cursor,
  cursor_of,
}

-- Decoding takes back encoding, and the empty text decodes to the empty text.
abbrev pub IsCodec : Codec → Type 0
IsCodec c = ((raw : Text) → c.decode (c.encode raw) ≡ some raw) × (c.decode [] ≡ some [])

-- The instant is a whole number of milliseconds whose decimal digits ParseInt reads.
abbrev pub IsReadable : Codec → Event → Type 0
IsReadable c e =
    (of_milli (unix_milli e.starts_at) ≡ e.starts_at)
    × (c.parse_int (decimal (unix_milli e.starts_at)) ≡ some (unix_milli e.starts_at))

split_bar-append :
    (front back : Text)
    → All (λ x. (x == b'|') ≡ false) front
    → split_bar (front ++ b'|' ∷ back) ≡ some (front, back)
unfolding split_bar
split_bar-append [] back h = refl
split_bar-append (x ∷ front) back h = rw (h.0, split_bar-append front back h.1) refl

digits_on-NoBar : (f n : ℕ) → All (λ x. (x == b'|') ≡ false) (digits_on f n)
unfolding digits_on
digits_on-NoBar zero n = tt
digits_on-NoBar (suc f) n = elim (Bool-cases (ltb n 10)) [
  | inl t ↦ rw t (ground arith, tt)
  | inr e ↦ rw e (
      All-append (λ x. (x == b'|') ≡ false) (digits_on f (n / 10)) ((b'0' + n % 10) ∷ [])
        (digits_on-NoBar f (n / 10)) (ground arith, tt))
]

decimal-NoBar : (z : ℤ) → All (λ x. (x == b'|') ≡ false) (decimal z)
unfolding decimal
decimal-NoBar (pos n) = digits_on-NoBar (suc n) n
decimal-NoBar (negsuc n) = (refl, digits_on-NoBar (suc (suc n)) (suc n))

pub decode-encode :
    (c : Codec) (e : Event)
    → IsCodec c
    → IsReadable c e
    → decode_mem_cursor c (encode_mem_cursor c e.starts_at e.id) ≡ ok (e.starts_at, e.id)
unfolding decode_mem_cursor encode_mem_cursor
decode-encode c e (back, empty) (whole, number) =
    rw
      (
        back (decimal (unix_milli e.starts_at) ++ b'|' ∷ e.id),
        split_bar-append (decimal (unix_milli e.starts_at)) e.id
            (decimal-NoBar (unix_milli e.starts_at)),
        number,
        whole,
      )
      refl

pub nonempty-encode :
    (c : Codec) (t : Text) (x : ℕ) (back : Text)
    → IsCodec c
    → is_empty (c.encode (t ++ x ∷ back)) ≡ false
nonempty-encode c t x back (h, empty) = elim (Text-cases (c.encode (t ++ x ∷ back))) [
  | inl none_left ↦ absurd (
      nonempty-append t x back (
        some-injective [] (t ++ x ∷ back)
          (sym empty ∙ sym (ap c.decode none_left) ∙ h (t ++ x ∷ back))))
  | inr f ↦ f
]
  where
    Text-cases : (t : Text) → (t ≡ []) ⊎ (is_empty t ≡ false)
    Text-cases [] = inl refl
    Text-cases (x ∷ t) = inr refl

    nonempty-append : (t : Text) (x : ℕ) (back : Text) → [] ≢ (t ++ x ∷ back)
    nonempty-append [] x back e = absurd (cc)
    nonempty-append (y ∷ t) x back e = absurd (cc)

pub cursor_of-some :
    (c : Codec) (f : EventFilter) (at : ℤ × Text)
    → is_empty f.cursor ≡ false
    → decode_mem_cursor c f.cursor ≡ ok at
    → cursor_of c f ≡ ok (some at)
cursor_of-some c f at h k = rw (h, k) refl
