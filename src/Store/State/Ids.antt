-- ===== src/Store/State/Ids.antt =====
-- memstore.go, nextID: the text of a count.
use aso_bell.Common.{
  ℕ, zero, suc, ◌+◌, ◌*◌, ◌/◌, ◌%◌, ◌-◌, ◌<◌, ◌≡◌, refl, ap, sym, ◌∙◌, [], ◌∷◌, ◌++◌, arith, ltb,
  Bool-cases, inl, inr, if◌then◌else◌,
}
use aso_bell.Common.Lists.{replicate}
use aso_bell.Common.Text.{Text}
use aso_bell.Store.State.{hex_digit, hex_on, hex_id}

-- The value of a hexadecimal digit, and of a text of them behind a value.
abbrev digit_value : ℕ → ℕ
digit_value c = if ltb c 58 then c - 48 else c - 87

value : ℕ → Text → ℕ
value acc [] = acc
value acc (c ∷ s) = value (acc * 16 + digit_value c) s

value-append : (acc : ℕ) (s t : Text) → value acc (s ++ t) ≡ value (value acc s) t
unfolding value
value-append acc [] t = refl
value-append acc (c ∷ s) t = value-append (acc * 16 + digit_value c) s t

digit_value-hex_digit : (d : ℕ) → d < 16 → digit_value (hex_digit d) ≡ d
digit_value-hex_digit d h = ground arith

value-hex_on : (f n : ℕ) → n < f → value 0 (hex_on f n) ≡ n
unfolding value hex_on
value-hex_on zero n h = absurd (omega arith)
value-hex_on (suc f) n h = elim (Bool-cases (ltb n 16)) [
  | inl e ↦ rw e (omega (arith, digit_value-hex_digit n (ground arith)))
  | inr e ↦
      rw (e, value-append 0 (hex_on f (n / 16)), value-hex_on f (n / 16) (ground arith))
        (rw (digit_value-hex_digit (n % 16) (omega arith)) (omega arith))
]

value-zeros : (k : ℕ) (s : Text) → value 0 (replicate k b'0' ++ s) ≡ value 0 s
unfolding value
value-zeros zero s = refl
value-zeros (suc k) s = value-zeros k s

value-hex_id : (n : ℕ) → value 0 (hex_id n) ≡ n
unfolding hex_id
value-hex_id n = value-zeros _ (hex_on (suc n) n) ∙ value-hex_on (suc n) n (omega arith)

-- Two IDs of the sequence are the same only at the same count.
pub hex_id-injective : (m n : ℕ) → hex_id m ≡ hex_id n → m ≡ n
hex_id-injective m n h = sym (value-hex_id m) ∙ (ap (value 0) h ∙ value-hex_id n)
