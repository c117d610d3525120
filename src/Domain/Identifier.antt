-- ===== src/Domain/Identifier.antt =====
-- internal/manager/domain/ids.go
use aso_bell.Common.{ℕ, Bool, true, false, [], ◌∷◌, ◌&&◌, ◌||◌, not, leb, ◌==◌, if◌then◌else◌}
use aso_bell.Common.Text.{Text, byte_len}

abbrev pub id_length : ℕ
id_length = 24

-- The first case of the switch.
abbrev pub is_hex : ℕ → Bool
is_hex r = (leb b'0' r && leb r b'9') || (leb b'a' r && leb r b'f') || (leb b'A' r && leb r b'F')

-- The loop over the runes.
unfoldable pub all_hex : Text → Bool
all_hex [] = true
all_hex (r ∷ s) = is_hex r && all_hex s

unfoldable pub is_id : Text → Bool
unfolding all_hex byte_len
is_id s = if not (byte_len s == id_length) then false else all_hex s
