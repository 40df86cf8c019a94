-- ===== src/Text.antt =====
-- Sizes of text in UTF-8 bytes (durable-workflows/src/error.rs): `ensure_size` and `truncate_utf8`.
-- A text is its list of characters; `str::len` and `is_char_boundary` count the bytes of their
-- encodings.
pub mod Cut
use Prim.Native.Char.{Char, code}
use Prim.Native.String.{String}
use durable_workflows.Base.{
  ℕ, zero, suc, ◌+◌, ◌-◌, Bool, false, ◌&&◌, ◌||◌, ltb, leb, ◌==◌, if◌then◌else◌,
}
use durable_workflows.Base.Outcome.{Result, ok, err, payload_too_large}

-- `char::len_utf8`.
unfoldable pub width : Char → ℕ
width c =
    if ltb (code c) 0x80
    then 1
    else if ltb (code c) 0x800
    then 2
    else if ltb (code c) 0x10000
    then 3
    else 4

-- `str::len`.
unfoldable pub len : String → ℕ
len String.[] = 0
len (String.◌∷◌ c s) = width c + len s

-- `value.chars().count()`.
unfoldable pub chars : String → ℕ
chars String.[] = 0
chars (String.◌∷◌ c s) = 1 + chars s

unfoldable pub ensure_size : String → ℕ → Result (Unit {0})
unfolding len
ensure_size value max_bytes = if ltb max_bytes (len value) then err payload_too_large else ok tt

unfoldable pub is_char_boundary : String → ℕ → Bool
is_char_boundary String.[] i = i == 0
is_char_boundary (String.◌∷◌ c s) i = i == 0 || leb (width c) i && is_char_boundary s (i - width c)

-- The `while` loop: it ends at 0 at the latest, which is a boundary.
unfoldable pub boundary_below : String → ℕ → ℕ
boundary_below s zero = zero
boundary_below s (suc n) =
    let below = boundary_below s n in if is_char_boundary s (suc n) then suc n else below

-- `String::truncate` at a boundary.
unfoldable pub truncate : String → ℕ → String
truncate String.[] n = String.[]
truncate (String.◌∷◌ c s) n =
    let rest = truncate s (n - width c) in if leb (width c) n then String.◌∷◌ c rest else String.[]

unfoldable pub truncate_utf8 : String → ℕ → String
unfolding len is_char_boundary boundary_below truncate
truncate_utf8 value max_bytes =
    if leb (len value) max_bytes then value else truncate value (boundary_below value max_bytes)
