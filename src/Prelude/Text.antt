-- ===== src/Prelude/Text.antt =====
-- Rust strings are native texts: `chars` gives the scalar values of `str::chars`, `byte_len` the
-- length of the UTF-8 form that `str::len` returns.
use Prim.Native.Nat.{ℕ, ◌+◌}
use Prim.Native.Char.{code}
use Prim.Native.String.{String}
use mathlib.Core.Bool.{Bool, true, false, ◌&&◌, ◌||◌}
use mathlib.Core.List.{List, [], ◌∷◌}
use fubun.Prelude.Tests.{ltb, leb, ◌==◌, if◌then◌else◌}
use fubun.Prelude.Lists.{length}

abbrev pub chars : String → List ℕ
chars String.[] = []
chars (String.◌∷◌ c s) = code c ∷ chars s

-- `char::len_utf8`.
pub utf8_width : ℕ → ℕ
utf8_width c = if ltb c 128 then 1 else if ltb c 2048 then 2 else if ltb c 65536 then 3 else 4

abbrev total_width : List ℕ → ℕ
total_width [] = 0
total_width (c ∷ cs) = utf8_width c + total_width cs

-- `str::len`.
unfoldable pub byte_len : String → ℕ
unfolding utf8_width
byte_len s = total_width (chars s)

-- `s.chars().count()`.
abbrev pub char_count : String → ℕ
char_count s = length (chars s)

abbrev pub is_empty : String → Bool
is_empty String.[] = true
is_empty (String.◌∷◌ c s) = false

-- `char::is_control`: the general category Cc.
unfoldable pub is_control : ℕ → Bool
is_control c = ltb c 32 || (leb 127 c && ltb c 160)

-- `char::is_whitespace`: the property White_Space.
unfoldable pub is_whitespace : ℕ → Bool
is_whitespace c =
    (leb 9 c && leb c 13)
    || c == 32
    || c == 133
    || c == 160
    || c == 5760
    || (leb 8192 c && leb c 8202)
    || c == 8232
    || c == 8233
    || c == 8239
    || c == 8287
    || c == 12288
