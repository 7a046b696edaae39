-- ===== src/Protocol/Frame.antt =====
-- `encode_json_frame`, `read_frame` and `read_json_frame` (crates/fubun-protocol/src/lib.rs): a
-- 32-bit little-endian length and that many bytes of JSON. A reader is the list of the bytes that
-- the peer sends before it closes; serde is a parameter.
pub mod RoundTrip
use fubun.Prelude.{
  ℕ, zero, suc, ◌+◌, ◌*◌, ◌/◌, ◌%◌, ◌^◌, ltb, if◌then◌else◌, List, [], ◌∷◌, ◌++◌, length, Option,
  none, some, Result, ok, err, ◌>>=◌, map_err,
}

abbrev pub max_message_size : ℕ
max_message_size = 256 * 1024

pub data FrameError : Type 0 where
  io : FrameError
  oversized : ℕ → ℕ → FrameError
  json : FrameError

-- `u32::to_le_bytes`.
unfoldable pub to_le_bytes : ℕ → List ℕ
to_le_bytes n = n % 256 ∷ (n / 256) % 256 ∷ (n / 65536) % 256 ∷ (n / 16777216) % 256 ∷ []

-- `u32::from_le_bytes`.
unfoldable pub from_le_bytes : ℕ → ℕ → ℕ → ℕ → ℕ
from_le_bytes a b c d = a + b * 256 + c * 65536 + d * 16777216

-- `read_exact`: the first `n` bytes and the rest, or an error at the end of the input.
unfoldable pub read_exact : ℕ → List ℕ → Result FrameError (List ℕ × List ℕ)
read_exact zero input = ok ([], input)
read_exact (suc n) [] = err io
read_exact (suc n) (byte ∷ input) = do (bytes, rest) ← read_exact n input; ok (byte ∷ bytes, rest)

-- `serde_json::to_vec` and `from_slice` at one type of messages.
pub record Serde {ℓ} (T : Type ℓ) : Type ℓ where
  pub to_vec : T → Result FrameError (List ℕ)
  pub from_slice : List ℕ → Result FrameError T

abbrev pub check_size : ℕ → Result FrameError (Unit {0})
check_size size = if ltb max_message_size size then err (oversized size max_message_size) else ok tt

-- The payload behind its header. `u32::try_from` cannot fail below the maximum.
unfoldable pub encode_payload : List ℕ → Result FrameError (List ℕ)
encode_payload payload =
    if ltb max_message_size (length payload)
    then err (oversized (length payload) max_message_size)
    else ok (to_le_bytes (length payload) ++ payload)

-- The payload of a frame whose header has been read.
unfoldable pub read_payload : ℕ → List ℕ → Result FrameError (Option (List ℕ) × List ℕ)
read_payload size input =
    if ltb max_message_size size
    then err (oversized size max_message_size)
    else (do (payload, rest) ← read_exact size input; ok (some payload, rest))

-- At the end of the input there is no frame; an input that ends within a frame is an error.
unfoldable pub read_frame : List ℕ → Result FrameError (Option (List ℕ) × List ℕ)
read_frame (a ∷ b ∷ c ∷ d ∷ input) = read_payload (from_le_bytes a b c d) input
read_frame [] = ok (none, [])
read_frame _ = err io

module _ {ℓ} {T : Type ℓ} (serde : Serde T) where
  unfoldable pub encode_json_frame : T → Result FrameError (List ℕ)
  encode_json_frame value = do payload ← serde.to_vec value; encode_payload payload

  unfoldable pub read_json_frame : List ℕ → Result FrameError (Option T × List ℕ)
  read_json_frame input = do
    (frame, rest) ← read_frame input
    elim frame [
      | none ↦ ok (none, rest)
      | some bytes ↦ (do value ← serde.from_slice bytes; ok (some value, rest))
    ]
