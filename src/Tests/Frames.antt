-- ===== src/Tests/Frames.antt =====
-- Frames of a few bytes.
use fubun.Prelude.{ℕ, ◌≡◌, refl, List, [], ◌∷◌, ◌++◌, All, some, Result, ok, err, arith}
use fubun.Protocol.Frame.{
  io, FrameError, Serde, to_le_bytes, encode_payload, read_frame, encode_json_frame,
  read_json_frame,
}
use fubun.Protocol.Frame.RoundTrip.{
  read_frame-encode_payload, encode_payload-read_frame, read_frame_cut,
  read_json_frame-encode_json_frame, IsByte,
}

abbrev payload : List ℕ
payload = 123 ∷ 125 ∷ []

abbrev frame : List ℕ
frame = 2 ∷ 0 ∷ 0 ∷ 0 ∷ 123 ∷ 125 ∷ []

encoded : encode_payload payload ≡ ok frame
unfolding encode_payload to_le_bytes
encoded = refl

read_frame-encode_payload_example : read_frame (frame ++ 9 ∷ []) ≡ ok (some payload, 9 ∷ [])
read_frame-encode_payload_example = read_frame-encode_payload payload frame (9 ∷ []) encoded

header_bytes : All IsByte (2 ∷ 0 ∷ 0 ∷ 0 ∷ [])
header_bytes = (omega arith, (omega arith, (omega arith, (omega arith, tt))))

read_back : read_frame (2 ∷ 0 ∷ 0 ∷ 0 ∷ 123 ∷ 125 ∷ 9 ∷ []) ≡ ok (some payload, 9 ∷ [])
read_back = read_frame-encode_payload payload frame (9 ∷ []) encoded

encode_payload-read_frame_example :
    (written : List ℕ) × (encode_payload payload ≡ ok written)
    × (2 ∷ 0 ∷ 0 ∷ 0 ∷ 123 ∷ 125 ∷ 9 ∷ [] ≡ written ++ 9 ∷ [])
encode_payload-read_frame_example =
    encode_payload-read_frame 2 0 0 0 (123 ∷ 125 ∷ 9 ∷ []) payload (9 ∷ []) header_bytes read_back

read_frame_cut_example : read_frame (2 ∷ 0 ∷ 0 ∷ 0 ∷ 123 ∷ []) ≡ err io
read_frame_cut_example = read_frame_cut payload frame 5 encoded (omega arith) (omega arith)

-- A message is a number, printed as one byte.
abbrev pub number_of : List ℕ → Result FrameError ℕ
number_of [] = err FrameError.json
number_of (byte ∷ bytes) = ok byte

abbrev pub serde : Serde ℕ
serde = record { to_vec = λ n. ok (n ∷ []); from_slice = number_of }

printed_frame : encode_json_frame serde 7 ≡ ok (1 ∷ 0 ∷ 0 ∷ 0 ∷ 7 ∷ [])
unfolding encode_json_frame encode_payload to_le_bytes
printed_frame = refl

read_json_frame-encode_json_frame_example :
    read_json_frame serde (1 ∷ 0 ∷ 0 ∷ 0 ∷ 7 ∷ 8 ∷ []) ≡ ok (some 7, 8 ∷ [])
read_json_frame-encode_json_frame_example =
    read_json_frame-encode_json_frame serde 7 (7 ∷ []) (1 ∷ 0 ∷ 0 ∷ 0 ∷ 7 ∷ []) (8 ∷ []) refl refl
      printed_frame
