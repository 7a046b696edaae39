-- ===== src/NativeHost/Frame.antt =====
-- `read_native_frame`, `write_native_frame` and `write_native_envelope`
-- (apps/fubun-native-host/src/main.rs): a 32-bit length in the machine's byte order, little-endian
-- here, and that many bytes of JSON. Standard input is the list of the bytes that the browser sends
-- before it closes; serde is a parameter, and writing to standard output does not fail.
use fubun.Prelude.{
  ℕ, ◌≤◌, ◌<◌, ◌≡◌, ltb, ◌==◌, ◌||◌, if◌then◌else◌, List, [], ◌∷◌, ◌++◌, length, Option, none, some,
  Result, ok, err, fail_if, ◌>>=◌, ◌>>◌, Bool-cases, inl, inr, map_err, arith,
}
use fubun.Protocol.Frame.{max_message_size, to_le_bytes, from_le_bytes, read_exact, Serde}
use fubun.Protocol.Frame.RoundTrip.{le_bytes_value, read_exact-append}

-- `io::Error` by its kind.
pub data IoError : Type 0 where
  unexpected_eof : IoError
  invalid_data : IoError
  other : IoError

unfoldable pub write_native_frame : List ℕ → List ℕ
write_native_frame payload = to_le_bytes (length payload) ++ payload

unfoldable pub read_native_payload : ℕ → List ℕ → Result IoError (List ℕ × List ℕ)
read_native_payload size input =
    if (size == 0) || ltb max_message_size size
    then err invalid_data
    else map_err (λ _. unexpected_eof) (read_exact size input)

module _ {ℓ} {T : Type ℓ} (serde : Serde T) where
  unfoldable pub write_native_envelope : T → Result IoError (List ℕ)
  write_native_envelope value = do
    payload ← map_err (λ _. other) (serde.to_vec value)
    fail_if (ltb max_message_size (length payload)) invalid_data
    ok (write_native_frame payload)

  -- At the end of the input there is no message; an input that ends within one is an error.
  unfoldable pub read_native_frame : List ℕ → Result IoError (Option T × List ℕ)
  read_native_frame [] = ok (none, [])
  read_native_frame (a ∷ b ∷ c ∷ d ∷ input) = do
    (payload, rest) ← read_native_payload (from_le_bytes a b c d) input
    value ← map_err (λ _. other) (serde.from_slice payload)
    ok (some value, rest)
  read_native_frame _ = err unexpected_eof

read_native_payload-append :
    (payload rest : List ℕ)
    → 0 < length payload
    → length payload ≤ max_message_size
    → read_native_payload (length payload) (payload ++ rest) ≡ ok (payload, rest)
unfolding read_native_payload
read_native_payload-append payload rest lo hi = ground (arith, read_exact-append payload rest)

-- A message that the host writes is read back as it was written, and the bytes behind it are left,
-- where serde prints it as a text that is not empty and parses that text.
pub read_native_frame-write_native_envelope {ℓ} :
    {T : Type ℓ} (serde : Serde T) (value : T) (payload frame rest : List ℕ)
    → serde.to_vec value ≡ ok payload
    → serde.from_slice payload ≡ ok value
    → 0 < length payload
    → write_native_envelope serde value ≡ ok frame
    → read_native_frame serde (frame ++ rest) ≡ ok (some value, rest)
unfolding write_native_envelope read_native_frame write_native_frame to_le_bytes
read_native_frame-write_native_envelope serde value payload frame rest printed parsed lo written =
    elim (Bool-cases (ltb max_message_size (length payload))) [
      | inl large ↦ cc (rw (printed, large) at written)
      | inr small ↦
          let small' : length payload ≤ max_message_size = ground arith in
          let e : write_native_frame payload ≡ frame = cc (rw (printed, small) at written) in
          rw (← e) (
            rw (
              le_bytes_value (length payload) small',
              read_native_payload-append payload rest lo small',
              parsed,
            ))
    ]
