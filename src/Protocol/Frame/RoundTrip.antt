-- ===== src/Protocol/Frame/RoundTrip.antt =====
-- Frames are read back as they were written, whatever follows them, and in no other way.
use fubun.Prelude.{
  ℕ, zero, suc, ◌+◌, ◌/◌, ◌%◌, ◌<◌, ◌≤◌, ◌≡◌, refl, ap, ltb, List, [], ◌∷◌, ◌++◌, length,
  length-take-le, take, All, some, ok, err, arith, Bool-cases, Result-cases, inl, inr,
}
use fubun.Protocol.Frame.{
  io, max_message_size, to_le_bytes, from_le_bytes, read_exact, encode_payload, read_payload,
  read_frame, Serde, encode_json_frame, read_json_frame,
}

abbrev pub IsByte : ℕ → Type 0
IsByte b = b < 256

pub read_exact-append :
    (payload rest : List ℕ) → read_exact (length payload) (payload ++ rest) ≡ ok (payload, rest)
unfolding read_exact
read_exact-append [] rest = refl
read_exact-append (b ∷ payload) rest = ground (arith, read_exact-append payload rest)

read_exact-split :
    (n : ℕ) (input payload rest : List ℕ)
    → read_exact n input ≡ ok (payload, rest)
    → (input ≡ payload ++ rest) × (length payload ≡ n)
unfolding read_exact
read_exact-split zero input payload rest h = ground arith
read_exact-split (suc n) [] payload rest h = ground arith
read_exact-split (suc n) (b ∷ input) payload rest h = elim (Result-cases (read_exact n input)) [
  | inl ((bytes, tail), e) ↦ ground (arith, read_exact-split n input bytes tail)
  | inr (failure, e) ↦ cc (rw e at h)
]

read_exact_short : (n : ℕ) (input : List ℕ) → length input < n → read_exact n input ≡ err io
unfolding read_exact
read_exact_short zero input h = absurd (omega arith)
read_exact_short (suc n) [] h = refl
read_exact_short (suc n) (b ∷ input) h = ground (arith, read_exact_short n input)

pub le_bytes_value :
    (n : ℕ)
    → n ≤ max_message_size
    → from_le_bytes (n % 256) ((n / 256) % 256) ((n / 65536) % 256) ((n / 16777216) % 256) ≡ n
unfolding from_le_bytes
le_bytes_value n h = omega arith

le_bytes_bytes :
    (a b c d : ℕ)
    → a < 256
    → b < 256
    → c < 256
    → d < 256
    → to_le_bytes (from_le_bytes a b c d) ≡ a ∷ b ∷ c ∷ d ∷ []
unfolding to_le_bytes from_le_bytes
le_bytes_bytes a b c d ha hb hc hd = ground arith

-- A payload that `encode_payload` accepts is read back whole, and the bytes behind its frame are
-- left for the next read.
pub read_frame-encode_payload :
    (payload frame rest : List ℕ)
    → encode_payload payload ≡ ok frame
    → read_frame (frame ++ rest) ≡ ok (some payload, rest)
unfolding encode_payload read_frame to_le_bytes read_payload
read_frame-encode_payload payload frame rest h =
    ground (arith, le_bytes_value (length payload), read_exact-append payload rest)

-- A frame that is read, from an input whose first four numbers are bytes, is the one that
-- `encode_payload` writes for its payload; with the bytes left over it makes up the input.
pub encode_payload-read_frame :
    (a b c d : ℕ) (input payload rest : List ℕ)
    → All IsByte (a ∷ b ∷ c ∷ d ∷ [])
    → read_frame (a ∷ b ∷ c ∷ d ∷ input) ≡ ok (some payload, rest)
    → (frame : List ℕ) × (encode_payload payload ≡ ok frame)
      × (a ∷ b ∷ c ∷ d ∷ input ≡ frame ++ rest)
unfolding encode_payload read_frame read_payload
encode_payload-read_frame a b c d input payload rest h e =
    elim (Result-cases (read_exact (from_le_bytes a b c d) input)) [
      | inl ((bytes, tail), r) ↦ (
        to_le_bytes (length payload) ++ payload,
        ground (arith, read_exact-split (from_le_bytes a b c d) input bytes tail r),
        ground (
          arith,
          read_exact-split (from_le_bytes a b c d) input bytes tail r,
          le_bytes_bytes a b c d,
        ),
      )
      | inr (failure, r) ↦ ground arith
    ]

cut_frame :
    (payload : List ℕ) (n : ℕ)
    → length payload ≤ max_message_size
    → 0 < n
    → n < length payload + 4
    → read_frame (take n (to_le_bytes (length payload) ++ payload)) ≡ err io
unfolding to_le_bytes read_frame read_payload
cut_frame payload zero small lo hi = absurd (omega arith)
cut_frame payload (suc zero) small lo hi = refl
cut_frame payload (suc (suc zero)) small lo hi = refl
cut_frame payload (suc (suc (suc zero))) small lo hi = refl
cut_frame payload (suc (suc (suc (suc n)))) small lo hi = ground (
  arith,
  le_bytes_value (length payload),
  length-take-le {0} n payload,
  read_exact_short (length payload) (take n payload),
)

-- An input that ends within the frame of a payload, after its first byte, is an input error.
pub read_frame_cut :
    (payload frame : List ℕ) (n : ℕ)
    → encode_payload payload ≡ ok frame
    → 0 < n
    → n < length frame
    → read_frame (take n frame) ≡ err io
unfolding encode_payload
read_frame_cut payload frame n h lo hi = elim (Bool-cases (ltb max_message_size (length payload))) [
  | inl large ↦ cc (rw (large, encode_payload) at h)
  | inr small ↦
      let e : to_le_bytes (length payload) ++ payload ≡ frame = ground arith in
      rw (← e)
        (cut_frame payload n (ground arith) lo (unfold to_le_bytes in omega (arith, ap length e)))
]

-- A message is read back as it was written, where serde parses what it printed for that message.
pub read_json_frame-encode_json_frame {ℓ} :
    {T : Type ℓ} (serde : Serde T) (value : T) (payload frame rest : List ℕ)
    → serde.to_vec value ≡ ok payload
    → serde.from_slice payload ≡ ok value
    → encode_json_frame serde value ≡ ok frame
    → read_json_frame serde (frame ++ rest) ≡ ok (some value, rest)
unfolding encode_json_frame read_json_frame
read_json_frame-encode_json_frame serde value payload frame rest printed parsed written =
    let e : encode_payload payload ≡ ok frame = rw printed at written in
    rw (read_frame-encode_payload payload frame rest e) (rw parsed)
