-- ===== src/Tests/NativeHost.antt =====
-- The native host at one origin, one message and one hello.
use fubun.Prelude.{ℕ, ◌≤◌, ◌≡◌, refl, List, [], ◌∷◌, chars, some, ok, arith, is_control, byte_len}
use fubun.Tests.Frames.{serde}
use fubun.NativeHost.Origin.{validate_origin, validate_origin-IsExtensionId}
use fubun.NativeHost.Frame.{
  write_native_frame, write_native_envelope, read_native_frame,
  read_native_frame-write_native_envelope,
}
use fubun.NativeHost.Hello.{
  ExtensionHello, IsFaithful, validate_extension_hello, greet_core, hello_to_core,
  greet_core-IsFaithful,
}
use fubun.Protocol.Frame.{to_le_bytes}

abbrev extension : List ℕ
extension = chars "abcdefghijklmnopabcdefghijklmnop"

validate_origin-IsExtensionId_example :
    validate_origin (chars "chrome-extension://abcdefghijklmnopabcdefghijklmnop/") ≡ ok extension
validate_origin-IsExtensionId_example =
    (validate_origin-IsExtensionId (chars "chrome-extension://abcdefghijklmnopabcdefghijklmnop/")
        extension).1
      (record { size = refl; letters = refl }, refl)

written : write_native_envelope serde 7 ≡ ok (1 ∷ 0 ∷ 0 ∷ 0 ∷ 7 ∷ [])
unfolding write_native_envelope write_native_frame to_le_bytes
written = refl

read_native_frame-write_native_envelope_example :
    read_native_frame serde (1 ∷ 0 ∷ 0 ∷ 0 ∷ 7 ∷ 8 ∷ []) ≡ ok (some 7, 8 ∷ [])
read_native_frame-write_native_envelope_example =
    read_native_frame-write_native_envelope serde 7 (7 ∷ []) (1 ∷ 0 ∷ 0 ∷ 0 ∷ 7 ∷ []) (8 ∷ []) refl
      refl (omega arith) written

abbrev greeting : ExtensionHello
greeting = record {
  extension_id = "abcdefghijklmnopabcdefghijklmnop";
  extension_version = "0.1.0";
  extension_instance_id = 5;
  permitted_resource_ids = 8 ∷ 9 ∷ [];
}

greeted :
    greet_core "0.1.0" greeting "abcdefghijklmnopabcdefghijklmnop"
    ≡ ok (hello_to_core "0.1.0" greeting)
unfolding greet_core validate_extension_hello byte_len is_control
greeted = refl

short_version : (byte_len "0.1.0") ≤ 128
unfolding byte_len
short_version = omega arith

greet_core-IsFaithful_example :
    IsFaithful greeting "abcdefghijklmnopabcdefghijklmnop" (hello_to_core "0.1.0" greeting)
unfolding is_control
greet_core-IsFaithful_example =
    greet_core-IsFaithful "0.1.0" "abcdefghijklmnopabcdefghijklmnop" greeting
      (hello_to_core "0.1.0" greeting) refl short_version refl greeted
