-- ===== src/Core/Redact.antt =====
-- `redact_message` (crates/fubun-core/src/lib.rs).
use Prim.Native.Char.{code}
use Prim.Native.String.{String}
use fubun.Prelude.{
  ℕ, zero, suc, ◌≤◌, ◌≡◌, refl, true, false, not, all, chars, char_count, is_control, arith,
}

-- `.chars().filter(|c| !c.is_control()).take(n).collect()`.
unfoldable pub take_printable : ℕ → String → String
take_printable zero s = String.[]
take_printable (suc n) String.[] = String.[]
take_printable (suc n) (String.◌∷◌ c s) = elim (is_control (code c)) [
  | true ↦ take_printable (suc n) s
  | false ↦ String.◌∷◌ c (take_printable n s)
]

unfoldable pub redact_message : String → String
unfolding take_printable
redact_message message = take_printable 160 message

take_printable_bounds :
    (n : ℕ) (s : String)
    → (char_count (take_printable n s) ≤ n)
      × (all (λ c. not (is_control c)) (chars (take_printable n s)) ≡ true)
unfolding take_printable
take_printable_bounds zero s = (omega arith, refl)
take_printable_bounds (suc n) String.[] = (omega arith, refl)
take_printable_bounds (suc n) (String.◌∷◌ c s) =
    ground (arith, take_printable_bounds n s, take_printable_bounds (suc n) s)

-- A redacted message has at most 160 characters, none of them a control character.
pub redact_message_bounds :
    (message : String)
    → (char_count (redact_message message) ≤ 160)
      × (all (λ c. not (is_control c)) (chars (redact_message message)) ≡ true)
unfolding redact_message
redact_message_bounds message = take_printable_bounds 160 message

take_printable_fixed :
    (n : ℕ) (s : String)
    → char_count s ≤ n
    → all (λ c. not (is_control c)) (chars s) ≡ true
    → take_printable n s ≡ s
unfolding take_printable
take_printable_fixed zero String.[] h k = refl
take_printable_fixed zero (String.◌∷◌ c s) h k = absurd (omega arith)
take_printable_fixed (suc n) String.[] h k = refl
take_printable_fixed (suc n) (String.◌∷◌ c s) h k = ground (arith, take_printable_fixed n s)

-- A message of at most 160 characters with no control character is stored as it is.
pub redact_message_fixed :
    (message : String)
    → char_count message ≤ 160
    → all (λ c. not (is_control c)) (chars message) ≡ true
    → redact_message message ≡ message
unfolding redact_message
redact_message_fixed message h k = take_printable_fixed 160 message h k
