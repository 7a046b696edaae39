-- ===== src/Core/Definition.antt =====
-- `validate_ritual_definition` (crates/fubun-core/src/lib.rs).
use fubun.Prelude.{
  ℕ, ◌*◌, String, ltb, List, [], ◌∷◌, byte_len, Option, none, some, Result, ok, err, ◌>>=◌, ◌>>◌,
  fail_if, map_err,
}
use fubun.Domain.Action.{ActionSpec}
use fubun.Domain.Ritual
use fubun.Domain.Ritual.{RitualDefinition, RitualValidationError}
use fubun.Policy.{validate_action}
use fubun.Core.Host.{Host}

abbrev pub max_ritual_json_bytes : ℕ
max_ritual_json_bytes = 128 * 1024

unfoldable pub validate_registered : Host → List ActionSpec → Result String (Unit {0})
validate_registered host [] = ok tt
validate_registered host (action ∷ actions) = do
  descriptor ← map_err host.policy_error (validate_action action)
  validate_registered host actions

abbrev pub or_error : {E A : Type 0} → E → Option A → Result E A
or_error e none = err e
or_error e (some a) = ok a

-- The canonical JSON of a definition that may be stored.
unfoldable pub validate_ritual_definition : Host → RitualDefinition → Result String String
validate_ritual_definition host definition = do
  map_err host.ritual_error (Ritual.validate definition)
  validate_registered host definition.actions
  canonical ← or_error "ritual JSON could not be canonicalized" (host.canonical_json definition)
  fail_if (ltb max_ritual_json_bytes (byte_len canonical)) "ritual JSON exceeds the size limit"
  ok canonical
