-- ===== src/Adapter/Hello.antt =====
-- `AdapterManager::validate_hello` and its constants (crates/fubun-core/src/adapter.rs).
pub mod Validity
use text.Mathlib.Text.{starts_with}
use fubun.Prelude.{
  ℕ, ◌+◌, String, Bool, not, ◌&&◌, ◌||◌, ltb, ◌==◌, str_eq, is_some, List, [], ◌∷◌, ◌++◌, any,
  length, chars, byte_len, is_empty, is_control, is_whitespace, Result, ok, ◌>>◌, fail_if,
}
use fubun.Policy.{descriptor_by_type}
use fubun.Protocol.Message.{AdapterHello}

pub data AdapterRegistrationError : Type 0 where
  unknown_adapter invalid_version invalid_capability_count : AdapterRegistrationError
  invalid_capability unknown_capability duplicate_capability : AdapterRegistrationError

abbrev pub linux_adapter_id : String
linux_adapter_id = "dev.fubun.linux"

abbrev pub browser_adapter_id : String
browser_adapter_id = "dev.fubun.browser.chromium"

abbrev pub vscode_adapter_id : String
vscode_adapter_id = "dev.fubun.vscode"

abbrev pub max_adapter_version_bytes : ℕ
max_adapter_version_bytes = 128

abbrev pub max_capabilities : ℕ
max_capabilities = 16

abbrev pub max_capability_bytes : ℕ
max_capability_bytes = 128

abbrev pub event_capabilities : List String
event_capabilities =
    "dev.fubun.browser.resource.opened.v1" ∷ "dev.fubun.vscode.workspace.opened.v1" ∷ []

abbrev pub contains : List String → String → Bool
contains texts text = any (λ candidate. str_eq candidate text) texts

-- The tests of one capability, in the source's order; `seen` holds the ones before it.
unfoldable pub check_capability :
    String → List String → String → Result AdapterRegistrationError (Unit {0})
check_capability adapter_id seen capability = do
  fail_if
      (is_empty capability
        || ltb max_capability_bytes (byte_len capability)
        || any (λ c. is_control c || is_whitespace c) (chars capability))
      invalid_capability
  fail_if
      (not (is_some (descriptor_by_type capability))
        && not (contains event_capabilities capability))
      unknown_capability
  fail_if (str_eq adapter_id vscode_adapter_id && is_some (descriptor_by_type capability))
      unknown_capability
  fail_if (str_eq adapter_id browser_adapter_id && starts_with capability "dev.fubun.vscode.")
      unknown_capability
  fail_if
      (str_eq capability "browser.tab.ensure_open.v1" && not (str_eq adapter_id browser_adapter_id))
      unknown_capability
  fail_if
      ((str_eq capability "linux.app.ensure_running.v1"
          || str_eq capability "linux.path.open.v1"
          || str_eq capability "desktop.notification.show.v1")
        && not (str_eq adapter_id linux_adapter_id))
      unknown_capability
  fail_if
      (str_eq capability "dev.fubun.browser.resource.opened.v1"
        && not (str_eq adapter_id browser_adapter_id))
      unknown_capability
  fail_if
      (str_eq capability "dev.fubun.vscode.workspace.opened.v1"
        && not (str_eq adapter_id vscode_adapter_id))
      unknown_capability
  fail_if (contains seen capability) duplicate_capability

unfoldable pub check_capabilities :
    String → List String → List String → Result AdapterRegistrationError (Unit {0})
check_capabilities adapter_id seen [] = ok tt
check_capabilities adapter_id seen (capability ∷ capabilities) = do
  check_capability adapter_id seen capability
  check_capabilities adapter_id (capability ∷ seen) capabilities

unfoldable pub validate_hello : AdapterHello → Result AdapterRegistrationError (Unit {0})
validate_hello hello = do
  fail_if
      (not (
        str_eq hello.adapter_id linux_adapter_id
        || str_eq hello.adapter_id browser_adapter_id
        || str_eq hello.adapter_id vscode_adapter_id))
      unknown_adapter
  fail_if
      (is_empty hello.adapter_version
        || ltb max_adapter_version_bytes (byte_len hello.adapter_version)
        || any is_control (chars hello.adapter_version))
      invalid_version
  fail_if
      (ltb max_capabilities (length hello.action_capabilities + length hello.event_capabilities)
        || (length hello.action_capabilities == 0 && length hello.event_capabilities == 0))
      invalid_capability_count
  check_capabilities hello.adapter_id [] (hello.action_capabilities ++ hello.event_capabilities)
