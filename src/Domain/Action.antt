-- ===== src/Domain/Action.antt =====
-- `ActionSpec` and its validators (crates/fubun-domain/src/lib.rs).
use fubun.Prelude.{
  ℕ, String, Bool, false, not, ◌&&◌, ◌||◌, ltb, leb, ◌==◌, str_eq, if◌then◌else◌, any, all, chars,
  byte_len, char_count, is_empty, is_control, Result, ok, err, ◌>>◌,
}
use fubun.Domain.Base.{Uuid}

pub data ActionSpec : Type 0 where
  linux_app_ensure_running : String → ActionSpec
  linux_path_open : Uuid → ActionSpec
  desktop_notification_show : String → String → ActionSpec
  browser_tab_ensure_open : Uuid → ActionSpec

unfoldable pub action_type : ActionSpec → String
action_type (linux_app_ensure_running app_id) = "linux.app.ensure_running.v1"
action_type (linux_path_open resource_id) = "linux.path.open.v1"
action_type (desktop_notification_show title body) = "desktop.notification.show.v1"
action_type (browser_tab_ensure_open resource_id) = "browser.tab.ensure_open.v1"

-- The derived `PartialEq`.
unfoldable pub action_eq : ActionSpec → ActionSpec → Bool
action_eq (linux_app_ensure_running a) (linux_app_ensure_running b) = str_eq a b
action_eq (linux_path_open a) (linux_path_open b) = a == b
action_eq (desktop_notification_show t b) (desktop_notification_show u c) = str_eq t u && str_eq b c
action_eq (browser_tab_ensure_open a) (browser_tab_ensure_open b) = a == b
action_eq _ _ = false

pub data ActionValidationError : Type 0 where
  invalid_app_id : ActionValidationError
  invalid_notification : String → ℕ → ActionValidationError

unfoldable pub is_ascii_alphanumeric : ℕ → Bool
is_ascii_alphanumeric c =
    (leb b'0' c && leb c b'9') || (leb b'A' c && leb c b'Z') || (leb b'a' c && leb c b'z')

unfoldable pub is_app_id_byte : ℕ → Bool
unfolding is_ascii_alphanumeric
is_app_id_byte c = is_ascii_alphanumeric c || c == b'.' || c == b'_' || c == b'-'

-- The source tests the bytes of the UTF-8 form. A scalar value from 128 on has only bytes from 128
-- on there, which the test refuses as it refuses the scalar value.
unfoldable pub validate_app_id : String → Result ActionValidationError (Unit {0})
validate_app_id app_id =
    if is_empty app_id || ltb 128 (byte_len app_id) || not (all is_app_id_byte (chars app_id))
    then err invalid_app_id
    else ok tt

unfoldable pub validate_notification : String → String → ℕ → Result ActionValidationError (Unit {0})
validate_notification field value maximum =
    if is_empty value || ltb maximum (char_count value) || any is_control (chars value)
    then err (invalid_notification field maximum)
    else ok tt

unfoldable pub validate : ActionSpec → Result ActionValidationError (Unit {0})
validate (linux_app_ensure_running app_id) = validate_app_id app_id
validate (linux_path_open resource_id) = ok tt
validate (desktop_notification_show title body) = do
  validate_notification "title" title 128
  validate_notification "body" body 1024
validate (browser_tab_ensure_open resource_id) = ok tt
