-- ===== src/NativeHost/Hello.antt =====
-- `validate_extension_hello` and the hello that `run_host` sends to the daemon
-- (apps/fubun-native-host/src/main.rs). The version of the package is a parameter.
use fubun.Prelude.{
  ◌≤◌, ◌≡◌, refl, ltb, ◌==◌, not, ◌||◌, false, if◌then◌else◌, List, [], ◌∷◌, length, any, chars,
  byte_len, is_empty, is_control, is_whitespace, String, str_eq, eq_iff, Result, ok, fail_if, ◌>>◌,
  arith, Result-cases, inl, inr, subst,
}
use fubun.Domain.Base.{Uuid}
use fubun.Protocol.Message.{AdapterHello}
use fubun.Policy.{descriptor_by_type}
use fubun.Adapter.Hello.{check_capability, check_capabilities, validate_hello}

pub record ExtensionHello : Type 0 where
  pub extension_id : String
  pub extension_version : String
  pub extension_instance_id : Uuid
  pub permitted_resource_ids : List Uuid

pub data ExtensionHelloError : Type 0 where
  identity_mismatch : ExtensionHelloError
  invalid_extension_version : ExtensionHelloError
  invalid_permitted_resources : ExtensionHelloError

-- The elements of the set that is collected from a list, each once.
abbrev pub unique_ids : List Uuid → List Uuid
unique_ids [] = []
unique_ids (id ∷ ids) =
    if any (λ other. id == other) ids then unique_ids ids else id ∷ unique_ids ids

unfoldable pub validate_extension_hello :
    ExtensionHello → String → Result ExtensionHelloError (Unit {0})
validate_extension_hello hello expected_extension_id = do
  fail_if (not (str_eq hello.extension_id expected_extension_id)) identity_mismatch
  fail_if
      (is_empty hello.extension_version
        || ltb 64 (byte_len hello.extension_version)
        || any is_control (chars hello.extension_version))
      invalid_extension_version
  fail_if
      (ltb 256 (length hello.permitted_resource_ids)
        || not (
            length (unique_ids hello.permitted_resource_ids)
            == length hello.permitted_resource_ids))
      invalid_permitted_resources

-- `ADAPTER_ID`, `ACTION_CAPABILITIES` and `EVENT_CAPABILITIES` with what the extension said.
unfoldable pub hello_to_core : String → ExtensionHello → AdapterHello
hello_to_core package_version hello = record {
  adapter_id = "dev.fubun.browser.chromium";
  adapter_version = package_version;
  instance_id = hello.extension_instance_id;
  action_capabilities = "browser.tab.ensure_open.v1" ∷ [];
  event_capabilities = "dev.fubun.browser.resource.opened.v1" ∷ [];
  status = record {
    tools = [];
    desktop_entry_ids = [];
    permitted_resource_ids = hello.permitted_resource_ids;
  };
}

-- What the native host sends for an extension's hello that it accepts.
unfoldable pub greet_core :
    String → ExtensionHello → String → Result ExtensionHelloError AdapterHello
greet_core package_version hello expected_extension_id = do
  validate_extension_hello hello expected_extension_id
  ok (hello_to_core package_version hello)

-- No identifier stands twice.
abbrev pub AreUnique : List Uuid → Type 0
AreUnique [] = Unit {0}
AreUnique (id ∷ ids) = (any (λ other. id == other) ids ≡ false) × AreUnique ids

length-unique_ids : (ids : List Uuid) → length (unique_ids ids) ≤ length ids
length-unique_ids [] = ground arith
length-unique_ids (id ∷ ids) = ground (arith, length-unique_ids ids)

unique_ids-AreUnique : (ids : List Uuid) → length (unique_ids ids) ≡ length ids → AreUnique ids
unique_ids-AreUnique [] h = tt
unique_ids-AreUnique (id ∷ ids) h = ground (arith, length-unique_ids ids, unique_ids-AreUnique ids)

-- What the hello of the native host promises of the extension it speaks for.
pub record IsFaithful (hello : ExtensionHello) (expected : String) (sent : AdapterHello)
    : Type 0 where
  pub expected_extension : hello.extension_id ≡ expected
  pub accepted : validate_hello sent ≡ ok tt
  pub same_instance : sent.instance_id ≡ hello.extension_instance_id
  pub same_resources : sent.status.permitted_resource_ids ≡ hello.permitted_resource_ids
  pub few_resources : length sent.status.permitted_resource_ids ≤ 256
  pub unique_resources : AreUnique sent.status.permitted_resource_ids

accepted_hello :
    (package_version : String) (hello : ExtensionHello)
    → is_empty package_version ≡ false
    → byte_len package_version ≤ 128
    → any is_control (chars package_version) ≡ false
    → validate_hello (hello_to_core package_version hello) ≡ ok tt
unfolding validate_hello hello_to_core check_capabilities check_capability descriptor_by_type
    is_control is_whitespace byte_len
accepted_hello package_version hello named short printable = ground arith

validated :
    (hello : ExtensionHello) (expected : String)
    → validate_extension_hello hello expected ≡ ok tt
    → (hello.extension_id ≡ expected)
      × (length hello.permitted_resource_ids ≤ 256)
      × (length (unique_ids hello.permitted_resource_ids) ≡ length hello.permitted_resource_ids)
unfolding validate_extension_hello
validated hello expected h = ground (arith, eq_iff hello.extension_id expected)

-- The hello that the native host sends, once it has accepted an extension's hello, is the one of the
-- expected extension: it has its instance and its permitted resources, at most 256 and none twice,
-- and the daemon accepts it, where the version of the package has 1 to 128 bytes and no control
-- character.
pub greet_core-IsFaithful :
    (package_version expected : String) (hello : ExtensionHello) (sent : AdapterHello)
    → is_empty package_version ≡ false
    → byte_len package_version ≤ 128
    → any is_control (chars package_version) ≡ false
    → greet_core package_version hello expected ≡ ok sent
    → IsFaithful hello expected sent
unfolding greet_core hello_to_core
greet_core-IsFaithful package_version expected hello sent named short printable h =
    elim (Result-cases (validate_extension_hello hello expected)) [
      | inr (failure, e) ↦ cc (rw e at h)
      | inl (done, e) ↦
          let (same_id, few, distinct) = validated hello expected e in
          let same : hello_to_core package_version hello ≡ sent = cc (rw e at h) in
          subst (IsFaithful hello expected) same (record {
            expected_extension = same_id;
            accepted = accepted_hello package_version hello named short printable;
            same_instance = refl;
            same_resources = refl;
            few_resources = few;
            unique_resources = unique_ids-AreUnique hello.permitted_resource_ids distinct;
          })
    ]
