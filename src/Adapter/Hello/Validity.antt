-- ===== src/Adapter/Hello/Validity.antt =====
-- `validate_hello` against the table of what each adapter may offer.
use fubun.Prelude.{
  ◌≡◌, ◌↔◌, ◌⊎◌, inl, inr, String, Bool, true, false, ◌&&◌, ◌||◌, str_eq, eq_iff, subst, sym, List,
  [], ◌∷◌, chars, ◌++◌, ◌+◌, ◌≤◌, length, any, byte_len, is_empty, is_control, is_whitespace, ok,
  arith, Bool-cases,
}
use fubun.Protocol.Message.{AdapterHello}
use fubun.Policy.{descriptor_by_type}
use fubun.Adapter.Hello.{
  linux_adapter_id, browser_adapter_id, vscode_adapter_id, contains, check_capability,
  check_capabilities, validate_hello,
}

-- What an adapter may offer.
abbrev pub is_offered : String → String → Bool
is_offered adapter_id capability =
    (str_eq adapter_id linux_adapter_id
      && (str_eq capability "linux.app.ensure_running.v1"
          || str_eq capability "linux.path.open.v1"
          || str_eq capability "desktop.notification.show.v1"))
    || (str_eq adapter_id browser_adapter_id
        && (str_eq capability "browser.tab.ensure_open.v1"
            || str_eq capability "dev.fubun.browser.resource.opened.v1"))
    || (str_eq adapter_id vscode_adapter_id
        && str_eq capability "dev.fubun.vscode.workspace.opened.v1")

abbrev Checks : String → List String → String → Type 0
Checks adapter_id seen capability =
    (check_capability adapter_id seen capability ≡ ok tt)
    ↔ ((is_offered adapter_id capability ≡ true) × (contains seen capability ≡ false))

-- No descriptor and no event has this name.
record IsUnknown (capability : String) : Type 0 where
  not_app : str_eq capability "linux.app.ensure_running.v1" ≡ false
  not_path : str_eq capability "linux.path.open.v1" ≡ false
  not_notification : str_eq capability "desktop.notification.show.v1" ≡ false
  not_tab : str_eq capability "browser.tab.ensure_open.v1" ≡ false
  not_browser : str_eq capability "dev.fubun.browser.resource.opened.v1" ≡ false
  not_vscode : str_eq capability "dev.fubun.vscode.workspace.opened.v1" ≡ false

same_name :
    (adapter_id : String) (seen : List String) (name capability : String)
    → str_eq capability name ≡ true
    → Checks adapter_id seen name
    → Checks adapter_id seen capability
same_name adapter_id seen name capability e =
    subst (λ c. Checks adapter_id seen c) (sym ((eq_iff capability name).0 e))

str_eq_swap : (a b : String) → str_eq a b ≡ false → str_eq b a ≡ false
str_eq_swap a b h = elim (Bool-cases (str_eq b a)) [
  | inl t ↦ let e = (eq_iff a b).1 (sym ((eq_iff b a).0 t)) in cc
  | inr f ↦ f
]

unknown-Checks :
    (adapter_id : String) (seen : List String) (capability : String)
    → IsUnknown capability
    → Checks adapter_id seen capability
unfolding check_capability descriptor_by_type
unknown-Checks adapter_id seen capability h = ground (
  arith,
  h.not_app,
  h.not_path,
  h.not_notification,
  h.not_tab,
  h.not_browser,
  h.not_vscode,
  str_eq_swap capability _ h.not_browser,
  str_eq_swap capability _ h.not_vscode,
)

-- A name is one of six or unknown.
Checks-by_name :
    (adapter_id : String) (seen : List String)
    → Checks adapter_id seen "linux.app.ensure_running.v1"
    → Checks adapter_id seen "linux.path.open.v1"
    → Checks adapter_id seen "desktop.notification.show.v1"
    → Checks adapter_id seen "browser.tab.ensure_open.v1"
    → Checks adapter_id seen "dev.fubun.browser.resource.opened.v1"
    → Checks adapter_id seen "dev.fubun.vscode.workspace.opened.v1"
    → (capability : String) → Checks adapter_id seen capability
Checks-by_name adapter_id seen app path notification tab browser vscode capability =
    elim (Bool-cases (str_eq capability "linux.app.ensure_running.v1")) [
      | inl t ↦ same_name adapter_id seen _ capability t app
      | inr f0 ↦ elim (Bool-cases (str_eq capability "linux.path.open.v1")) [
        | inl t ↦ same_name adapter_id seen _ capability t path
        | inr f1 ↦ elim (Bool-cases (str_eq capability "desktop.notification.show.v1")) [
          | inl t ↦ same_name adapter_id seen _ capability t notification
          | inr f2 ↦ elim (Bool-cases (str_eq capability "browser.tab.ensure_open.v1")) [
            | inl t ↦ same_name adapter_id seen _ capability t tab
            | inr f3 ↦
                elim (Bool-cases (str_eq capability "dev.fubun.browser.resource.opened.v1")) [
                  | inl t ↦ same_name adapter_id seen _ capability t browser
                  | inr f4 ↦
                      elim (Bool-cases (str_eq capability "dev.fubun.vscode.workspace.opened.v1")) [
                        | inl t ↦ same_name adapter_id seen _ capability t vscode
                        | inr f5 ↦ unknown-Checks adapter_id seen capability (record {
                          not_app = f0;
                          not_path = f1;
                          not_notification = f2;
                          not_tab = f3;
                          not_browser = f4;
                          not_vscode = f5;
                        })
                      ]
                ]
          ]
        ]
      ]
    ]

linux-Checks : (seen : List String) (capability : String) → Checks linux_adapter_id seen capability
unfolding check_capability descriptor_by_type is_control is_whitespace byte_len
linux-Checks seen =
    Checks-by_name linux_adapter_id seen (ground arith) (ground arith) (ground arith) (ground arith)
      (ground arith) (ground arith)

browser-Checks :
    (seen : List String) (capability : String) → Checks browser_adapter_id seen capability
unfolding check_capability descriptor_by_type is_control is_whitespace byte_len
browser-Checks seen =
    Checks-by_name browser_adapter_id seen (ground arith) (ground arith) (ground arith)
      (ground arith) (ground arith) (ground arith)

vscode-Checks :
    (seen : List String) (capability : String) → Checks vscode_adapter_id seen capability
unfolding check_capability descriptor_by_type is_control is_whitespace byte_len
vscode-Checks seen =
    Checks-by_name vscode_adapter_id seen (ground arith) (ground arith) (ground arith)
      (ground arith) (ground arith) (ground arith)

abbrev IsKnown : String → Type 0
IsKnown adapter_id =
    (adapter_id ≡ linux_adapter_id)
    ⊎ (adapter_id ≡ browser_adapter_id)
    ⊎ (adapter_id ≡ vscode_adapter_id)

known-Checks :
    (adapter_id : String)
    → IsKnown adapter_id
    → (seen : List String) (capability : String) → Checks adapter_id seen capability
known-Checks adapter_id (inl e) seen capability =
    subst (λ a. Checks a seen capability) (sym e) (linux-Checks seen capability)
known-Checks adapter_id (inr (inl e)) seen capability =
    subst (λ a. Checks a seen capability) (sym e) (browser-Checks seen capability)
known-Checks adapter_id (inr (inr e)) seen capability =
    subst (λ a. Checks a seen capability) (sym e) (vscode-Checks seen capability)

-- Each capability is one that the adapter may offer, and none stands twice; `seen` holds those
-- before.
abbrev AreOffered : String → List String → List String → Type 0
AreOffered adapter_id seen [] = Unit
AreOffered adapter_id seen (capability ∷ capabilities) =
    (is_offered adapter_id capability ≡ true)
    × (contains seen capability ≡ false)
    × AreOffered adapter_id (capability ∷ seen) capabilities

check_capabilities_iff :
    (adapter_id : String)
    → IsKnown adapter_id
    → (seen capabilities : List String)
    → (check_capabilities adapter_id seen capabilities ≡ ok tt)
      ↔ AreOffered adapter_id seen capabilities
unfolding check_capabilities
check_capabilities_iff adapter_id known seen [] = ground arith
check_capabilities_iff adapter_id known seen (capability ∷ capabilities) = ground (
  arith,
  known-Checks adapter_id known seen capability,
  check_capabilities_iff adapter_id known (capability ∷ seen) capabilities,
)

pub record IsValidHello (hello : AdapterHello) : Type 0 where
  known : IsKnown hello.adapter_id
  versioned : is_empty hello.adapter_version ≡ false
  short : byte_len hello.adapter_version ≤ 128
  printable : any is_control (chars hello.adapter_version) ≡ false
  nonempty : 1 ≤ length hello.action_capabilities + length hello.event_capabilities
  few : length hello.action_capabilities + length hello.event_capabilities ≤ 16
  offered : AreOffered hello.adapter_id [] (hello.action_capabilities ++ hello.event_capabilities)

validate_hello_sound : (hello : AdapterHello) → validate_hello hello ≡ ok tt → IsValidHello hello
unfolding validate_hello
validate_hello_sound hello h =
    let known : IsKnown hello.adapter_id = ground (
      arith,
      eq_iff hello.adapter_id linux_adapter_id,
      eq_iff hello.adapter_id browser_adapter_id,
      eq_iff hello.adapter_id vscode_adapter_id,
    ) in
    ground (
      arith,
      check_capabilities_iff hello.adapter_id known []
          (hello.action_capabilities ++ hello.event_capabilities),
    )

validate_hello_complete : (hello : AdapterHello) → IsValidHello hello → validate_hello hello ≡ ok tt
unfolding validate_hello
validate_hello_complete hello h = ground (
  arith,
  eq_iff hello.adapter_id linux_adapter_id,
  eq_iff hello.adapter_id browser_adapter_id,
  eq_iff hello.adapter_id vscode_adapter_id,
  check_capabilities_iff hello.adapter_id h.known []
      (hello.action_capabilities ++ hello.event_capabilities),
)

-- `validate_hello` accepts exactly the hellos of the three known adapters whose version has 1 to 128
-- bytes and no control character, and which offer 1 to 16 capabilities, none twice, each one that
-- the adapter may offer: the three desktop actions for the Linux adapter, the tab action and the
-- event of an opened resource for the browser, the event of an opened workspace for the editor.
pub validate_hello-IsValidHello :
    (hello : AdapterHello) → (validate_hello hello ≡ ok tt) ↔ IsValidHello hello
validate_hello-IsValidHello hello = (validate_hello_sound hello, validate_hello_complete hello)
