-- ===== src/Domain/Resource/Validity.antt =====
-- `Resource::validate` against a description of the resources that it accepts.
use fubun.Prelude.{
  ◌≤◌, ◌≡◌, ◌↔◌, String, true, false, ◌||◌, ◌==◌, if◌then◌else◌, ltb, any, chars, byte_len,
  char_count, is_empty, eq_iff, ok, Result-cases, inl, inr, arith,
}
use fubun.Domain.WebUrl.{UrlLibrary, canonicalize_web_url}
use fubun.Domain.Resource.{
  Resource, ResourceKind, file, directory, web_page, kind_eq, is_absolute, validate_path_string,
  validate_locators, validate_web, validate,
}

pub record IsPath (path : String) : Type 0 where
  nonempty : is_empty path ≡ false
  short : byte_len path ≤ 4096
  printable : any (λ c. c == 0 || ltb c 32) (chars path) ≡ false
  absolute : is_absolute path ≡ true

-- A web page's locator is its own canonical form; a path is absolute.
abbrev pub IsLocated : UrlLibrary → ResourceKind → String → String → Type 0
IsLocated u file locator canonical = IsPath locator × IsPath canonical
IsLocated u directory locator canonical = IsPath locator × IsPath canonical
IsLocated u web_page locator canonical =
    (canonicalize_web_url u locator ≡ ok locator) × (canonical ≡ locator)

pub record IsValidResource (u : UrlLibrary) (resource : Resource) : Type 0 where
  pub labelled : (1 ≤ char_count resource.label) × (char_count resource.label ≤ 128)
  pub located : IsLocated u resource.kind resource.locator resource.canonical_locator

validate_path_string_iff :
    (path : String)
    → ((validate_path_string path ≡ ok tt) × (is_absolute path ≡ true)) ↔ IsPath path
unfolding validate_path_string
validate_path_string_iff path = ground arith

validate_locators_iff :
    (locator canonical : String)
    → (validate_locators locator canonical ≡ ok tt) ↔ (IsPath locator × IsPath canonical)
unfolding validate_locators
validate_locators_iff locator canonical =
    ground (arith, validate_path_string_iff locator, validate_path_string_iff canonical)

validate_web_sound :
    (u : UrlLibrary) (locator canonical : String)
    → validate_web u locator canonical ≡ ok tt
    → IsLocated u web_page locator canonical
unfolding validate_web
validate_web_sound u locator canonical h = elim (Result-cases (canonicalize_web_url u locator)) [
  | inl (found, e) ↦ ground (arith, eq_iff found locator, eq_iff found canonical)
  | inr (failure, e) ↦ ground arith
]

validate_web_complete :
    (u : UrlLibrary) (locator canonical : String)
    → IsLocated u web_page locator canonical
    → validate_web u locator canonical ≡ ok tt
unfolding validate_web
validate_web_complete u locator canonical h =
    ground (arith, eq_iff locator locator, eq_iff locator canonical)

IsLocated-iff :
    (u : UrlLibrary) (kind : ResourceKind) (locator canonical : String)
    → ((if kind_eq kind web_page
          then validate_web u locator canonical
          else validate_locators locator canonical)
        ≡ ok tt)
      ↔ IsLocated u kind locator canonical
unfolding kind_eq
IsLocated-iff u file locator canonical = validate_locators_iff locator canonical
IsLocated-iff u directory locator canonical = validate_locators_iff locator canonical
IsLocated-iff u web_page locator canonical =
    (validate_web_sound u locator canonical, validate_web_complete u locator canonical)

validate_sound :
    (u : UrlLibrary) (resource : Resource)
    → validate u resource ≡ ok tt
    → IsValidResource u resource
unfolding validate
validate_sound u resource h =
    ground (arith, IsLocated-iff u resource.kind resource.locator resource.canonical_locator)

validate_complete :
    (u : UrlLibrary) (resource : Resource)
    → IsValidResource u resource
    → validate u resource ≡ ok tt
unfolding validate
validate_complete u resource h =
    ground (arith, IsLocated-iff u resource.kind resource.locator resource.canonical_locator)

-- `Resource::validate` accepts exactly the resources with a label of 1 to 128 characters that are a
-- web page whose locator is its own canonical form and stands as canonical locator too, or a file or
-- directory whose two locators are absolute paths of 1 to 4096 bytes without control characters
-- below the space.
pub validate-IsValidResource :
    (u : UrlLibrary) (resource : Resource)
    → (validate u resource ≡ ok tt) ↔ IsValidResource u resource
validate-IsValidResource u resource = (validate_sound u resource, validate_complete u resource)
