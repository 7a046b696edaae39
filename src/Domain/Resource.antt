-- ===== src/Domain/Resource.antt =====
-- `Resource`, its validator and `ObservationScope` (crates/fubun-domain/src/lib.rs).
pub mod Validity
use fubun.Prelude.{
  ℕ, String, Bool, true, false, not, ◌&&◌, ◌||◌, ltb, leb, ◌==◌, str_eq, if◌then◌else◌, List, [],
  ◌∷◌, any, chars, byte_len, char_count, is_empty, Result, ok, err, ◌>>=◌, ◌>>◌, fail_if, map_err,
}
use fubun.Domain.Base.{Uuid, Timestamp}
use fubun.Domain.WebUrl.{UrlLibrary, WebUrlError, canonicalize_web_url}

pub data ResourceKind : Type 0 where
  file directory web_page : ResourceKind

-- The derived `PartialEq`.
unfoldable pub kind_eq : ResourceKind → ResourceKind → Bool
kind_eq file file = true
kind_eq directory directory = true
kind_eq web_page web_page = true
kind_eq _ _ = false

pub data ResourceScope : Type 0 where
  exact : ResourceScope

pub data Sensitivity : Type 0 where
  normal sensitive : Sensitivity

pub record Resource : Type 0 where
  pub id : Uuid
  pub kind : ResourceKind
  pub label : String
  pub locator : String
  pub canonical_locator : String
  pub sensitivity : Sensitivity
  pub scope : ResourceScope
  pub created_at : Timestamp
  pub updated_at : Timestamp

pub data ResourceValidationError : Type 0 where
  invalid_label relative_path control_character locator_too_long : ResourceValidationError
  invalid_canonical_path invalid_web_url : ResourceValidationError

-- The bytes of a scalar value from 128 on are 128 or more, so that the test on bytes below 32 is a
-- test on scalar values.
unfoldable pub validate_path_string : String → Result ResourceValidationError (Unit {0})
validate_path_string value =
    if is_empty value || ltb 4096 (byte_len value) || any (λ c. c == 0 || ltb c 32) (chars value)
    then (if ltb 4096 (byte_len value) then err locator_too_long else err control_character)
    else ok tt

-- `Path::is_absolute` on Unix: the path begins with `/`.
abbrev starts_with_slash : List ℕ → Bool
starts_with_slash [] = false
starts_with_slash (c ∷ cs) = c == b'/'

unfoldable pub is_absolute : String → Bool
is_absolute path = starts_with_slash (chars path)

unfoldable pub validate_locators : String → String → Result ResourceValidationError (Unit {0})
validate_locators locator canonical_locator = do
  validate_path_string locator
  validate_path_string canonical_locator
  fail_if (not (is_absolute locator)) relative_path
  fail_if (not (is_absolute canonical_locator)) invalid_canonical_path

unfoldable pub validate_web :
    UrlLibrary → String → String → Result ResourceValidationError (Unit {0})
validate_web u locator canonical_locator = do
  canonical ← map_err (λ (e : WebUrlError). invalid_web_url) (canonicalize_web_url u locator)
  fail_if (not (str_eq canonical locator) || not (str_eq canonical canonical_locator))
      invalid_web_url

unfoldable pub validate : UrlLibrary → Resource → Result ResourceValidationError (Unit {0})
validate u resource = do
  fail_if (not (leb 1 (char_count resource.label) && leb (char_count resource.label) 128))
      invalid_label
  if kind_eq resource.kind web_page
      then validate_web u resource.locator resource.canonical_locator
      else validate_locators resource.locator resource.canonical_locator

pub data ObservationSource : Type 0 where
  browser_chromium vscode_workspace : ObservationSource

-- The derived `PartialEq`.
unfoldable pub source_eq : ObservationSource → ObservationSource → Bool
source_eq browser_chromium browser_chromium = true
source_eq vscode_workspace vscode_workspace = true
source_eq _ _ = false

pub data ObservationStatus : Type 0 where
  active paused : ObservationStatus

unfoldable pub is_active : ObservationStatus → Bool
is_active active = true
is_active paused = false

pub record ObservationScope : Type 0 where
  pub id : Uuid
  pub source : ObservationSource
  pub resource_id : Uuid
  pub status : ObservationStatus
  pub created_at : Timestamp
  pub updated_at : Timestamp
