-- ===== src/Domain/WebUrl.antt =====
-- `canonicalize_web_url` (crates/fubun-domain/src/lib.rs) over the `url` crate, which is a parameter.
use fubun.Prelude.{
  ℕ, String, Bool, false, not, ◌&&◌, ◌||◌, ltb, ◌==◌, str_eq, if◌then◌else◌, is_empty, is_some,
  byte_len, Option, none, some, Result, ok, err, ◌>>=◌, ◌>>◌, fail_if,
}

pub data WebUrlError : Type 0 where
  unsupported_scheme missing_host user_info too_long parse_error : WebUrlError

abbrev pub web_url_max_bytes : ℕ
web_url_max_bytes = 2048

-- The methods of `url::Url` that the crate calls. `clear_query`, `clear_fragment` and `clear_port`
-- are the setters at `None`; the last one may refuse.
pub record UrlLibrary : Type 1 where
  pub Url : Type 0
  pub parse : String → Option Url
  pub scheme : Url → String
  pub username : Url → String
  pub password : Url → Option String
  pub host_str : Url → Option String
  pub port : Url → Option ℕ
  pub path : Url → String
  pub clear_query : Url → Url
  pub clear_fragment : Url → Url
  pub set_path : String → Url → Url
  pub clear_port : Url → Option Url
  pub to_string : Url → String

unfoldable pub or_parse_error {ℓ} : {A : Type ℓ} → Option A → Result WebUrlError A
or_parse_error none = err parse_error
or_parse_error (some a) = ok a

module _ (u : UrlLibrary) where
  open u use {
    Url, parse, scheme, username, password, host_str, port, path, clear_query, clear_fragment,
    set_path, clear_port, to_string,
  }

  -- `if url.path().is_empty() { url.set_path("/") }`.
  unfoldable pub root_path : Url → Url
  root_path url = if is_empty (path url) then set_path "/" url else url

  abbrev port_is : ℕ → Option ℕ → Bool
  port_is n none = false
  port_is n (some p) = p == n

  -- The pair of a scheme and its default port.
  unfoldable pub has_default_port : Url → Bool
  has_default_port url =
      (str_eq (scheme url) "http" && port_is 80 (port url))
      || (str_eq (scheme url) "https" && port_is 443 (port url))

  unfoldable pub drop_default_port : Url → Result WebUrlError Url
  drop_default_port url = if has_default_port url then or_parse_error (clear_port url) else ok url

  -- The checks on the parsed value.
  unfoldable pub check_url : Url → Result WebUrlError (Unit {0})
  check_url url = do
    fail_if (not (str_eq (scheme url) "http" || str_eq (scheme url) "https")) unsupported_scheme
    fail_if (not (is_empty (username url)) || is_some (password url)) user_info
    fail_if (not (is_some (host_str url))) missing_host

  unfoldable pub canonicalize_web_url : String → Result WebUrlError String
  canonicalize_web_url input = do
    fail_if (ltb web_url_max_bytes (byte_len input)) too_long
    fail_if (is_empty input) parse_error
    url ← or_parse_error (parse input)
    check_url url
    canonical ← drop_default_port (root_path (clear_fragment (clear_query url)))
    fail_if (ltb web_url_max_bytes (byte_len (to_string canonical))) too_long
    ok (to_string canonical)
