-- ===== src/NativeHost/Origin.antt =====
-- `validate_origin` (apps/fubun-native-host/src/main.rs). A text is the list of its UTF-8 bytes; the
-- prefix and the suffix that are stripped are ASCII.
use fubun.Prelude.{
  ℕ, ◌≡◌, ◌↔◌, refl, ap, leb, ◌==◌, ◌&&◌, not, ◌||◌, true, if◌then◌else◌, List, [], ◌∷◌, ◌++◌,
  length, all, chars, Bool, Option, none, some, Option-cases, inl, inr, ◌∙◌, Result, ok, err, ◌>>=◌,
  arith,
}

-- `str::strip_prefix`.
unfoldable pub strip_prefix : List ℕ → List ℕ → Option (List ℕ)
strip_prefix [] value = some value
strip_prefix (_ ∷ _) [] = none
strip_prefix (p ∷ prefix) (c ∷ value) = if p == c then strip_prefix prefix value else none

abbrev cons_to : ℕ → Option (List ℕ) → Option (List ℕ)
cons_to c none = none
cons_to c (some value) = some (c ∷ value)

-- `str::strip_suffix` of one byte.
unfoldable pub strip_suffix : ℕ → List ℕ → Option (List ℕ)
strip_suffix last [] = none
strip_suffix last (c ∷ []) = if c == last then some [] else none
strip_suffix last (c ∷ d ∷ value) = cons_to c (strip_suffix last (d ∷ value))

abbrev pub is_id_byte : ℕ → Bool
is_id_byte byte = leb b'a' byte && leb byte b'p'

pub data OriginError : Type 0 where
  invalid_caller_scheme : OriginError
  missing_slash : OriginError
  invalid_extension_id : OriginError

abbrev pub origin_prefix : List ℕ
origin_prefix = chars "chrome-extension://"

abbrev ok_or : {A : Type 0} → OriginError → Option A → Result OriginError A
ok_or error none = err error
ok_or error (some value) = ok value

unfoldable pub validate_id : List ℕ → Result OriginError (List ℕ)
validate_id id =
    if not (length id == 32) || not (all is_id_byte id) then err invalid_extension_id else ok id

unfoldable pub validate_origin : List ℕ → Result OriginError (List ℕ)
validate_origin origin = do
  value ← ok_or invalid_caller_scheme (strip_prefix origin_prefix origin)
  id ← ok_or missing_slash (strip_suffix b'/' value)
  validate_id id

strip_prefix_iff :
    (prefix origin value : List ℕ)
    → (strip_prefix prefix origin ≡ some value) ↔ (origin ≡ prefix ++ value)
unfolding strip_prefix
strip_prefix_iff [] origin value = ground arith
strip_prefix_iff (p ∷ prefix) [] value = ground arith
strip_prefix_iff (p ∷ prefix) (c ∷ origin) value =
    ground (arith, strip_prefix_iff prefix origin value)

strip_suffix_iff :
    (last : ℕ) (value stripped : List ℕ)
    → (strip_suffix last value ≡ some stripped) ↔ (value ≡ stripped ++ last ∷ [])
unfolding strip_suffix
strip_suffix_iff last [] [] = ground arith
strip_suffix_iff last [] (s ∷ stripped) = ground arith
strip_suffix_iff last (c ∷ []) [] = ground arith
strip_suffix_iff last (c ∷ []) (s ∷ []) = ground arith
strip_suffix_iff last (c ∷ []) (s ∷ t ∷ stripped) = ground arith
strip_suffix_iff last (c ∷ d ∷ value) [] = elim (Option-cases (strip_suffix last (d ∷ value))) [
  | inl e ↦ ground (arith, e)
  | inr (found, e) ↦ ground (arith, e)
]
strip_suffix_iff last (c ∷ d ∷ value) (s ∷ stripped) =
    ground (arith, strip_suffix_iff last (d ∷ value) stripped)

-- What an identifier of an extension is.
pub record IsExtensionId (id : List ℕ) : Type 0 where
  pub size : length id ≡ 32
  pub letters : all is_id_byte id ≡ true

validate_id_iff :
    (value id : List ℕ) → (validate_id value ≡ ok id) ↔ (IsExtensionId id × (value ≡ id))
unfolding validate_id
validate_id_iff value id = ground arith

accepted :
    (origin id : List ℕ)
    → validate_origin origin ≡ ok id
    → IsExtensionId id × (origin ≡ origin_prefix ++ (id ++ b'/' ∷ []))
unfolding validate_origin
accepted origin id h = elim (Option-cases (strip_prefix origin_prefix origin)) [
  | inl e ↦ cc (rw e at h)
  | inr (value, e) ↦ elim (Option-cases (strip_suffix b'/' value)) [
    | inl e' ↦ cc (rw (e, e') at h)
    | inr (found, e') ↦
        let valid = (validate_id_iff found id).0 (rw (e, e') at h) in
        let p : origin ≡ origin_prefix ++ value =
          (strip_prefix_iff origin_prefix origin value).0 e in
        let q : value ≡ found ++ b'/' ∷ [] = (strip_suffix_iff b'/' value found).0 e' in
        (valid.0, p ∙ ap (λ v. origin_prefix ++ v) (q ∙ ap (λ v. v ++ b'/' ∷ []) valid.1))
  ]
]

-- An origin is accepted, with an id, exactly when the id has 32 letters from a to p and the origin
-- is the scheme, the id and a slash.
pub validate_origin-IsExtensionId :
    (origin id : List ℕ)
    → (validate_origin origin ≡ ok id)
      ↔ (IsExtensionId id × (origin ≡ origin_prefix ++ (id ++ b'/' ∷ [])))
unfolding validate_origin
validate_origin-IsExtensionId origin id = (
  accepted origin id,
  λ (valid, e). rw (
    (strip_prefix_iff origin_prefix origin (id ++ b'/' ∷ [])).1 e,
    (strip_suffix_iff b'/' (id ++ b'/' ∷ []) id).1 refl,
    (validate_id_iff id id).1 (valid, refl),
  ),
)
