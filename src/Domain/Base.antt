-- ===== src/Domain/Base.antt =====
-- What the records of crates/fubun-domain/src/lib.rs share: identifiers and moments.
use fubun.Prelude.{ℕ}

-- A 128-bit identifier.
abbrev pub Uuid : Type 0
Uuid = ℕ

-- `OffsetDateTime`, in nanoseconds of UTC.
abbrev pub Timestamp : Type 0
Timestamp = ℕ
