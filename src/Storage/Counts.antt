-- ===== src/Storage/Counts.antt =====
-- `current_schema_version`, `count_where` and `Operation::Counts` (crates/fubun-storage/src/lib.rs).
use fubun.Prelude.{ℕ, Bool, true, false, leb, if◌then◌else◌, List, [], ◌∷◌}
use fubun.Domain.Ritual.{Ritual, RitualStatus}
use fubun.Storage.Sql.{Sql, ◌>>=◌, pure, query}
use fubun.Storage.Executions.Statements.{count, is_running_status}

-- `MAX(version)`, or 0.
abbrev pub greatest : List ℕ → ℕ
greatest [] = 0
greatest (n ∷ ns) = if leb n (greatest ns) then greatest ns else n

unfoldable pub current_schema_version : Sql ℕ
current_schema_version = query λ db. greatest db.schema_migrations

-- `status = 'draft'` and `status = 'active'`.
unfoldable pub is_draft : RitualStatus → Bool
is_draft RitualStatus.draft = true
is_draft _ = false

unfoldable pub is_active_ritual : RitualStatus → Bool
is_active_ritual RitualStatus.active = true
is_active_ritual _ = false

pub record Counts : Type 0 where
  pub running : ℕ
  pub draft : ℕ
  pub active : ℕ

unfoldable pub counts : Sql Counts
counts = do
  running ← query (λ db. count (λ e. is_running_status e.status) db.executions)
  draft ← query (λ db. count (λ (r : Ritual). is_draft r.status) db.rituals)
  active ← query (λ db. count (λ (r : Ritual). is_active_ritual r.status) db.rituals)
  pure (record { running = running; draft = draft; active = active })
