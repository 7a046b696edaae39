-- ===== src/Storage/Executions/Restart.antt =====
-- What is left of the executions and steps that a restart of the daemon aborts.
use fubun.Prelude.{
  ℕ, ◌≡◌, refl, ap, ◌⊎◌, inl, inr, Bool, true, false, not, ◌&&◌, ◌==◌, if◌then◌else◌, List, [], ◌∷◌,
  all, any, map, some, ok, arith, Bool-cases,
}
use fubun.Domain.Base.{Uuid, Timestamp}
use fubun.Domain.Execution.{Execution, ExecutionStatus, ExecutionStep}
use fubun.Storage.Sql.{Db}
use fubun.Storage.Sql.Ensures.{Ensures, Ensures-then, Ensures-execute_ignoring}
use fubun.Storage.Executions.Statements.{
  abort_running, abort_steps_of_aborted, delete_all_locks, is_running_status, is_unfinished,
  is_aborted_status, was_aborted, needs_abort, update_rows, aborted_at, step_aborted_at,
}
use fubun.Storage.Executions.{abort_running_executions}

abbrev ran : Execution → Bool
ran e = is_running_status e.status

-- An execution before and after the restart: one that ran is aborted at this moment with the code
-- of a restart, any other is as it was.
abbrev pub IsInterrupted : Timestamp → Execution → Execution → Type 0
IsInterrupted now e f =
    ((ran e ≡ true)
      × (f ≡ record e {
        status = ExecutionStatus.aborted;
        finished_at = some now;
        failure_code = some "daemon_restarted";
      }))
    ⊎ ((ran e ≡ false) × (f ≡ e))

abbrev pub AreInterrupted : Timestamp → List Execution → List Execution → Type 0
AreInterrupted now [] [] = Unit {0}
AreInterrupted now (e ∷ es) (f ∷ fs) = IsInterrupted now e f × AreInterrupted now es fs
AreInterrupted now _ _ = ⊥

-- A step that is pending or running and belongs to an execution that ran.
abbrev pub is_left_open : List Execution → ExecutionStep → Bool
is_left_open es step = is_unfinished step.status && any (λ e. ran e && e.id == step.execution_id) es

-- The executions after the first statement.
record IsIdle (now : Timestamp) (before db : Db) : Type 0 where
  executions : AreInterrupted now before.executions db.executions
  swept :
      (id : Uuid)
      → any (λ e. ran e && e.id == id) before.executions ≡ true
      → any (λ e. was_aborted e && e.id == id) db.executions ≡ true
  same_steps : db.execution_steps ≡ before.execution_steps

-- The tables after a restart, against those before: every execution that ran is aborted and the
-- others are the same, the same steps are there and none that an execution that ran left pending
-- or running still is, and no ritual is locked.
pub record IsRestarted (now : Timestamp) (before db : Db) : Type 0 where
  executions : AreInterrupted now before.executions db.executions
  finished : all (λ s. not (is_left_open before.executions s)) db.execution_steps ≡ true
  same_steps :
      map (λ (s : ExecutionStep). s.id) db.execution_steps ≡ map (λ s. s.id) before.execution_steps
  unlocked : db.ritual_execution_locks ≡ []

record IsSwept (now : Timestamp) (before db : Db) : Type 0 where
  executions : AreInterrupted now before.executions db.executions
  finished : all (λ s. not (is_left_open before.executions s)) db.execution_steps ≡ true
  same_steps :
      map (λ (s : ExecutionStep). s.id) db.execution_steps ≡ map (λ s. s.id) before.execution_steps

aborted-AreInterrupted :
    (now : Timestamp) (es : List Execution)
    → AreInterrupted now es (update_rows (λ e. is_running_status e.status) (aborted_at now) es)
aborted-AreInterrupted now [] = tt
aborted-AreInterrupted now (e ∷ es) = elim (Bool-cases (ran e)) [
  | inl t ↦ (inl (t, rw t refl), aborted-AreInterrupted now es)
  | inr f ↦ (inr (f, rw f refl), aborted-AreInterrupted now es)
]

-- The second statement finds each execution that the first one aborts.
aborted_found :
    (now : Timestamp) (id : Uuid) (es : List Execution)
    → any (λ e. ran e && e.id == id) es ≡ true
    → any
        (λ e. was_aborted e && e.id == id)
        (update_rows (λ e. is_running_status e.status) (aborted_at now) es)
      ≡ true
unfolding was_aborted is_aborted_status
aborted_found now id [] h = h
aborted_found now id (e ∷ es) h = ground (arith, aborted_found now id es)

step_swept :
    (now : Timestamp) (es fs : List Execution) (s : ExecutionStep)
    → ((id : Uuid)
        → any (λ e. ran e && e.id == id) es ≡ true
        → any (λ e. was_aborted e && e.id == id) fs ≡ true)
    → not (is_left_open es (if needs_abort fs s then step_aborted_at now s else s)) ≡ true
unfolding needs_abort is_unfinished
step_swept now es fs s found = elim (Bool-cases (is_left_open es s)) [
  | inl t ↦ ground (arith, found s.execution_id)
  | inr f ↦ ground (arith, found s.execution_id)
]

steps_swept :
    (now : Timestamp) (es fs : List Execution) (steps : List ExecutionStep)
    → ((id : Uuid)
        → any (λ e. ran e && e.id == id) es ≡ true
        → any (λ e. was_aborted e && e.id == id) fs ≡ true)
    → all (λ s. not (is_left_open es s)) (update_rows (needs_abort fs) (step_aborted_at now) steps)
      ≡ true
steps_swept now es fs [] found = refl
steps_swept now es fs (s ∷ steps) found =
    rw (step_swept now es fs s found) (steps_swept now es fs steps found)

steps_same :
    (now : Timestamp) (es : List Execution) (steps : List ExecutionStep)
    → map (λ (s : ExecutionStep). s.id) (update_rows (needs_abort es) (step_aborted_at now) steps)
      ≡ map (λ s. s.id) steps
steps_same now es [] = refl
steps_same now es (s ∷ steps) = elim (Bool-cases (needs_abort es s)) [
  | inl t ↦ rw t (ap (◌∷◌ s.id) (steps_same now es steps))
  | inr f ↦ rw f (ap (◌∷◌ s.id) (steps_same now es steps))
]

abort_running-IsIdle :
    (now : Timestamp) (before db after : Db) (n : ℕ)
    → db ≡ before
    → abort_running now db ≡ ok (n, after)
    → IsIdle now before after
unfolding abort_running
abort_running-IsIdle now before db after n same e =
    let eq : after ≡ record before {
      executions = update_rows (λ x. is_running_status x.status) (aborted_at now) before.executions;
    } =
      cc in
    rw eq (record {
      executions = aborted-AreInterrupted now before.executions;
      swept = λ id h. aborted_found now id before.executions h;
      same_steps = refl;
    })

abort_steps-IsSwept :
    (now : Timestamp) (before db after : Db) (n : ℕ)
    → IsIdle now before db
    → abort_steps_of_aborted now db ≡ ok (n, after)
    → IsSwept now before after
unfolding abort_steps_of_aborted
abort_steps-IsSwept now before db after n h e =
    let eq : after ≡ record db {
      execution_steps =
          update_rows (needs_abort db.executions) (step_aborted_at now) db.execution_steps;
    } =
      cc in
    rw eq (record {
      executions = h.executions;
      finished = steps_swept now before.executions db.executions db.execution_steps h.swept;
      same_steps = rw (← h.same_steps) (steps_same now db.executions db.execution_steps);
    })

delete_all_locks-IsRestarted :
    (now : Timestamp) (before db after : Db) (n : ℕ)
    → IsSwept now before db
    → delete_all_locks db ≡ ok (n, after)
    → IsRestarted now before after
unfolding delete_all_locks
delete_all_locks-IsRestarted now before db after n h e =
    let eq : after ≡ record db { ritual_execution_locks = [] } = cc in
    rw eq (record {
      executions = h.executions;
      finished = h.finished;
      same_steps = h.same_steps;
      unlocked = refl;
    })

-- Where the abortion of running executions succeeds, from any tables, each execution that ran is
-- aborted at that moment with the code daemon_restarted and each other one is as it was; the steps
-- have the ids they had, and none of them that belongs to an execution that ran is left pending or
-- running; and no ritual is left locked.
pub abort_running_executions-IsRestarted :
    (now : Timestamp) (before : Db)
    → Ensures (λ db. db ≡ before) (IsRestarted now before) (abort_running_executions now)
unfolding abort_running_executions
abort_running_executions-IsRestarted now before =
    Ensures-then _ _ (Ensures-execute_ignoring _ (abort_running-IsIdle now before)) (
      Ensures-then _ _ (Ensures-execute_ignoring _ (abort_steps-IsSwept now before))
        (Ensures-execute_ignoring _ (delete_all_locks-IsRestarted now before)))
