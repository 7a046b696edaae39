-- ===== src/Core/Loop/Rows.antt =====
-- What `execute_steps` needs of the tables, which its own statements keep: the rows of the
-- execution, of its steps and of the resources that its actions name.
use fubun.Prelude.{
  ℕ, ◌≡◌, refl, ap, sym, ◌∙◌, inl, inr, Bool, true, false, ◌&&◌, ◌||◌, ◌==◌, List, [], ◌∷◌, any,
  all, map, find, is_some, arith, Bool-cases,
}
use fubun.Domain.Base.{Uuid}
use fubun.Domain.Action.{
  ActionSpec, linux_app_ensure_running, linux_path_open, desktop_notification_show,
  browser_tab_ensure_open,
}
use fubun.Domain.Execution.{Execution, ExecutionStep}
use fubun.Domain.Resource.{Resource}
use fubun.Storage.Sql.{Db, Store}
use fubun.Storage.Sql.Works.{
  no_faults, Works, Works-pure, Works-execute, Works-query, Works-or_not_found, Works-bind,
  Works-then, Works-execute_ignoring, Works-if,
}
use fubun.Storage.Resources.{get_resource}
use fubun.Storage.Executions.{update_step, update_execution, require_changed}
use fubun.Storage.Executions.Statements.{
  set_step, set_execution, delete_locks_of, update_rows, count, new_step, new_execution,
}

abbrev pub has_step : Db → ExecutionStep → Bool
has_step db step = any (λ (row : ExecutionStep). row.id == step.id) db.execution_steps

abbrev pub has_execution : Db → Execution → Bool
has_execution db execution = any (λ (row : Execution). row.id == execution.id) db.executions

abbrev pub has_resource : Db → Uuid → Bool
has_resource db id = any (λ (row : Resource). row.id == id) db.resources

-- The resource that an action names is there.
abbrev pub has_target : Db → ActionSpec → Bool
has_target db (linux_path_open resource_id) = has_resource db resource_id
has_target db (browser_tab_ensure_open resource_id) = has_resource db resource_id
has_target db (linux_app_ensure_running app_id) = true
has_target db (desktop_notification_show title body) = true

-- No coming statement fails, and each row that the execution works on is there.
abbrev pub is_ready : Execution → List ExecutionStep → List ActionSpec → Store → Bool
is_ready execution steps actions s =
    no_faults s.faults
    && has_execution s.db execution
    && all (has_step s.db) steps
    && all (has_target s.db) actions

-- The tables have the executions, the steps and the resources that they had before.
pub record SameRows (before db : Db) : Type 0 where
  steps :
      map (λ (s : ExecutionStep). s.id) db.execution_steps ≡ map (λ s. s.id) before.execution_steps
  executions : map (λ (e : Execution). e.id) db.executions ≡ map (λ e. e.id) before.executions
  resources : db.resources ≡ before.resources

pub SameRows-refl : (db : Db) → SameRows db db
SameRows-refl db = record { steps = refl; executions = refl; resources = refl }

any-map :
    {A : Type 0} (f : A → Uuid) (id : Uuid) (xs : List A)
    → any (λ x. f x == id) xs ≡ any (λ other. other == id) (map f xs)
any-map f id [] = refl
any-map f id (x ∷ xs) = ap (λ b. (f x == id) || b) (any-map f id xs)

any-same :
    {A : Type 0} (f : A → Uuid) (id : Uuid) (xs ys : List A)
    → map f xs ≡ map f ys
    → any (λ x. f x == id) ys ≡ true
    → any (λ x. f x == id) xs ≡ true
any-same f id xs ys same h =
    any-map f id xs ∙ ap (any (λ other. other == id)) same ∙ sym (any-map f id ys) ∙ h

count_some : {A : Type 0} (p : A → Bool) (xs : List A) → any p xs ≡ true → (count p xs == 0) ≡ false
count_some p [] h = cc
count_some p (x ∷ xs) h = elim (Bool-cases (p x)) [
  | inl t ↦ rw t (ground arith)
  | inr f ↦ rw f (count_some p xs (rw f at h))
]

find_some : {A : Type 0} (p : A → Bool) (xs : List A) → any p xs ≡ true → is_some (find p xs) ≡ true
find_some p [] h = cc
find_some p (x ∷ xs) h = elim (Bool-cases (p x)) [
  | inl t ↦ rw t refl
  | inr f ↦ rw f (find_some p xs (rw f at h))
]

map-update_rows :
    {A : Type 0} (f : A → Uuid) (p : A → Bool) (change : A → A) (xs : List A)
    → ((x : A) → f (change x) ≡ f x)
    → map f (update_rows p change xs) ≡ map f xs
map-update_rows f p change [] same = refl
map-update_rows f p change (x ∷ xs) same = elim (Bool-cases (p x)) [
  | inl t ↦ rw (t, same x) (ap (◌∷◌ (f x)) (map-update_rows f p change xs same))
  | inr n ↦ rw n (ap (◌∷◌ (f x)) (map-update_rows f p change xs same))
]

require_changed-Works :
    {P : Db → Type 0} (n : ℕ) → (n == 0) ≡ false → Works P (λ u. Unit {0}) (require_changed n)
unfolding require_changed
require_changed-Works n h = rw h (Works-pure _ tt tt)

pub update_step-Works :
    (before : Db) (step : ExecutionStep)
    → has_step before step ≡ true
    → Works (SameRows before) (λ u. Unit {0}) (update_step step)
unfolding update_step set_step
update_step-Works before step there =
    Works-bind (λ n. (n == 0) ≡ false) _ _ _
      (Works-execute _ (set_step step) (λ db same. (
        count_some _ db.execution_steps (
            any-same (λ s. s.id) step.id db.execution_steps before.execution_steps same.steps
              there),
        record {
          steps =
              map-update_rows (λ s. s.id) _ (new_step step) db.execution_steps (λ s. refl)
              ∙ same.steps;
          executions = same.executions;
          resources = same.resources;
        },
      )))
      (λ n some_changed. require_changed-Works n some_changed)

pub update_execution-Works :
    (before : Db) (execution : Execution)
    → has_execution before execution ≡ true
    → Works (SameRows before) (λ u. Unit {0}) (update_execution execution)
unfolding update_execution set_execution delete_locks_of
update_execution-Works before execution there =
    Works-bind (λ n. (n == 0) ≡ false) _ _ _
      (Works-execute _ (set_execution execution) (λ db same. (
        count_some _ db.executions (
            any-same (λ e. e.id) execution.id db.executions before.executions same.executions
              there),
        record {
          steps = same.steps;
          executions =
              map-update_rows (λ e. e.id) _ (new_execution execution) db.executions (λ e. refl)
              ∙ same.executions;
          resources = same.resources;
        },
      )))
      (λ n some_changed. Works-then _ _ _ (require_changed-Works n some_changed) (
        Works-if _ _ _ _
          (Works-execute_ignoring (delete_locks_of execution.id) (λ db same. (
            tt,
            record { steps = same.steps; executions = same.executions; resources = same.resources },
          )))
          (Works-pure _ tt tt)))

pub get_resource-Works :
    (before : Db) (id : Uuid)
    → has_resource before id ≡ true
    → Works (SameRows before) (λ r. Unit {0}) (get_resource id)
unfolding get_resource
get_resource-Works before id there =
    Works-bind (λ found. is_some found ≡ true) _ _ _
      (Works-query _ _ (λ db same. find_some _ db.resources (rw same.resources there)))
      (λ found there. Works-or_not_found found there)
