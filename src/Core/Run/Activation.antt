-- ===== src/Core/Run/Activation.antt =====
-- What an activation secures for the runs that follow.
use fubun.Prelude.{
  ℕ, suc, ◌≡◌, refl, inl, inr, String, eq_iff, Bool, true, ◌&&◌, ◌==◌, List, [], ◌∷◌, any, All,
  All-imp, Option, none, some, ok, arith, Bool-cases,
}
use fubun.Domain.Base.{Uuid}
use fubun.Domain.Action.{ActionSpec}
use fubun.Domain.Ritual.{RitualVersion, Approval}
use fubun.Policy.{ApprovalFields, approval_fields}
use fubun.Storage.Sql.{Db}
use fubun.Storage.Sql.Keeps.{Keeps, Preserves, Keeps-then, Keeps-execute_ignoring, Keeps-pure}
use fubun.Storage.Sql.Ensures.{
  Ensures, Ensures-transaction, Ensures-then, Ensures-of_Keeps, Ensures-execute_ignoring,
}
use fubun.Storage.Executions.Statements.{commit}
use fubun.Storage.Rituals.{insert_approval, insert_approvals, create_approvals}
use fubun.Core.Preflight.{approves, same_uuid, same_text}
use fubun.Core.Host.{Draw}
use fubun.Core.Run.{new_approval, approvals_for}

same_uuid_refl : (o : Option Uuid) → same_uuid o o ≡ true
unfolding same_uuid
same_uuid_refl none = refl
same_uuid_refl (some a) = ground arith

same_text_refl : (o : Option String) → same_text o o ≡ true
unfolding same_text
same_text_refl none = refl
same_text_refl (some a) = (eq_iff a a).1 refl

-- The approval that an activation makes for an action approves it.
approves-new_approval :
    (draw : Draw) (version : RitualVersion) (index : ℕ) (fields : ApprovalFields)
    → (version.id == version.id && approves version fields (new_approval draw version index fields))
      ≡ true
unfolding approves
approves-new_approval draw version index fields = ground (
  arith,
  (eq_iff version.content_hash version.content_hash).1 refl,
  (eq_iff fields.action_type fields.action_type).1 refl,
  (eq_iff fields.capability fields.capability).1 refl,
  same_uuid_refl fields.resource_id,
  same_text_refl fields.app_id,
)

abbrev pub approves_action : RitualVersion → ActionSpec → Approval → Bool
approves_action version action a =
    a.ritual_version_id == version.id && approves version (approval_fields action) a

abbrev pub AreApproved : RitualVersion → List ActionSpec → List Approval → Type 0
AreApproved version actions approvals =
    All (λ action. any (approves_action version action) approvals ≡ true) actions

any-cons :
    {A : Type 0} (p : A → Bool) (x : A) (xs : List A) → any p xs ≡ true → any p (x ∷ xs) ≡ true
any-cons p x xs e = ground arith

pub approvals_for-AreApproved :
    (draw : Draw) (version : RitualVersion) (index : ℕ) (actions : List ActionSpec)
    → AreApproved version actions (approvals_for draw version index actions)
unfolding approvals_for
approvals_for-AreApproved draw version index [] = tt
approvals_for-AreApproved draw version index (action ∷ actions) = (
  ground (arith, approves-new_approval draw version index (approval_fields action)),
  All-imp _ _ actions
      (λ a e.
        any-cons (approves_action version a)
          (new_approval draw version index (approval_fields action))
          (approvals_for draw version (suc index) actions) e)
      (approvals_for-AreApproved draw version (suc index) actions),
)

-- A test that some of the new approvals meets, or that some of the old ones meets.
module _ (p : Approval → Bool) where
  abbrev HasApproval : Db → Type 0
  HasApproval db = any p db.ritual_approvals ≡ true

  insert_approval-HasApproval : (a : Approval) → Preserves HasApproval (insert_approval a)
  unfolding insert_approval
  insert_approval-HasApproval a = record { on_ok = λ db after n h e. ground arith }

  insert_approvals-HasApproval : (rest : List Approval) → Keeps HasApproval (insert_approvals rest)
  unfolding insert_approvals
  insert_approvals-HasApproval [] = Keeps-pure tt
  insert_approvals-HasApproval (a ∷ rest) =
      Keeps-then _ _ (Keeps-execute_ignoring _ (insert_approval-HasApproval a))
        (insert_approvals-HasApproval rest)

  stores-HasApproval :
      (a : Approval) (db after : Db) (n : ℕ)
      → p a ≡ true
      → insert_approval a db ≡ ok (n, after)
      → HasApproval after
  unfolding insert_approval
  stores-HasApproval a db after n t e = ground arith

  insert_approvals-Ensures :
      (rest : List Approval)
      → any p rest ≡ true
      → Ensures (λ db. Unit {0}) HasApproval (insert_approvals rest)
  unfolding insert_approvals
  insert_approvals-Ensures [] e = cc
  insert_approvals-Ensures (a ∷ rest) e = elim (Bool-cases (p a)) [
    | inl t ↦
        Ensures-then _ _
          (Ensures-execute_ignoring _ (λ db after n u g. stores-HasApproval a db after n t g))
          (Ensures-of_Keeps _ (insert_approvals-HasApproval rest))
    | inr f ↦
        Ensures-then {Q = λ db. Unit {0}} _ _ (Ensures-execute_ignoring _ (λ db after n u g. tt))
          (insert_approvals-Ensures rest (ground arith))
  ]

  commit-HasApproval : Preserves HasApproval commit
  unfolding commit
  commit-HasApproval = record { on_ok = λ db after n h e. ground arith }

  pub create_approvals-Ensures :
      (rest : List Approval)
      → any p rest ≡ true
      → Ensures (λ db. Unit {0}) HasApproval (create_approvals rest)
  unfolding create_approvals
  create_approvals-Ensures rest e = Ensures-transaction _ (
      Ensures-then _ _ (insert_approvals-Ensures rest e)
        (Ensures-of_Keeps _ (Keeps-execute_ignoring _ commit-HasApproval)))
