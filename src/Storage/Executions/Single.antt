-- ===== src/Storage/Executions/Single.antt =====
-- A ritual runs at most once at a time.
use fubun.Prelude.{
  ◌≡◌, refl, inl, inr, Bool, true, ◌&&◌, ◌==◌, List, [], ◌∷◌, any, all, arith, Bool-cases,
}
use fubun.Prelude.Sort.{Elem}
use fubun.Domain.Base.{Uuid}
use fubun.Domain.Execution.{Execution, ExecutionStep}
use fubun.Storage.Sql.{Db, Store, ExecutionLock}
use fubun.Storage.Executions.{start_execution}
use fubun.Storage.Executions.Locks.{
  is_running, has_lock, is_locked, HasUniqueLocks, IsLocked, start_execution-IsLocked,
}

has_lock-Elem :
    (e : Execution) (locks : List ExecutionLock)
    → has_lock locks e ≡ true
    → (l : ExecutionLock) × Elem l locks × (l.ritual_id ≡ e.ritual_id) × (l.execution_id ≡ e.id)
has_lock-Elem e [] h = cc
has_lock-Elem e (l ∷ locks) h =
    elim (Bool-cases (l.ritual_id == e.ritual_id && l.execution_id == e.id)) [
      | inl t ↦ (l, inl refl, ground arith, ground arith)
      | inr f ↦ let (m, i, r, x) = has_lock-Elem e locks (rw f at h) in (m, inr i, r, x)
    ]

any_ritual-Elem :
    (l : ExecutionLock) (r : Uuid) (locks : List ExecutionLock)
    → Elem l locks
    → l.ritual_id ≡ r
    → any (λ (m : ExecutionLock). m.ritual_id == r) locks ≡ true
any_ritual-Elem l r [] i e = absurd i
any_ritual-Elem l r (m ∷ locks) (inl i) e = ground arith
any_ritual-Elem l r (m ∷ locks) (inr i) e = ground (arith, any_ritual-Elem l r locks i)

unique_lock :
    (l m : ExecutionLock) (locks : List ExecutionLock)
    → HasUniqueLocks locks
    → Elem l locks
    → Elem m locks
    → l.ritual_id ≡ m.ritual_id
    → l ≡ m
unique_lock l m [] h i j e = absurd i
unique_lock l m (k ∷ locks) h (inl i) (inl j) e = cc
unique_lock l m (k ∷ locks) h (inl i) (inr j) e =
    ground (arith, any_ritual-Elem m k.ritual_id locks j)
unique_lock l m (k ∷ locks) h (inr i) (inl j) e =
    ground (arith, any_ritual-Elem l k.ritual_id locks i)
unique_lock l m (k ∷ locks) h (inr i) (inr j) e = unique_lock l m locks h.1 i j e

all-Elem :
    (p : Execution → Bool) (e : Execution) (es : List Execution)
    → all p es ≡ true
    → Elem e es
    → p e ≡ true
all-Elem p e [] h i = absurd i
all-Elem p e (x ∷ es) h (inl i) = ground arith
all-Elem p e (x ∷ es) h (inr i) = all-Elem p e es (ground arith) i

-- Where each running execution is locked, two running executions of one ritual are the same one.
one_running_per_ritual :
    (db : Db) (a b : Execution)
    → IsLocked db
    → Elem a db.executions
    → Elem b db.executions
    → is_running a ≡ true
    → is_running b ≡ true
    → a.ritual_id ≡ b.ritual_id
    → a.id ≡ b.id
one_running_per_ritual db a b h i j ra rb e =
    let la = all-Elem (is_locked db.ritual_execution_locks) a db.executions h.running_locked i in
    let lb = all-Elem (is_locked db.ritual_execution_locks) b db.executions h.running_locked j in
    let (l, li, lr, lx) = has_lock-Elem a db.ritual_execution_locks (ground arith) in
    let (m, mi, mr, mx) = has_lock-Elem b db.ritual_execution_locks (ground arith) in
    let same = unique_lock l m db.ritual_execution_locks h.unique li mi (cc) in cc

-- Where each running execution was locked, two running executions of one ritual that are stored
-- after a start, whether it succeeds or fails and whichever statements fail, are the same one.
pub start_execution_one_running :
    (execution : Execution) (steps : List ExecutionStep) (s : Store) (a b : Execution)
    → IsLocked s.db
    → Elem a (start_execution execution steps s).1.db.executions
    → Elem b (start_execution execution steps s).1.db.executions
    → is_running a ≡ true
    → is_running b ≡ true
    → a.ritual_id ≡ b.ritual_id
    → a.id ≡ b.id
start_execution_one_running execution steps s a b h =
    one_running_per_ritual (start_execution execution steps s).1.db a b
      ((start_execution-IsLocked execution steps).at s h)
