-- ===== src/StateManager/Filter/Conditions.antt =====
-- The conditions that `passes` decides, one by one.
use native_link.Base.{
  ℕ, ◌≤◌, Bool, true, false, ◌&&◌, Option, none, some, ◌≡◌, ◌≢◌, refl, sym, ap, arith, if_neg,
  if_pos,
}
use Prim.Native.Nat.{bit_and}
use native_link.ActionMessages.{
  WorkerId, OperationId, OperationId-discrete, DigestInfo, DigestInfo-discrete, ActionUniqueKey,
  ActionUniqueKey-discrete, ActionUniqueQualifier, cachable, uncachable, action_digest, ActionStage,
  is_finished,
}
use native_link.AwaitedAction.{AwaitedAction}
use native_link.StateManager.Filter.{
  any_flag, OperationFilter, stage_flag, operation_id_passes, worker_id_passes, unique_key_passes,
  digest_passes, update_before_passes, completed_before_passes, stages_pass, passes,
}

-- What the predicate asks of an operation, condition by condition. It does not look at the
-- filter's client operation id, nor at its order.
pub record Matches (filter : OperationFilter) (a : AwaitedAction) : Type 0 where
  pub operation : (o : OperationId) → filter.operation_id ≡ some o → a.operation_id ≡ o
  pub worker : (k : WorkerId) → filter.worker_id ≡ some k → a.worker_id ≡ some k
  pub key :
      (u : ActionUniqueKey)
      → filter.unique_key ≡ some u
      → a.action_info.unique_qualifier ≡ cachable u
  pub digest :
      (d : DigestInfo) → filter.action_digest_filter ≡ some d → action_digest a.action_info ≡ d
  pub update_before :
      (t : ℕ) → filter.worker_update_before ≡ some t → a.last_worker_updated_timestamp ≤ t
  pub done_before :
      (t : ℕ)
      → filter.completed_before ≡ some t
      → is_finished a.state.stage ≡ true
      → a.last_worker_updated_timestamp ≤ t
  pub stage : filter.stages ≢ any_flag → bit_and filter.stages (stage_flag a.state.stage) ≢ 0

and-split : (a b : Bool) → (a && b) ≡ true → (a ≡ true) × (b ≡ true)
and-split true true p = (refl, refl)
and-split true false p = cc
and-split false b p = cc

operation_id-passes :
    (f : Option OperationId) (o p : OperationId)
    → operation_id_passes f o ≡ true
    → f ≡ some p
    → o ≡ p
unfolding operation_id_passes
operation_id-passes none o p h e = cc
operation_id-passes (some q) o p h e = elim (OperationId-discrete q o) [
  | yes d ↦ cc
  | no n ↦ (let x = if_neg (OperationId-discrete q o) n true false in cc)
]

some-injective : {x y : ℕ} → some x ≡ some y → x ≡ y
some-injective e = cc

worker_id-passes :
    (f w : Option WorkerId) (k : WorkerId) → worker_id_passes f w ≡ true → f ≡ some k → w ≡ some k
unfolding worker_id_passes
worker_id-passes none w k h e = cc
worker_id-passes (some v) none k h e = cc
worker_id-passes (some v) (some w) k h e =
    let q = some-injective e in let g : w ≡ k = ground arith in ap some g

unique_key-passes :
    (f : Option ActionUniqueKey) (q : ActionUniqueQualifier) (u : ActionUniqueKey)
    → unique_key_passes f q ≡ true
    → f ≡ some u
    → q ≡ cachable u
unfolding unique_key_passes
unique_key-passes none q u h e = cc
unique_key-passes (some key) (uncachable k) u h e = cc
unique_key-passes (some key) (cachable k) u h e = elim (ActionUniqueKey-discrete key k) [
  | yes d ↦ cc
  | no n ↦ (let x = if_neg (ActionUniqueKey-discrete key k) n true false in cc)
]

digest-passes :
    (f : Option DigestInfo) (d g : DigestInfo) → digest_passes f d ≡ true → f ≡ some g → d ≡ g
unfolding digest_passes
digest-passes none d g h e = cc
digest-passes (some q) d g h e = elim (DigestInfo-discrete q d) [
  | yes p ↦ cc
  | no n ↦ (let x = if_neg (DigestInfo-discrete q d) n true false in cc)
]

update_before-passes :
    (f : Option ℕ) (t b : ℕ) → update_before_passes f t ≡ true → f ≡ some b → t ≤ b
unfolding update_before_passes
update_before-passes none t b h e = cc
update_before-passes (some c) t b h e = let q = some-injective e in ground arith

completed_before-passes :
    (f : Option ℕ) (finished : Bool) (t b : ℕ)
    → completed_before_passes f finished t ≡ true
    → f ≡ some b
    → finished ≡ true
    → t ≤ b
unfolding completed_before_passes
completed_before-passes none finished t b h e d = cc
completed_before-passes (some c) true t b h e d = let q = some-injective e in ground arith
completed_before-passes (some c) false t b h e d = cc

stages-pass :
    (stages : ℕ) (stage : ActionStage)
    → stages_pass stages stage ≡ true
    → stages ≢ any_flag
    → bit_and stages (stage_flag stage) ≢ 0
unfolding stages_pass
stages-pass stages stage h n z = ground arith

pub passes-Matches :
    (filter : OperationFilter) (a : AwaitedAction) → passes filter a ≡ true → Matches filter a
unfolding passes
passes-Matches filter a p =
    let (p6, stage_true) = and-split _ _ p in
    let (p5, done_true) = and-split _ _ p6 in
    let (p4, update_true) = and-split _ _ p5 in
    let (p3, digest_true) = and-split _ _ p4 in
    let (p2, key_true) = and-split _ _ p3 in
    let (operation_true, worker_true) = and-split _ _ p2 in
    record {
      operation = λ o e. operation_id-passes _ _ o operation_true e;
      worker = λ k e. worker_id-passes _ _ k worker_true e;
      key = λ u e. unique_key-passes _ _ u key_true e;
      digest = λ d e. digest-passes _ _ d digest_true e;
      update_before = λ t e. update_before-passes _ _ t update_true e;
      done_before = λ t e f. completed_before-passes _ _ _ t done_true e f;
      stage = λ n. stages-pass _ _ stage_true n;
    }

operation_id_complete :
    (f : Option OperationId) (o : OperationId)
    → ((p : OperationId) → f ≡ some p → o ≡ p)
    → operation_id_passes f o ≡ true
unfolding operation_id_passes
operation_id_complete none o h = refl
operation_id_complete (some q) o h = if_pos (OperationId-discrete q o) (sym (h q refl)) true false

worker_id_complete :
    (f w : Option WorkerId)
    → ((k : WorkerId) → f ≡ some k → w ≡ some k)
    → worker_id_passes f w ≡ true
unfolding worker_id_passes
worker_id_complete none w h = refl
worker_id_complete (some v) w h = rw (h v refl) (ground arith)

unique_key_complete :
    (f : Option ActionUniqueKey) (q : ActionUniqueQualifier)
    → ((u : ActionUniqueKey) → f ≡ some u → q ≡ cachable u)
    → unique_key_passes f q ≡ true
unfolding unique_key_passes
unique_key_complete none q h = refl
unique_key_complete (some key) q h =
    rw (h key refl) (if_pos (ActionUniqueKey-discrete key key) refl true false)

digest_complete :
    (f : Option DigestInfo) (d : DigestInfo)
    → ((g : DigestInfo) → f ≡ some g → d ≡ g)
    → digest_passes f d ≡ true
unfolding digest_passes
digest_complete none d h = refl
digest_complete (some q) d h = if_pos (DigestInfo-discrete q d) (sym (h q refl)) true false

update_before_complete :
    (f : Option ℕ) (t : ℕ) → ((b : ℕ) → f ≡ some b → t ≤ b) → update_before_passes f t ≡ true
unfolding update_before_passes
update_before_complete none t h = refl
update_before_complete (some b) t h = let l = h b refl in ground arith

completed_before_complete :
    (f : Option ℕ) (finished : Bool) (t : ℕ)
    → ((b : ℕ) → f ≡ some b → finished ≡ true → t ≤ b)
    → completed_before_passes f finished t ≡ true
unfolding completed_before_passes
completed_before_complete none finished t h = refl
completed_before_complete (some b) true t h = let l = h b refl refl in ground arith
completed_before_complete (some b) false t h = refl

stages_complete :
    (stages : ℕ) (stage : ActionStage)
    → (stages ≢ any_flag → bit_and stages (stage_flag stage) ≢ 0)
    → stages_pass stages stage ≡ true
unfolding stages_pass
stages_complete stages stage h = ground arith

and-join : {a b : Bool} → a ≡ true → b ≡ true → (a && b) ≡ true
and-join p q = rw (p, q) refl

pub Matches-passes :
    (filter : OperationFilter) (a : AwaitedAction) → Matches filter a → passes filter a ≡ true
unfolding passes
Matches-passes filter a m =
    and-join
      (and-join
        (and-join
          (and-join
            (and-join
              (and-join (operation_id_complete _ _ m.operation) (worker_id_complete _ _ m.worker))
              (unique_key_complete _ _ m.key))
            (digest_complete _ _ m.digest))
          (update_before_complete _ _ m.update_before))
        (completed_before_complete _ _ _ m.done_before))
      (stages_complete _ _ m.stage)
