-- ===== src/Worker/Conservation.antt =====
-- A worker's free resources and those that its running actions hold add up to what it registered.
use native_link.Base.{
  ℕ, ◌+◌, ◌-◌, ◌<◌, ap, String, true, false, none, some, [], ◌≡◌, refl, sym, ◌∙◌, arith, lookup,
  insert, remove, Distinct, string_discrete, Option-cases, inl, inr, Result, ok, insert-Distinct,
  remove-Distinct, AllValues-insert, AllValues-remove, AllValues-lookup,
}
use native_link.ActionMessages.{OperationId, OperationId-discrete}
use native_link.PlatformProperties.{minimum, exact, priority, unknown, Properties, is_satisfied_by}
use native_link.PlatformProperties.Satisfied.{is_satisfied_by-Satisfies}
use native_link.Worker.{
  ActionInfoWithProps, Worker, Channel, u64_mod, reduce_platform_properties,
  restore_platform_properties, complete_action, place_action, send_msg_to_worker, start_action,
}
use native_link.Worker.Resources.{
  needs, lookup-reduce_platform_properties, lookup-restore_platform_properties,
  reduce_platform_properties-total, restore_platform_properties-total,
}
use native_link.Worker.Demand.{
  demand, IsPlaced, Conserves, demand-insert, demand-remove, free-ne-none, registered-ne-none,
  reduce_units, restore_units, reduce-NotCounted, restore-NotCounted, units-le-free,
}

-- The worker that runs one more action, whatever becomes of the message.
module _ {Tx : Type 0} (registered : Properties) (w w' : Worker Tx) (o : OperationId)
    (info : ActionInfoWithProps) (c : Conserves registered w)
    (names : Distinct string_discrete info.platform_properties)
    (fits : is_satisfied_by info.platform_properties w.platform_properties ≡ true)
    (idle : lookup OperationId-discrete o w.running_action_infos ≡ none)
    (reduced : reduce_platform_properties w.platform_properties info.platform_properties
      ≡ some w'.platform_properties)
    (added : w'.running_action_infos
      ≡ insert OperationId-discrete o info w.running_action_infos) where
  placed-Conserves : Conserves registered w'
  placed-Conserves = record {
    once = rw added (insert-Distinct OperationId-discrete o info w.running_action_infos c.once);
    placed = rw added (
        AllValues-insert OperationId-discrete (IsPlaced registered) o info w.running_action_infos
          (record {
            names = names;
            known = λ k n e.
                let (x, g, m) =
                  is_satisfied_by-Satisfies info.platform_properties w.platform_properties fits k
                    (minimum n) e in
                registered-ne-none registered w c k (λ z. (cc));
          })
          c.placed);
    range = c.range;
    balance = λ k n e.
        let (a, g, s) = c.balance k n e in
        let small = c.range k n e in
        let less =
          units-le-free k w.platform_properties info.platform_properties a fits g
            (lookup string_discrete k info.platform_properties) refl in
        (
          a - needs k info.platform_properties,
          lookup-reduce_platform_properties k w.platform_properties info.platform_properties
                w'.platform_properties names reduced
              ∙ (rw g (
                  reduce_units a (lookup string_discrete k info.platform_properties) (omega arith)
                    less)),
          rw added (omega (arith, demand-insert k o info w.running_action_infos idle)),
        );
    others = λ k h.
        lookup-reduce_platform_properties k w.platform_properties info.platform_properties
          w'.platform_properties names reduced
        ∙ rw (c.others k h) (
            reduce-NotCounted (lookup string_discrete k info.platform_properties)
              (lookup string_discrete k registered) h);
  }

-- The worker that has finished an action.
module _ {Tx : Type 0} (registered : Properties) (w w' : Worker Tx) (o : OperationId)
    (info : ActionInfoWithProps) (c : Conserves registered w)
    (runs : lookup OperationId-discrete o w.running_action_infos ≡ some info)
    (restored : restore_platform_properties w.platform_properties info.platform_properties
      ≡ some w'.platform_properties)
    (removed : w'.running_action_infos ≡ remove OperationId-discrete o w.running_action_infos) where
  completed-Conserves : Conserves registered w'
  completed-Conserves =
      let p =
        AllValues-lookup OperationId-discrete (IsPlaced registered) o info w.running_action_infos
          c.placed runs in
      record {
        once = rw removed (remove-Distinct OperationId-discrete o w.running_action_infos c.once);
        placed = rw removed (
            AllValues-remove OperationId-discrete (IsPlaced registered) o w.running_action_infos
              c.placed);
        range = c.range;
        balance = λ k n e.
            let (a, g, s) = c.balance k n e in
            let small = c.range k n e in
            let split = demand-remove k o info w.running_action_infos c.once runs in
            (
              a + needs k info.platform_properties,
              lookup-restore_platform_properties k w.platform_properties info.platform_properties
                    w'.platform_properties p.names restored
                  ∙ (rw g (
                      restore_units a (lookup string_discrete k info.platform_properties)
                        (omega arith))),
              rw removed (omega arith),
            );
        others = λ k h.
            lookup-restore_platform_properties k w.platform_properties info.platform_properties
              w'.platform_properties p.names restored
            ∙ rw (c.others k h) (
                restore-NotCounted (lookup string_discrete k info.platform_properties)
                  (lookup string_discrete k registered) h);
      }

module _ (channel : Channel) (registered : Properties) (w : Worker channel.Tx) where
  -- On a worker whose free resources and those of its running actions add up to what it
  -- registered, an action that it satisfies, whose properties have distinct names and that does
  -- not run there yet is placed without a panic, is among the running actions, and the resources
  -- still add up.
  pub place_action-Conserves :
      (o : OperationId) (info : ActionInfoWithProps)
      → Conserves registered w
      → Distinct string_discrete info.platform_properties
      → is_satisfied_by info.platform_properties w.platform_properties ≡ true
      → lookup OperationId-discrete o w.running_action_infos ≡ none
      → (w' : Worker channel.Tx) × (r : Result (Unit {0})) × (place_action channel w o info
          ≡ some (w', r))
        × (w'.running_action_infos ≡ insert OperationId-discrete o info w.running_action_infos)
        × (w'.id ≡ w.id)
        × Conserves registered w'
  unfolding place_action send_msg_to_worker
  place_action-Conserves o info c names fits idle =
      let (q, e) =
        reduce_platform_properties-total w.platform_properties info.platform_properties names
          (λ k n f.
            let (x, g, m) =
              is_satisfied_by-Satisfies info.platform_properties w.platform_properties fits k
                (minimum n) f in
            λ z. (cc)) in
      let before : Worker channel.Tx = record w {
        running_action_infos = insert OperationId-discrete o info w.running_action_infos;
        platform_properties = q;
      } in
      let after = send_msg_to_worker channel before (start_action o info.inner) in
      (
        after.0,
        after.1,
        ground (arith),
        ground (arith),
        ground (arith),
        placed-Conserves registered w after.0 o info c names fits idle (ground arith)
            (ground arith),
      )

  -- On a worker whose resources add up, a running action completes without a panic or an error:
  -- the worker takes back what the action held, is no longer paused, and the resources still add
  -- up.
  pub complete_action-Conserves :
      (o : OperationId) (info : ActionInfoWithProps)
      → Conserves registered w
      → lookup OperationId-discrete o w.running_action_infos ≡ some info
      → (w' : Worker channel.Tx) × (complete_action w o ≡ some (w', ok tt))
        × (w'.running_action_infos ≡ remove OperationId-discrete o w.running_action_infos)
        × (w'.is_paused ≡ false)
        × (w'.id ≡ w.id)
        × Conserves registered w'
  unfolding complete_action
  complete_action-Conserves o info c runs =
      let p =
        AllValues-lookup OperationId-discrete (IsPlaced registered) o info w.running_action_infos
          c.placed runs in
      let (q, e) =
        restore_platform_properties-total w.platform_properties info.platform_properties p.names
          (λ k n f. free-ne-none registered w c k (p.known k n f)) in
      let w' : Worker channel.Tx = record w {
        platform_properties = q;
        running_action_infos = remove OperationId-discrete o w.running_action_infos;
        is_paused = false;
      } in
      (w', ground arith, refl, refl, refl, completed-Conserves registered w w' o info c runs e refl)

-- A worker with nothing to do has all its resources free.
pub idle-Conserves :
    {Tx : Type 0} (registered : Properties) (w : Worker Tx)
    → ((k : String) (n : ℕ) → lookup string_discrete k registered ≡ some (minimum n) → n < u64_mod)
    → w.platform_properties ≡ registered
    → w.running_action_infos ≡ []
    → Conserves registered w
unfolding demand
idle-Conserves registered w range e r = record {
  once = rw r tt;
  placed = rw r tt;
  range = range;
  balance = λ k n f. (n, rw e f, rw r (omega arith));
  others = λ k h. ap (lookup string_discrete k) e;
}

-- A worker whose resources add up and that runs no action has, of each property, what it
-- registered.
pub Conserves-idle :
    {Tx : Type 0} (registered : Properties) (w : Worker Tx) (k : String)
    → Conserves registered w
    → w.running_action_infos ≡ []
    → lookup string_discrete k w.platform_properties ≡ lookup string_discrete k registered
unfolding demand
Conserves-idle registered w k c r = elim (Option-cases (lookup string_discrete k registered)) [
  | inl a ↦ c.others k (λ n z. (cc))
  | inr (minimum n, f) ↦
      let (a, g, s) = c.balance k n f in
      g ∙ sym (f ∙ ap (λ (x : ℕ). some (minimum x)) (sym (omega (arith, rw r at s))))
  | inr (exact s, f) ↦ c.others k (λ n z. (cc))
  | inr (priority s, f) ↦ c.others k (λ n z. (cc))
  | inr (unknown s, f) ↦ c.others k (λ n z. (cc))
]

-- The other fields of a worker do not matter.
pub Conserves-same :
    {Tx : Type 0} (registered : Properties) (w w' : Worker Tx)
    → w'.platform_properties ≡ w.platform_properties
    → w'.running_action_infos ≡ w.running_action_infos
    → Conserves registered w
    → Conserves registered w'
Conserves-same registered w w' p r c = record {
  once = rw r c.once;
  placed = rw r c.placed;
  range = c.range;
  balance = λ k n e. rw (p, r) (c.balance k n e);
  others = λ k h. rw p (c.others k h);
}
