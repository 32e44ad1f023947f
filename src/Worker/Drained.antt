-- ===== src/Worker/Drained.antt =====
-- What a worker has once its actions have completed, in whatever order they do.
use native_link.Base.{
  String, Option, none, some, List, [], ◌∷◌, ◌≡◌, refl, lookup, remove, string_discrete, ok, err,
}
use native_link.ActionMessages.{OperationId, OperationId-discrete}
use native_link.PlatformProperties.{Properties}
use native_link.Worker.{ActionInfoWithProps, Worker, Channel, complete_action, ◌>>=?◌}
use native_link.Worker.Demand.{Conserves, Running}
use native_link.Worker.Conservation.{Conserves-idle, complete_action-Conserves}

-- The operations, listed in the order in which they complete.
abbrev pub IsOrder : List OperationId → Running → Type 0
IsOrder [] r = r ≡ []
IsOrder (o ∷ os) r =
    (info : ActionInfoWithProps) × (lookup OperationId-discrete o r ≡ some info)
    × IsOrder os (remove OperationId-discrete o r)

module _ (channel : Channel) where
  -- `complete_action` for one operation after the other; `none` if one panics or fails.
  unfoldable pub complete_all : Worker channel.Tx → List OperationId → Option (Worker channel.Tx)
  unfolding complete_action
  complete_all w [] = some w
  complete_all w (o ∷ os) =
      complete_action w o >>=? λ (w', res). elim res [ err _ ↦ none | ok _ ↦ complete_all w' os ]

  -- When the running actions of a worker whose resources add up complete one after the other, in
  -- any order, none of the completions panics or fails, and at the end the worker runs nothing and
  -- has of each property exactly what it registered.
  pub complete_all-registered :
      (registered : Properties) (w : Worker channel.Tx) (os : List OperationId)
      → Conserves registered w
      → IsOrder os w.running_action_infos
      → (w' : Worker channel.Tx) × (complete_all w os ≡ some w')
        × (w'.running_action_infos ≡ [])
        × ((k : String)
            → lookup string_discrete k w'.platform_properties ≡ lookup string_discrete k registered)
  unfolding complete_all
  complete_all-registered registered w [] c e = (w, refl, e, λ k. Conserves-idle registered w k c e)
  complete_all-registered registered w (o ∷ os) c (info, runs, order) =
      let (w', e, left, p, i, c') = complete_action-Conserves channel registered w o info c runs in
      let (last, f, idle, free) = complete_all-registered registered w' os c' (rw left order) in
      (last, rw e f, idle, free)
