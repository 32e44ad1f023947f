-- ===== src/Examples/Workers.antt =====
-- The theorems on properties and resources, for a worker with four CPUs and an action that needs
-- three.
use native_link.Base.{
  ℕ, ◌<◌, String, true, false, some, [], ◌∷◌, ◌≡◌, refl, arith, Result, ok, lookup, string_discrete,
  ◌↔◌, ℕ_discrete, remove, insert,
}
use native_link.ActionMessages.{OperationId-discrete, uuid}
use native_link.PlatformProperties.{minimum, PlatformPropertyValue-discrete, is_satisfied_by}
use native_link.PlatformProperties.Satisfied.{Satisfies, is_satisfied_by_iff}
use native_link.Worker.{Worker, place_action, complete_action, u64_mod}
use native_link.Worker.Demand.{Conserves, IsPlaced, demand}
use native_link.Worker.Drained.{complete_all, complete_all-registered}
use native_link.Worker.Conservation.{
  idle-Conserves, place_action-Conserves, complete_action-Conserves,
}
use native_link.Examples.Data.{build, machine, idle_worker, busy_worker, open_channel}

is_satisfied_by_iff_example :
    (is_satisfied_by (("cpu", minimum 3) ∷ []) machine ≡ true)
    ↔ Satisfies machine (("cpu", minimum 3) ∷ [])
unfolding lookup
is_satisfied_by_iff_example = is_satisfied_by_iff (("cpu", minimum 3) ∷ []) machine (refl, tt)

machine-cpu :
    (k : String) (n : ℕ)
    → lookup string_discrete k machine ≡ some (minimum n)
    → (k ≡ "cpu") × (n ≡ 4)
unfolding lookup
machine-cpu k n h = elim (string_discrete k "cpu") [
  | yes q ↦ (q, ground arith)
  | no q ↦ absurd (ground arith)
]

machine-range :
    (k : String) (n : ℕ) → lookup string_discrete k machine ≡ some (minimum n) → n < u64_mod
machine-range k n h = let (q, e) = machine-cpu k n h in omega (arith, e)

pub idle_worker-Conserves : Conserves machine idle_worker
idle_worker-Conserves = idle-Conserves machine idle_worker machine-range refl refl

busy_worker-IsPlaced : IsPlaced machine build
unfolding lookup
busy_worker-IsPlaced = record {
  names = (refl, tt);
  known = λ k n h. elim (string_discrete k "cpu") [
    | yes q ↦ λ z. (ground arith)
    | no q ↦ absurd (ground arith)
  ];
}

pub busy_worker-Conserves : Conserves machine busy_worker
unfolding lookup demand string_discrete
busy_worker-Conserves = record {
  once = (refl, tt);
  placed = (busy_worker-IsPlaced, tt);
  range = machine-range;
  balance = λ k n f. let (q, e) = machine-cpu k n f in (1, rw q, rw (q, e));
  others = λ k h. elim (string_discrete k "cpu") [
    | yes q ↦ absurd (h 4 (ground arith))
    | no q ↦ ground arith
  ];
}

pub build-fits : is_satisfied_by build.platform_properties machine ≡ true
unfolding is_satisfied_by lookup string_discrete PlatformPropertyValue-discrete ℕ_discrete
build-fits = refl

place_action-Conserves_example :
    (w' : Worker ℕ) × (r : Result (Unit {0})) × (place_action open_channel idle_worker
        (uuid 7)
        build
      ≡ some (w', r))
    × (w'.running_action_infos ≡ insert OperationId-discrete (uuid 7) build [])
    × (w'.id ≡ 1)
    × Conserves machine w'
unfolding lookup
place_action-Conserves_example =
    place_action-Conserves open_channel machine idle_worker (uuid 7) build idle_worker-Conserves
      (refl, tt) build-fits refl

complete_action-Conserves_example :
    (w' : Worker ℕ) × (complete_action busy_worker (uuid 7) ≡ some (w', ok tt))
    × (w'.running_action_infos
        ≡ remove OperationId-discrete (uuid 7) busy_worker.running_action_infos)
    × (w'.is_paused ≡ false)
    × (w'.id ≡ 1)
    × Conserves machine w'
unfolding lookup OperationId-discrete ℕ_discrete
complete_action-Conserves_example =
    complete_action-Conserves open_channel machine busy_worker (uuid 7) build busy_worker-Conserves
      refl

complete_all-registered_example :
    (w' : Worker ℕ) × (complete_all open_channel busy_worker (uuid 7 ∷ []) ≡ some w')
    × (w'.running_action_infos ≡ [])
    × ((k : String)
        → lookup string_discrete k w'.platform_properties ≡ lookup string_discrete k machine)
unfolding lookup remove OperationId-discrete ℕ_discrete
complete_all-registered_example =
    complete_all-registered open_channel machine busy_worker (uuid 7 ∷ []) busy_worker-Conserves
      (build, refl, refl)
