-- ===== src/Orchestration/Manager/Capacity.antt =====
-- The limits of the manager hold whatever its tasks do.
use real_time_surveillance_a.Base.{
  ℕ, ◌≤◌, String, ◌≡◌, refl, inl, inr, ◌||◌, some, List, [], ◌∷◌, arith, leb, Bool-cases, if_elim,
  Option-cases, ◌==◌, comparable_nat, comparable_text, comparable_pair, length, length-keep_last,
  Result, ok, err, Result-cases,
}
use real_time_surveillance_a.Dict.{lookup, length-insert, length-erase}
use real_time_surveillance_a.Orchestration.Errors.{Patterns}
use real_time_surveillance_a.Orchestration.States.{
  LifecycleOperation, LifecycleOutcome, starting, is_state, is_running, start, restart, started,
  restarted,
}
use real_time_surveillance_a.Orchestration.Worker.Record.{CameraStatus}
use real_time_surveillance_a.Orchestration.Manager.Registry.{
  Handle, ManagerError, Manager, new_manager, remember, register, remove_worker,
  ensure_admission_open, admit, Step, perform, interfere,
}
use real_time_surveillance_a.Orchestration.Manager.Calls.{
  LifecycleOperationResult, Stopped, Launch, retire, withdraw, publish, launch, restart_camera,
  start_camera,
}

abbrev pub IsWithin : Manager → Type 0
IsWithin m =
    (length m.workers ≤ m.max_active_workers)
    × (length m.statuses ≤ m.retained_statuses)
    × (length m.generations ≤ m.retained_statuses)

remember-IsWithin :
    (status : CameraStatus) (m : Manager) → IsWithin m → IsWithin (remember status m)
unfolding remember
remember-IsWithin status m h = (h.0, length-keep_last m.retained_statuses _, h.2)

remove_worker-IsWithin :
    (camera_id : String) (handle : Handle) (m : Manager)
    → IsWithin m
    → IsWithin (remove_worker camera_id handle m)
unfolding remove_worker
remove_worker-IsWithin camera_id handle m h = elim (Option-cases (lookup camera_id m.workers)) [
  | inl e ↦ rw (e, remove_worker) h
  | inr (registered, e) ↦ elim (Bool-cases (registered.identity == handle.identity)) [
    | inl e' ↦
        rw (e, e', remove_worker) (omega (arith, length-erase camera_id m.workers, h.0), h.1, h.2)
    | inr e' ↦ rw (e, e', remove_worker) h
  ]
]

module _ (re : Patterns) where
  admit-IsWithin :
      (camera_id message : String) (m : Manager)
      → IsWithin m
      → IsWithin (admit re camera_id message m).1
  unfolding admit register
  admit-IsWithin camera_id message m h =
      elim (Result-cases (ensure_admission_open re (some camera_id) m)) [
        | inr (x, e) ↦ rw (e, admit) h
        | inl (x, e) ↦ elim (Bool-cases (leb m.max_active_workers (length m.workers))) [
          | inl e' ↦ rw (e, e', admit) h
          | inr e' ↦
              rw (e, e', admit)
                (
                  ground (arith, length-insert camera_id (register camera_id m).0 m.workers),
                  h.1,
                  length-keep_last m.retained_statuses _,
                )
        ]
      ]

  perform-IsWithin : (step : Step re) (m : Manager) → IsWithin m → IsWithin (perform re step m)
  unfolding perform
  perform-IsWithin (Step.remembers status) m h = remember-IsWithin status m h
  perform-IsWithin (Step.admits camera_id message) m h = admit-IsWithin camera_id message m h
  perform-IsWithin (Step.removes camera_id handle) m h = remove_worker-IsWithin camera_id handle m h
  perform-IsWithin Step.closes_admission m h = h
  perform-IsWithin (Step.records_failures failures) m h = h

  interfere-IsWithin :
      (steps : List (Step re)) (m : Manager) → IsWithin m → IsWithin (interfere re steps m)
  unfolding interfere
  interfere-IsWithin [] m h = h
  interfere-IsWithin (step ∷ steps) m h =
      interfere-IsWithin steps (perform re step m) (perform-IsWithin step m h)

  leave-IsWithin :
      (camera_id : String) (handle : Handle) (status : CameraStatus) (steps : List (Step re))
      (m : Manager)
      → IsWithin m
      → IsWithin (remove_worker camera_id handle (interfere re steps (remember status m)))
  leave-IsWithin camera_id handle status steps m h =
      remove_worker-IsWithin camera_id handle _
        (interfere-IsWithin steps _ (remember-IsWithin status m h))

  retire-IsWithin :
      (camera_id : String) (handle : Handle) (l : Launch re) (m : Manager)
      → IsWithin m
      → IsWithin (retire re camera_id handle l m).1
  unfolding retire
  retire-IsWithin camera_id handle l m h = by_stop l.stopping refl
    where
      during : IsWithin (interfere re l.while_stopping m)
      during = interfere-IsWithin l.while_stopping m h

      by_stop : (s : Stopped) → l.stopping ≡ s → IsWithin (retire re camera_id handle l m).1
      by_stop (err e) p = rw (p, retire) during
      by_stop (ok (status, [])) p =
          rw (p, retire) (leave-IsWithin camera_id handle status l.before_retirement _ during)
      by_stop (ok (status, f ∷ fs)) p =
          rw (p, retire) (leave-IsWithin camera_id handle status l.before_retirement _ during)

  withdraw-IsWithin :
      (camera_id : String) (handle : Handle) (l : Launch re) (m : Manager)
      → IsWithin m
      → IsWithin (withdraw re camera_id handle l m).1
  unfolding withdraw
  withdraw-IsWithin camera_id handle l m h = by_stop l.late_stopping refl
    where
      during : IsWithin (interfere re l.while_withdrawing m)
      during = interfere-IsWithin l.while_withdrawing m h

      by_stop : (s : Stopped) → l.late_stopping ≡ s → IsWithin (withdraw re camera_id handle l m).1
      by_stop (err e) p = rw (p, withdraw) during
      by_stop (ok (status, failures)) p =
          rw (p, withdraw) (leave-IsWithin camera_id handle l.last_status l.before_removal _ during)

  publish-IsWithin :
      (operation : LifecycleOperation) (outcome : LifecycleOutcome) (camera_id : String)
      (handle : Handle) (l : Launch re) (status : CameraStatus) (m : Manager)
      → IsWithin m
      → IsWithin (publish re operation outcome camera_id handle l status m).1
  unfolding publish
  publish-IsWithin operation outcome camera_id handle l status m h =
      if_elim {A = Result ManagerError LifecycleOperationResult × Manager} (λ o. IsWithin o.1)
        m.admission_closed _ _ (λ e. withdraw-IsWithin camera_id handle l m h)
        λ e. remember-IsWithin status m h

  launch-IsWithin :
      (operation : LifecycleOperation) (outcome : LifecycleOutcome) (camera_id : String)
      (l : Launch re) (m : Manager)
      → IsWithin m
      → IsWithin (launch re operation outcome camera_id l m).1
  unfolding launch
  launch-IsWithin operation outcome camera_id l m h =
      elim (Result-cases (admit re camera_id l.capacity_message before).0) [
        | inr (e, refused) ↦ rw (refused, launch) admitted
        | inl (handle, given) ↦ elim (Result-cases l.starting) [
          | inr (e, p) ↦
              rw (given, p, launch)
                (leave-IsWithin camera_id handle l.last_status l.before_removal _ during)
          | inl (status, p) ↦
              rw (given, p, launch)
                (publish-IsWithin operation outcome camera_id handle l status _ during)
        ]
      ]
    where
      before : Manager
      before = interfere re l.before_admission m

      admitted : IsWithin (admit re camera_id l.capacity_message before).1
      admitted =
          admit-IsWithin camera_id l.capacity_message before
            (interfere-IsWithin l.before_admission m h)

      during :
          IsWithin (interfere re l.while_starting (admit re camera_id l.capacity_message before).1)
      during = interfere-IsWithin l.while_starting _ admitted

  -- Whatever other tasks do meanwhile, a restart keeps the workers within their number, and the
  -- statuses and generations within the number retained.
  pub restart_camera-IsWithin :
      (camera_id : String) (l : Launch re) (m : Manager)
      → IsWithin m
      → IsWithin (restart_camera re camera_id l m).1
  unfolding restart_camera
  restart_camera-IsWithin camera_id l m h = elim (Option-cases (lookup camera_id m.workers)) [
    | inl e ↦ rw (e, restart_camera) (launch-IsWithin restart restarted camera_id l m h)
    | inr (handle, e) ↦ elim (Result-cases (retire re camera_id handle l m).0) [
      | inr (x, p) ↦ rw (e, p, restart_camera) (retire-IsWithin camera_id handle l m h)
      | inl (x, p) ↦
          rw (e, p, restart_camera)
            (launch-IsWithin restart restarted camera_id l _
              (retire-IsWithin camera_id handle l m h))
    ]
  ]

  -- Whatever other tasks do meanwhile, a start keeps the workers within their number, and the
  -- statuses and generations within the number retained.
  pub start_camera-IsWithin :
      (camera_id : String) (l : Launch re) (m : Manager)
      → IsWithin m
      → IsWithin (start_camera re camera_id l m).1
  unfolding start_camera
  start_camera-IsWithin camera_id l m h = elim (Option-cases (lookup camera_id m.workers)) [
    | inl e ↦ rw (e, start_camera) (launch-IsWithin start started camera_id l m h)
    | inr (handle, e) ↦
        elim (Bool-cases (is_running l.current_state || is_state l.current_state starting)) [
          | inl q ↦ rw (e, q, start_camera) h
          | inr q ↦ elim (Result-cases (retire re camera_id handle l m).0) [
            | inr (x, p) ↦ rw (e, q, p, start_camera) (retire-IsWithin camera_id handle l m h)
            | inl (x, p) ↦
                rw (e, q, p, start_camera)
                  (launch-IsWithin start started camera_id l _
                    (retire-IsWithin camera_id handle l m h))
          ]
        ]
  ]

new_manager-IsWithin :
    (retained_statuses max_active_workers : ℕ) (m : Manager)
    → new_manager retained_statuses max_active_workers ≡ ok m
    → IsWithin m
unfolding new_manager
new_manager-IsWithin retained_statuses max_active_workers m e = ground arith
