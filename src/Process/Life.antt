-- ===== src/Process/Life.antt =====
-- crates/kernel-core/src/process.rs: what holds of a process through its life.
use gaxera.Prelude.{ℕ, ◌≤◌, ◌≡◌, refl, Bool, true, false, ◌&&◌, List, [], ◌∷◌, is_some, arith}
use gaxera.Abi.Ids.{ObjectId}
use gaxera.Process.{
  Process, ProcessState, new, prepared, runnable, running, exit_requested, exiting, zombie, reaped,
  is_leaving, bind_address_space, bind_capability_space, bind_main_thread, bind_supervisor,
  bind_exit_notification, bind_bootstrap_node, configure_main_thread,
  update_bootstrap_manifest_size, bind_bootstrap_manifest, bind_bootstrap_factory,
  record_installed_role, prepare, make_runnable, make_running, request_exit, mark_exiting,
  mark_zombie, reap,
}

pub data Event : Type 0 where
  binds_address_space binds_capability_space binds_main_thread binds_supervisor : ObjectId → Event
  binds_exit_notification binds_bootstrap_factory : ObjectId → Event
  binds_bootstrap_node : ℕ → ObjectId → Event
  binds_bootstrap_manifest : ℕ → ℕ → ℕ → Event
  updates_manifest_size records_role requests_exit : ℕ → Event
  configures prepares makes_runnable makes_running marks_exiting marks_zombie reaps : Event

pub after : Process → Event → Process
after p (binds_address_space id) = (bind_address_space p id).1
after p (binds_capability_space id) = (bind_capability_space p id).1
after p (binds_main_thread id) = (bind_main_thread p id).1
after p (binds_supervisor id) = (bind_supervisor p id).1
after p (binds_exit_notification id) = (bind_exit_notification p id).1
after p (binds_bootstrap_factory id) = (bind_bootstrap_factory p id).1
after p (binds_bootstrap_node index id) = (bind_bootstrap_node p index id).1
after p (binds_bootstrap_manifest frame vaddr size) = (bind_bootstrap_manifest p frame vaddr size).1
after p (updates_manifest_size size) = (update_bootstrap_manifest_size p size).1
after p (records_role role) = (record_installed_role p role).1
after p (requests_exit status) = (request_exit p status).1
after p configures = (configure_main_thread p).1
after p prepares = (prepare p).1
after p makes_runnable = (make_runnable p).1
after p makes_running = (make_running p).1
after p marks_exiting = (mark_exiting p).1
after p marks_zombie = (mark_zombie p).1
after p reaps = (reap p).1

pub after_all : Process → List Event → Process
after_all p [] = p
after_all p (e ∷ es) = after_all (after p e) es

-- Past its components and not yet on its way out.
abbrev pub is_assembled : ProcessState → Bool
is_assembled prepared = true
is_assembled runnable = true
is_assembled running = true
is_assembled _ = false

abbrev pub is_started : ProcessState → Bool
is_started runnable = true
is_started running = true
is_started _ = false

pub record IsConsistent (p : Process) : Type 0 where
  pub assembled :
      is_assembled p.state ≡ true
      → (is_some p.address_space && is_some p.capability_space && is_some p.main_thread) ≡ true
  pub configured : is_started p.state ≡ true → p.main_thread_configured ≡ true
  pub status : is_some p.exit_status ≡ is_leaving p.state
  pub manifest :
      (is_some p.bootstrap_manifest_frame ≡ is_some p.bootstrap_manifest_vaddr)
      × (is_some p.bootstrap_manifest_vaddr ≡ is_some p.bootstrap_manifest_size)

-- The place of a state in a life.
abbrev pub stage : ProcessState → ℕ
stage new = 0
stage prepared = 1
stage runnable = 2
stage running = 3
stage exit_requested = 4
stage exiting = 5
stage zombie = 6
stage reaped = 7

-- From one process to a later one: not back, and the exit status is set once.
pub record IsLater (p q : Process) : Type 0 where
  pub onward : stage p.state ≤ stage q.state
  pub kept : is_leaving p.state ≡ true → q.exit_status ≡ p.exit_status

after-IsConsistent : (p : Process) (e : Event) → IsConsistent p → IsConsistent (after p e)
unfolding after bind_address_space bind_capability_space bind_main_thread bind_supervisor
    bind_exit_notification bind_bootstrap_node configure_main_thread update_bootstrap_manifest_size
    bind_bootstrap_manifest bind_bootstrap_factory record_installed_role prepare make_runnable
    make_running request_exit mark_exiting mark_zombie reap
after-IsConsistent p (binds_address_space id) v = ground (arith, v)
after-IsConsistent p (binds_capability_space id) v = ground (arith, v)
after-IsConsistent p (binds_main_thread id) v = ground (arith, v)
after-IsConsistent p (binds_supervisor id) v = ground (arith, v)
after-IsConsistent p (binds_exit_notification id) v = ground (arith, v)
after-IsConsistent p (binds_bootstrap_factory id) v = ground (arith, v)
after-IsConsistent p (binds_bootstrap_node index id) v = ground (arith, v)
after-IsConsistent p (binds_bootstrap_manifest frame vaddr size) v = ground (arith, v)
after-IsConsistent p (updates_manifest_size size) v = ground (arith, v)
after-IsConsistent p (records_role role) v = ground (arith, v)
after-IsConsistent p (requests_exit status) v = ground (arith, v)
after-IsConsistent p configures v = ground (arith, v)
after-IsConsistent p prepares v = ground (arith, v)
after-IsConsistent p makes_runnable v = ground (arith, v)
after-IsConsistent p makes_running v = ground (arith, v)
after-IsConsistent p marks_exiting v = ground (arith, v)
after-IsConsistent p marks_zombie v = ground (arith, v)
after-IsConsistent p reaps v = ground (arith, v)

after-IsLater : (p : Process) (e : Event) → IsLater p (after p e)
unfolding after bind_address_space bind_capability_space bind_main_thread bind_supervisor
    bind_exit_notification bind_bootstrap_node configure_main_thread update_bootstrap_manifest_size
    bind_bootstrap_manifest bind_bootstrap_factory record_installed_role prepare make_runnable
    make_running request_exit mark_exiting mark_zombie reap
after-IsLater p (binds_address_space id) = ground arith
after-IsLater p (binds_capability_space id) = ground arith
after-IsLater p (binds_main_thread id) = ground arith
after-IsLater p (binds_supervisor id) = ground arith
after-IsLater p (binds_exit_notification id) = ground arith
after-IsLater p (binds_bootstrap_factory id) = ground arith
after-IsLater p (binds_bootstrap_node index id) = ground arith
after-IsLater p (binds_bootstrap_manifest frame vaddr size) = ground arith
after-IsLater p (updates_manifest_size size) = ground arith
after-IsLater p (records_role role) = ground arith
after-IsLater p (requests_exit status) = ground arith
after-IsLater p configures = ground arith
after-IsLater p prepares = ground arith
after-IsLater p makes_runnable = ground arith
after-IsLater p makes_running = ground arith
after-IsLater p marks_exiting = ground arith
after-IsLater p marks_zombie = ground arith
after-IsLater p reaps = ground arith

-- Whatever is done with a process, accepted or refused: it never goes back to an earlier state, and
-- its exit status does not change once it is on its way out. If it was consistent at first: in the
-- states from prepared to running it has an address space, a capability space and a main thread,
-- when it is runnable or running its main thread has been configured, it has an exit status
-- exactly when it is on its way out, and its manifest has all of its three parts or none.
pub after_all-IsLater :
    (p : Process) (es : List Event)
    → IsLater p (after_all p es) × (IsConsistent p → IsConsistent (after_all p es))
unfolding after_all
after_all-IsLater p [] = (record { onward = omega arith; kept = λ h. refl }, λ v. v)
after_all-IsLater p (e ∷ es) =
    let now = after-IsLater p e in
    let (later, holds) = after_all-IsLater (after p e) es in
    (
      record {
        onward = omega (arith, now.onward, later.onward);
        kept = λ h. ground (arith, now.onward, now.kept, later.kept);
      },
      λ v. holds (after-IsConsistent p e v),
    )
