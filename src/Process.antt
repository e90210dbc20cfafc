-- ===== src/Process.antt =====
-- crates/kernel-core/src/process.rs: `Process`, from its components over its configuration to its exit.
pub mod Life
pub mod Roles
use gaxera.Prelude.{
  ℕ, zero, suc, Bool, true, false, not, ◌&&◌, ◌||◌, Option, none, some, List, [], ◌∷◌, length, set,
  get_elem?, replicate, leb, ◌==◌, is_some, is_none, if◌then◌else◌, Result, ok, err,
}
use gaxera.Abi.Ids.{ObjectId, ResourceDomainId}

pub data ProcessState : Type 0 where
  new prepared runnable running exit_requested exiting zombie reaped : ProcessState

pub data ProcessError : Type 0 where
  invalid_state_transition missing_components invalid_configuration : ProcessError

pub record Process : Type 0 where
  pub id : ObjectId
  pub state : ProcessState
  pub domain : ResourceDomainId
  pub address_space : Option ObjectId
  pub capability_space : Option ObjectId
  pub main_thread : Option ObjectId
  pub supervisor : Option ObjectId
  pub exit_notification : Option ObjectId
  pub exit_status : Option ℕ
  pub main_thread_configured : Bool
  pub bootstrap_nodes : List (Option ObjectId)
  pub bootstrap_manifest_frame : Option ℕ
  pub bootstrap_manifest_vaddr : Option ℕ
  pub bootstrap_manifest_size : Option ℕ
  pub bootstrap_factory : Option ObjectId
  pub installed_roles : List (Option ℕ)

abbrev pub new_process : ObjectId → ResourceDomainId → Process
new_process id domain = record {
  id = id;
  state = new;
  domain = domain;
  address_space = none;
  capability_space = none;
  main_thread = none;
  supervisor = none;
  exit_notification = none;
  exit_status = none;
  main_thread_configured = false;
  bootstrap_nodes = replicate 32 none;
  bootstrap_manifest_frame = none;
  bootstrap_manifest_vaddr = none;
  bootstrap_manifest_size = none;
  bootstrap_factory = none;
  installed_roles = replicate 32 none;
}

abbrev pub Changed : Type 0
Changed = Result (Unit {0}) ProcessError × Process

-- `==` on the states.
abbrev pub same_state : ProcessState → ProcessState → Bool
same_state new new = true
same_state prepared prepared = true
same_state runnable runnable = true
same_state running running = true
same_state exit_requested exit_requested = true
same_state exiting exiting = true
same_state zombie zombie = true
same_state reaped reaped = true
same_state _ _ = false

-- `if self.state != from { return Err(InvalidStateTransition) }`
abbrev pub only_in : ProcessState → Process → Changed → Changed
only_in from p change =
    if same_state p.state from then change else (err invalid_state_transition, p)

unfoldable pub bind_address_space : Process → ObjectId → Changed
bind_address_space p id = only_in new p (ok tt, record p { address_space = some id })

unfoldable pub bind_capability_space : Process → ObjectId → Changed
bind_capability_space p id = only_in new p (ok tt, record p { capability_space = some id })

unfoldable pub bind_main_thread : Process → ObjectId → Changed
bind_main_thread p id = only_in new p (ok tt, record p { main_thread = some id })

unfoldable pub bind_supervisor : Process → ObjectId → Changed
bind_supervisor p id = only_in new p (ok tt, record p { supervisor = some id })

unfoldable pub bind_exit_notification : Process → ObjectId → Changed
bind_exit_notification p id = only_in new p (ok tt, record p { exit_notification = some id })

unfoldable pub bind_bootstrap_node : Process → ℕ → ObjectId → Changed
bind_bootstrap_node p index id = only_in new p (
    if leb 32 index
    then (err invalid_configuration, p)
    else (ok tt, record p { bootstrap_nodes = set p.bootstrap_nodes index (some id) }))

unfoldable pub configure_main_thread : Process → Changed
configure_main_thread p =
    if not (same_state p.state prepared) || is_none p.main_thread
    then (err invalid_state_transition, p)
    else (ok tt, record p { main_thread_configured = true })

unfoldable pub bootstrap_manifest : Process → Option (ℕ × ℕ × ℕ)
bootstrap_manifest p = elim p.bootstrap_manifest_frame [
  | none ↦ none
  | some frame ↦ elim p.bootstrap_manifest_vaddr [
    | none ↦ none
    | some vaddr ↦ elim p.bootstrap_manifest_size [
      | none ↦ none
      | some size ↦ some (frame, vaddr, size)
    ]
  ]
]

unfoldable pub update_bootstrap_manifest_size : Process → ℕ → Changed
update_bootstrap_manifest_size p size =
    if is_none p.bootstrap_manifest_frame || is_none p.bootstrap_manifest_vaddr
    then (err invalid_configuration, p)
    else (ok tt, record p { bootstrap_manifest_size = some size })

unfoldable pub bind_bootstrap_manifest : Process → ℕ → ℕ → ℕ → Changed
bind_bootstrap_manifest p frame vaddr size =
    if not (same_state p.state new) || size == 0 || is_some p.bootstrap_manifest_frame
    then (err invalid_configuration, p)
    else (
      ok tt,
      record p {
        bootstrap_manifest_frame = some frame;
        bootstrap_manifest_vaddr = some vaddr;
        bootstrap_manifest_size = some size;
      },
    )

unfoldable pub bind_bootstrap_factory : Process → ObjectId → Changed
bind_bootstrap_factory p id =
    if not (same_state p.state new) || is_some p.bootstrap_factory
    then (err invalid_configuration, p)
    else (ok tt, record p { bootstrap_factory = some id })

-- `matches!(role, 5 | 8 | 9)`
abbrev pub is_repeatable : ℕ → Bool
is_repeatable role = role == 5 || role == 8 || role == 9

-- `iter().position(Option::is_none)`
unfoldable pub first_free : List (Option ℕ) → Option ℕ
first_free [] = none
first_free (r ∷ rs) =
    let rest = first_free rs in
    if is_none r then some 0 else elim rest [ none ↦ none | some i ↦ some (suc i) ]

abbrev put_role : Process → ℕ → ℕ → Changed
put_role p slot role =
    (ok tt, record p { installed_roles = set p.installed_roles slot (some role) })

-- `slot >= len || installed_roles[slot].is_some()`
abbrev pub is_taken : List (Option ℕ) → ℕ → Bool
is_taken [] i = true
is_taken (r ∷ rs) zero = is_some r
is_taken (r ∷ rs) (suc i) = is_taken rs i

unfoldable pub record_installed_role : Process → ℕ → Changed
unfolding first_free
record_installed_role p role =
    if is_repeatable role
    then elim (first_free p.installed_roles) [
      | none ↦ (err invalid_configuration, p)
      | some slot ↦ put_role p slot role
    ]
    else if is_taken p.installed_roles role
    then (err invalid_configuration, p)
    else put_role p role role

unfoldable pub prepare : Process → Changed
prepare p = only_in new p (
    if is_none p.address_space || is_none p.capability_space || is_none p.main_thread
    then (err missing_components, p)
    else (ok tt, record p { state = prepared }))

unfoldable pub make_runnable : Process → Changed
make_runnable p = only_in prepared p (
    if not p.main_thread_configured
    then (err invalid_configuration, p)
    else (ok tt, record p { state = runnable }))

unfoldable pub make_running : Process → Changed
make_running p = only_in runnable p (ok tt, record p { state = running })

abbrev pub is_leaving : ProcessState → Bool
is_leaving exit_requested = true
is_leaving exiting = true
is_leaving zombie = true
is_leaving reaped = true
is_leaving _ = false

unfoldable pub request_exit : Process → ℕ → Changed
request_exit p status =
    if is_leaving p.state
    then (err invalid_state_transition, p)
    else (ok tt, record p { exit_status = some status; state = exit_requested })

unfoldable pub mark_exiting : Process → Changed
mark_exiting p = only_in exit_requested p (ok tt, record p { state = exiting })

unfoldable pub mark_zombie : Process → Changed
mark_zombie p = only_in exiting p (ok tt, record p { state = zombie })

unfoldable pub reap : Process → Changed
reap p = only_in zombie p (ok tt, record p { state = reaped })
