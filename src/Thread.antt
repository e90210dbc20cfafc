-- ===== src/Thread.antt =====
-- crates/kernel-core/src/thread.rs: `Thread`, its states, priorities and processor.
-- The field of the architecture's type is left out: no operation here reads it.
use gaxera.Prelude.{ℕ, Bool, true, false, Option, none, some, max, if◌then◌else◌, Result, ok, err}
use gaxera.Abi.Ids.{ObjectId}
use gaxera.Abi.Messages.{InlineMessage}
use gaxera.Affinity.{CpuAffinityMask}
use gaxera.Affinity

pub data ThreadState : Type 0 where
  new runnable running blocked dying dead : ThreadState

pub data ThreadError : Type 0 where
  invalid_transition : ThreadError

pub record Thread : Type 0 where
  pub id : ObjectId
  pub state : ThreadState
  pub address_space : Option ObjectId
  pub cspace : Option ObjectId
  pub base_priority : ℕ
  pub effective_priority : ℕ
  pub assigned_cpu : ℕ
  pub affinity : CpuAffinityMask
  pub ipc_receive_buffer : Option InlineMessage

abbrev pub Changed : Type 0
Changed = Result (Unit {0}) ThreadError × Thread

unfoldable pub new_thread : ObjectId → Option ObjectId → Thread
new_thread id address_space = record {
  id = id;
  state = new;
  address_space = address_space;
  cspace = none;
  base_priority = 0;
  effective_priority = 0;
  assigned_cpu = 0;
  affinity = Affinity.all;
  ipc_receive_buffer = none;
}

unfoldable pub set_base_priority : Thread → ℕ → Thread
set_base_priority t priority = record t {
  base_priority = priority;
  effective_priority = max t.effective_priority priority;
}

unfoldable pub boost_priority : Thread → ℕ → Thread
boost_priority t caller_priority = record t {
  effective_priority = max t.effective_priority caller_priority;
}

unfoldable pub restore_priority : Thread → Thread
restore_priority t = record t { effective_priority = t.base_priority }

unfoldable pub set_cspace : Thread → ObjectId → Thread
set_cspace t cspace = record t { cspace = some cspace }

unfoldable pub set_aspace : Thread → Option ObjectId → Thread
set_aspace t aspace = record t { address_space = aspace }

abbrev pub is_running : ThreadState → Bool
is_running running = true
is_running _ = false

unfoldable pub assign_cpu : Thread → ℕ → Changed
assign_cpu t cpu_id =
    if is_running t.state
    then (err invalid_transition, t)
    else (ok tt, record t { assigned_cpu = cpu_id })

unfoldable pub set_affinity : Thread → CpuAffinityMask → Changed
set_affinity t affinity =
    if is_running t.state
    then (err invalid_transition, t)
    else (ok tt, record t { affinity = affinity })

-- The states that each transition leaves.
abbrev pub from_any_live : ThreadState → Bool
from_any_live dying = false
from_any_live dead = false
from_any_live _ = true

abbrev pub from_started : ThreadState → Bool
from_started runnable = true
from_started running = true
from_started blocked = true
from_started _ = false

abbrev pub is_runnable : ThreadState → Bool
is_runnable runnable = true
is_runnable _ = false

abbrev pub is_dying : ThreadState → Bool
is_dying dying = true
is_dying _ = false

abbrev move : Bool → Thread → ThreadState → Changed
move allowed t state =
    if allowed then (ok tt, record t { state = state }) else (err invalid_transition, t)

unfoldable pub make_runnable : Thread → Changed
make_runnable t = move (from_any_live t.state) t runnable

unfoldable pub make_running : Thread → Changed
make_running t = move (is_runnable t.state) t running

unfoldable pub make_blocked : Thread → Changed
make_blocked t = move (is_running t.state) t blocked

unfoldable pub make_dying : Thread → Changed
make_dying t = move (from_started t.state) t dying

unfoldable pub make_dead : Thread → Changed
make_dead t = move (is_dying t.state) t dead
