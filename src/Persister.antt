-- ===== src/Persister.antt =====
-- The persister of src/concurrent-glacier.c: clients queue tasks, one worker appends their blobs.
-- What stands between a lock and an unlock of `worker_lock` is one event here. The blobs, the write
-- context and evr_glacier_append_blob are parameters, and so is the result of evr_notify_send.
pub mod Order
mod Locks
pub mod Steps
pub mod Events
pub mod Stop
pub mod Tasks
mod Tests
use everarch.Prelude.{
  ℕ, zero, suc, ◌≡◌, Bool, true, false, Option, none, some, List, [], ◌∷◌, ◌++◌, if◌then◌else◌,
  ◌==◌, update, replicate, set, get_or,
}
use Prim.Native.Nat.{bit_and}
use everarch.Errors.{Status, ok, error, temporary_occupied, is_ok}
use everarch.Queue.Ring.{step}

-- `evr_persister_task_queue_length + 1`, the slots of `tasks`
abbrev pub tasks_len : ℕ
tasks_len = 33

-- `evr_persister_ctx_step`, on the index of the slot
abbrev pub ctx_step : ℕ → ℕ
ctx_step p = step tasks_len p

-- Where the worker is: in front of the tests of its loops, in cnd_wait, in the append of a task, in
-- front of the unlock of the task's `done`, in front of evr_notify_send, and behind its end.
pub data Worker : Type 0 where
  at_test waiting : Worker
  appending : ℕ → Worker
  finishing : ℕ → Status → Worker
  notifying : ℕ → Worker
  ended : Status → Worker

-- A task is a number that stands for its address. `done_locked`, `result` and `last_modified` are
-- fields of the tasks. `accepted` are the tasks that were queued so far, and `persisted` those that
-- the worker has a result of, with its time, and with the last in front.
pub record Persister (G : Type 0) : Type 0 where
  pub tasks : List ℕ
  pub writing : ℕ
  pub reading : ℕ
  pub working : Bool
  pub worker : Worker
  pub write_ctx : G
  pub done_locked : ℕ → Bool
  pub result : ℕ → Option Status
  pub last_modified : ℕ → ℕ
  pub notified : List ℕ
  pub accepted : List ℕ
  pub persisted : List (ℕ × ℕ × Status)

pub data Event : Type 0 where
  -- evr_persister_queue_task and evr_persister_wait_for_task of a client
  queue wait : ℕ → Event
  -- the worker goes on, at a time, and with the result of evr_notify_send
  work : ℕ → Status → Event
  -- cnd_wait returns with no signal
  spurious : Event
  -- evr_persister_stop: the store in front of the lock, and the signal under it
  stop_store stop_signal : Event

-- `evr_persister_watch_filter`
abbrev pub watch_filter : ℕ → ℕ → Bool
watch_filter flags_filter flags = bit_and flags_filter flags == flags_filter

-- what cnd_signal of `has_tasks` does
abbrev pub woken : Worker → Worker
woken waiting = at_test
woken w = w

module _ {B G : Type 0} (append : B → ℕ → G → Status × G) (blob : ℕ → B) where
  -- `evr_persister_start`; `garbage` is what the slots hold before
  unfoldable pub persister_start : ℕ → G → (ℕ → Bool) → (ℕ → Option Status) → (ℕ → ℕ) → Persister G
  persister_start garbage g locked result modified = record {
    tasks = replicate tasks_len garbage;
    writing = 0;
    reading = 0;
    working = true;
    worker = at_test;
    write_ctx = g;
    done_locked = locked;
    result = result;
    last_modified = modified;
    notified = [];
    accepted = [];
    persisted = [];
  }

  abbrev pub queue_next : Persister G → ℕ → Bool → Status × Persister G
  queue_next p task true = (temporary_occupied, record p { worker = woken p.worker })
  queue_next p task false = (
    ok,
    record p {
      tasks = set p.tasks p.writing task;
      writing = ctx_step p.writing;
      worker = woken p.worker;
      done_locked = update p.done_locked task true;
      accepted = p.accepted ++ (task ∷ []);
    },
  )

  -- `evr_persister_queue_task` of a task whose `done` is free
  unfoldable pub queue_task : Persister G → ℕ → Status × Persister G
  queue_task p task = queue_next p task (ctx_step p.writing == p.reading)

  -- the tests of the loops of `evr_persister_worker`, under the lock
  abbrev pub worker_test : Persister G → Bool → Bool → Persister G
  worker_test p false empty = record p { worker = ended ok }
  worker_test p true true = record p { worker = waiting }
  worker_test p true false = record p {
    worker = appending (get_or p.tasks p.reading 0);
    reading = ctx_step p.reading;
  }

  abbrev pub appended : Persister G → ℕ → ℕ → Status × G → Persister G
  appended p task now (task_res, g) = record p {
    write_ctx = g;
    worker = finishing task task_res;
    result = update p.result task (some task_res);
    last_modified = update p.last_modified task now;
    persisted = (task, now, task_res) ∷ p.persisted;
  }

  abbrev pub notified_with : Persister G → Status → Persister G
  notified_with p notify_res =
      if is_ok notify_res then record p { worker = at_test } else record p { worker = ended error }

  -- the next step of `evr_persister_worker`
  unfoldable pub worker_step : Persister G → ℕ → Status → Worker → Persister G
  worker_step p now notify_res at_test = worker_test p p.working (p.writing == p.reading)
  worker_step p now notify_res waiting = p
  worker_step p now notify_res (appending task) =
      appended p task now (append (blob task) now p.write_ctx)
  worker_step p now notify_res (finishing task task_res) = record p {
    worker = if is_ok task_res then notifying task else at_test;
    done_locked = update p.done_locked task false;
  }
  worker_step p now notify_res (notifying task) =
      notified_with (record p { notified = p.notified ++ (task ∷ []) }) notify_res
  worker_step p now notify_res (ended res) = p

  -- A call that has to wait for `done` does nothing yet.
  unfoldable pub happen : Persister G → Event → Persister G
  unfolding queue_task worker_step
  happen p (queue task) = if p.done_locked task then p else (queue_task p task).1
  happen p (wait task) =
      if p.done_locked task then p else record p { done_locked = update p.done_locked task true }
  happen p (work now notify_res) = worker_step p now notify_res p.worker
  happen p spurious = record p { worker = woken p.worker }
  happen p stop_store = record p { working = false }
  happen p stop_signal = record p { worker = woken p.worker }

  unfoldable pub happen_all : Persister G → List Event → Persister G
  unfolding happen
  happen_all p [] = p
  happen_all p (e ∷ es) = happen_all (happen p e) es
