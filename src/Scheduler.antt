-- ===== src/Scheduler.antt =====
-- The scheduler, kernel/src/scheduler/scheduler.c. The walks along the run list take a number of
-- rounds; one more than the list's length is enough.
pub mod Ahead
pub mod Fairness
pub mod Laws
pub mod Reap
pub mod RoundRobin
pub mod RunList
pub mod Schedule
mod Tests
pub mod Wake
use bethany.Prelude.{
  ℕ, zero, suc, Bool, true, false, ◌&&◌, ◌||◌, Option, none, some, leb, ◌==◌, if◌then◌else◌,
}
use bethany.Tasks.{
  TaskState, task_ready, task_running, task_sleeping, task_dead, same_state, Task, Kernel, state_of,
  set_state, set_next,
}

-- The body of the loop in `scheduler_update`.
pub wake : ℕ → Kernel → Kernel
wake it k =
    if same_state (state_of k it) task_sleeping && leb (k.task it).wake_tick k.ticks
    then set_state it task_ready k
    else k

pub update_loop : ℕ → ℕ → Kernel → Kernel
update_loop zero it k = k
update_loop (suc n) it k =
    let k' = wake it k in
    let rest = update_loop n (k'.task it).next k' in if it == 0 then k else rest

pub scheduler_update : ℕ → Kernel → Kernel
unfolding update_loop wake
scheduler_update n k = update_loop n k.first k

-- `while(it->next != NULL) it = it->next`
pub last_loop : ℕ → (ℕ → Task) → ℕ → ℕ
last_loop zero task it = it
last_loop (suc n) task it =
    let rest = last_loop n task (task it).next in if (task it).next == 0 then it else rest

pub scheduler_add : ℕ → ℕ → Kernel → Kernel
unfolding last_loop
scheduler_add n task k =
    if task == 0
    then k
    else if k.first == 0
    then record k { first = task; current = task }
    else set_next (last_loop n k.task k.first) task k

unfoldable pub scheduler_current : Kernel → ℕ
scheduler_current k = k.current

-- `current = current->next; if(current == NULL) current = first`
pub successor : (ℕ → Task) → ℕ → ℕ → ℕ
successor task first current = if (task current).next == 0 then first else (task current).next

-- The loop of `scheduler_next`: the new value of `current`.
pub next_loop : ℕ → (ℕ → Task) → ℕ → ℕ → ℕ → ℕ
next_loop zero task first start current = current
next_loop (suc n) task first start current =
    let c = successor task first current in
    let rest = next_loop n task first start c in
    if same_state (task c).state task_ready then c else if c == start then c else rest

pub scheduler_next : ℕ → Kernel → Kernel
unfolding next_loop successor
scheduler_next n k =
    if k.current == 0
    then k
    else record k { current = next_loop n k.task k.first k.current k.current }

-- `task_destroy` of task.c: it frees the stack and the task, and `kfree` does nothing.
pub task_destroy : ℕ → Kernel → Kernel
task_destroy task k = k

-- `while(it->next && it->next != task) it = it->next`
pub before_loop : ℕ → (ℕ → Task) → ℕ → ℕ → ℕ
before_loop zero tasks task it = it
before_loop (suc n) tasks task it =
    let rest = before_loop n tasks task (tasks it).next in
    if (tasks it).next == 0 || (tasks it).next == task then it else rest

pub scheduler_remove : ℕ → ℕ → Kernel → Kernel
unfolding before_loop task_destroy
scheduler_remove n task k =
    if task == 0 || k.first == 0
    then k
    else if task == k.first
    then (let k1 = record k { first = (k.task k.first).next } in
        task_destroy task (if k1.current == task then record k1 { current = k1.first } else k1))
    else (let it = before_loop n k.task task k.first in
        if (k.task it).next == 0
        then k
        else (let k1 = set_next it (k.task task).next k in
            let after = (k1.task it).next in
            task_destroy task (
              if k1.current == task
              then record k1 { current = if after == 0 then k1.first else after }
              else k1)))

-- The first part of `scheduler_schedule`: the task that died before is taken off the list.
pub reap : ℕ → Kernel → Kernel
reap n k =
    if k.task_to_destroy == 0
    then k
    else record (scheduler_remove n k.task_to_destroy k) { task_to_destroy = 0 }

-- The last part, when another task was chosen, statement by statement.
pub preempt : ℕ → Kernel → Kernel
preempt old k = if same_state (state_of k old) task_running then set_state old task_ready k else k

pub bury : ℕ → Kernel → Kernel
bury old k =
    if same_state (state_of k old) task_dead && k.task_to_destroy == 0
    then record k { task_to_destroy = old }
    else k

pub hand_over : ℕ → Kernel → Kernel
hand_over old k = let k1 = preempt old k in bury old (set_state k1.current task_running k1)

-- The two tasks of the `context_switch` at the end, if it is reached.
pub scheduler_schedule : ℕ → Kernel → Kernel × Option (ℕ × ℕ)
unfolding reap hand_over preempt bury
scheduler_schedule n k =
    let k1 = scheduler_update n (reap n k) in
    let old = k1.current in
    let k2 = scheduler_next n k1 in
    if old == k2.current then (k2, none) else (hand_over old k2, some (old, k2.current))
