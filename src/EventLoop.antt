-- ===== src/EventLoop.antt =====
-- eventloop/eventloop.go: the timers, intervals and immediates of a loop, its queue of auxiliary
-- jobs, and the loop itself.
-- A `*job` is a position of `store`. A job enters the store where the source starts and counts it;
-- the closure of `SetTimeout` and `SetInterval` does both on the loop, and the handle that Go code
-- holds before that is used only behind it in the queue. What a callback does to the loop is a list
-- of further operations after its bookkeeping, so a `user` task has no effect of its own.
pub mod Count
pub mod Index
pub mod Alive
pub mod Terminate
pub mod Run
pub mod Lost
use goja_ext.Prelude.{
  ℕ, zero, suc, ◌+◌, ◌-◌, Bool, true, false, ◌&&◌, not, List, [], ◌∷◌, ◌++◌, Option, none, some,
  ◌==◌, ltb, if◌then◌else◌, length, get_elem?, set, init, ℤ, pos, negsuc,
}

-- `jobCount++` and `jobCount--`.
abbrev pub inc : ℤ → ℤ
inc (pos n) = pos (suc n)
inc (negsuc zero) = pos 0
inc (negsuc (suc n)) = negsuc n

abbrev pub dec : ℤ → ℤ
dec (pos zero) = negsuc 0
dec (pos (suc n)) = pos n
dec (negsuc n) = negsuc (suc n)

-- `Timer`, `Interval` and `Immediate`.
pub data Kind : Type 0 where
  timeout interval immediate : Kind

-- `idx` is `none` where the source holds -1. `armed`: the `time.Timer` has neither fired nor been
-- stopped, or the interval's `stopChan` is open.
pub record Job : Type 0 where
  pub kind : Kind
  pub cancelled : Bool
  pub refed : Bool
  pub idx : Option ℕ
  pub armed : Bool

-- The closures that `addAuxJob` queues.
pub data Task : Type 0 where
  start_timeout start_interval user : Task
  clear_timeout_task clear_interval_task : ℕ → Task
  do_timeout_task do_interval_task do_immediate_task remove_task : ℕ → Task

pub record Loop : Type 0 where
  pub store : List Job
  pub jobs : List ℕ
  pub job_count : ℤ
  pub aux : List Task
  pub wakeup : Bool
  pub can_run : Bool
  pub running : Bool
  pub terminated : Bool

-- `addAuxJob`
unfoldable pub add_aux_job : Task → Loop → Loop × Bool
add_aux_job t l =
    if l.terminated then (l, false) else (record l { aux = l.aux ++ (t ∷ []); wakeup = true }, true)

abbrev pub put_job : ℕ → Job → Loop → Loop
put_job i j l = record l { store = set l.store i j }

abbrev pub set_idx : Option ℕ → Option Job → ℕ → Loop → Loop
set_idx k none i l = l
set_idx k (some j) i l = put_job i (record j { idx = k }) l

-- `loop.jobs[idx] = last; last.idx = idx`, where `last` is the job at the end of the slice
abbrev pub move_last : ℕ → Option ℕ → Loop → Loop
move_last k none l = l
move_last k (some last) l =
    set_idx (some k) (get_elem? l.store last) last (record l { jobs = set l.jobs k last })

-- `removeJob` of a job at a known index.
unfoldable pub remove_at : ℕ → ℕ → Loop → Loop
remove_at i k l =
    let moved =
      if ltb k (length l.jobs - 1)
      then move_last k (get_elem? l.jobs (length l.jobs - 1)) l
      else l in
    set_idx none (get_elem? moved.store i) i (record moved { jobs = init moved.jobs })

abbrev pub remove_if : ℕ → Option ℕ → Loop → Loop
remove_if i none l = l
remove_if i (some k) l = remove_at i k l

-- `removeJob`
unfoldable pub remove_job : ℕ → Job → Loop → Loop
remove_job i j l = remove_if i j.idx l

-- `cancelled = true; if refed { jobCount-- }`
unfoldable pub cancel : ℕ → Job → Loop → Loop
cancel i j l = record (put_job i (record j { cancelled = true }) l) {
  job_count = if j.refed then dec l.job_count else l.job_count;
}

-- `doTimeout`, up to the call of the function.
unfoldable pub do_timeout : ℕ → Job → Loop → Loop
unfolding remove_job cancel
do_timeout i j l =
    let removed = remove_job i j l in
    if not j.cancelled then cancel i (record j { idx = none }) removed else removed

-- `doImmediate`, up to the call of the function.
unfoldable pub do_immediate : ℕ → Job → Loop → Loop
do_immediate i j l = if not j.cancelled then cancel i j l else l

-- `clearTimeout`: a timer that `Stop` still stops leaves `jobs`; one that has fired is removed by
-- its queued `doTimeout`.
unfoldable pub clear_timeout : ℕ → Job → Loop → Loop
clear_timeout i j l =
    if not j.cancelled
    then (let j' = record j { cancelled = true; armed = false } in
        let l' = put_job i j' (cancel i j l) in if j.armed then remove_job i j' l' else l')
    else l

-- `clearInterval`
unfoldable pub clear_interval : ℕ → Job → Loop → Loop
clear_interval i j l =
    if not j.cancelled
    then (let j' = record j { cancelled = true; armed = false } in
        remove_job i j' (put_job i j' (cancel i j l)))
    else l

-- `clearImmediate`
unfoldable pub clear_immediate : ℕ → Job → Loop → Loop
clear_immediate i j l = if not j.cancelled then cancel i j l else l

-- `jobCount++`, the job's start, and its place at the end of `jobs`: what `schedule` and the closures
-- of `SetTimeout` and `SetInterval` do.
unfoldable pub schedule : Kind → Loop → Loop
schedule k l = record l {
  job_count = inc l.job_count;
  store =
      l.store
      ++ (record {
        kind = k;
        cancelled = false;
        refed = true;
        idx = some (length l.jobs);
        armed = true;
      }
          ∷ []);
  jobs = l.jobs ++ (length l.store ∷ []);
}

-- `setImmediate` and `addImmediate`
unfoldable pub set_immediate : Loop → Loop
unfolding add_aux_job
set_immediate l =
    let l' = record l {
      job_count = inc l.job_count;
      store =
          l.store
          ++ (record {
            kind = immediate;
            cancelled = false;
            refed = true;
            idx = none;
            armed = false;
          }
              ∷ []);
    } in
    (add_aux_job (do_immediate_task (length l.store)) l').0

abbrev pub bool_eq : Bool → Bool → Bool
bool_eq true b = b
bool_eq false b = not b

-- `setJobRef`
unfoldable pub set_job_ref : ℕ → Job → Bool → Loop → Loop
set_job_ref i j refed l =
    if j.cancelled
    then l
    else if bool_eq j.refed refed
    then l
    else record (put_job i (record j { refed = refed }) l) {
      job_count = if refed then inc l.job_count else dec l.job_count;
      wakeup = true;
    }

-- An operation on a job of the given kind, where a handle names one.
abbrev pub on_kind : Kind → Kind → Loop → Loop → Loop
on_kind timeout timeout l l' = l'
on_kind interval interval l l' = l'
on_kind immediate immediate l l' = l'
on_kind _ _ l l' = l

abbrev pub on_job : Option Job → Kind → (Job → Loop → Loop) → Loop → Loop
on_job none k f l = l
on_job (some j) k f l = on_kind k j.kind l (f j l)

-- The body of a queued closure.
unfoldable pub exec : Task → Loop → Loop
unfolding schedule do_timeout do_immediate clear_timeout clear_interval remove_job
exec start_timeout l = schedule timeout l
exec start_interval l = schedule interval l
exec user l = l
exec (clear_timeout_task i) l = on_job (get_elem? l.store i) timeout (clear_timeout i) l
exec (clear_interval_task i) l = on_job (get_elem? l.store i) interval (clear_interval i) l
exec (do_timeout_task i) l = on_job (get_elem? l.store i) timeout (do_timeout i) l
exec (do_interval_task i) l = l
exec (do_immediate_task i) l = on_job (get_elem? l.store i) immediate (do_immediate i) l
exec (remove_task i) l = on_job (get_elem? l.store i) interval (remove_job i) l

-- `setRunning`; `none` where it panics. `reinitializeContext` is the reset of `terminated`.
unfoldable pub set_running : Loop → Option Loop
set_running l =
    if l.running
    then none
    else some (record l { terminated = false; can_run = true; running = true })

-- `StopNoWait`
unfoldable pub stop_no_wait : Loop → Loop
stop_no_wait l = if l.running then record l { can_run = false; wakeup = true } else l

-- What may happen to a loop: calls from JavaScript and Go, the runtime's timers and workers, and
-- the next queued task.
pub data Op : Type 0 where
  js_timeout js_interval js_immediate go_stop run_task : Op
  js_clear_timeout js_clear_interval js_clear_immediate : ℕ → Op
  js_ref js_unref : ℕ → Op
  go_add : Task → Op
  timer_fires ticker_ticks worker_ends : ℕ → Op

-- `time.AfterFunc`'s function, on a timer that was not stopped.
abbrev pub fire : ℕ → Job → Loop → Loop
fire i j l =
    if j.armed
    then (add_aux_job (do_timeout_task i) (put_job i (record j { armed = false }) l)).0
    else l

-- The two ways on of an interval's worker.
abbrev pub tick : ℕ → Job → Loop → Loop
tick i j l = if j.armed then (add_aux_job (do_interval_task i) l).0 else l

abbrev pub end_worker : ℕ → Job → Loop → Loop
end_worker i j l = if j.armed then l else (add_aux_job (remove_task i) l).0

-- One round of the loop in `runAux`.
abbrev pub run_first : List Task → Loop → Loop
run_first [] l = l
run_first (t ∷ ts) l = exec t (record l { aux = ts })

abbrev pub set_ref_of : Option Job → ℕ → Bool → Loop → Loop
set_ref_of none i b l = l
set_ref_of (some j) i b l = set_job_ref i j b l

unfoldable pub step : Op → Loop → Loop
unfolding schedule set_immediate clear_timeout clear_interval clear_immediate add_aux_job
    stop_no_wait
step js_timeout l = schedule timeout l
step js_interval l = schedule interval l
step js_immediate l = set_immediate l
step go_stop l = stop_no_wait l
step run_task l = run_first l.aux l
step (js_clear_timeout i) l = on_job (get_elem? l.store i) timeout (clear_timeout i) l
step (js_clear_interval i) l = on_job (get_elem? l.store i) interval (clear_interval i) l
step (js_clear_immediate i) l = on_job (get_elem? l.store i) immediate (clear_immediate i) l
step (js_ref i) l = set_ref_of (get_elem? l.store i) i true l
step (js_unref i) l = set_ref_of (get_elem? l.store i) i false l
step (go_add t) l = (add_aux_job t l).0
step (timer_fires i) l = on_job (get_elem? l.store i) timeout (fire i) l
step (ticker_ticks i) l = on_job (get_elem? l.store i) interval (tick i) l
step (worker_ends i) l = on_job (get_elem? l.store i) interval (end_worker i) l

unfoldable pub steps : List Op → Loop → Loop
steps [] l = l
steps (o ∷ os) l = steps os (step o l)

-- The loop that `NewEventLoop` returns.
abbrev pub new_event_loop : Loop
new_event_loop = record {
  store = [];
  jobs = [];
  job_count = pos 0;
  aux = [];
  wakeup = false;
  can_run = false;
  running = false;
  terminated = false;
}

-- `runAux`: the tasks that are queued when it starts, in order.
unfoldable pub run_tasks : List Task → Loop → Loop
run_tasks [] l = l
run_tasks (t ∷ ts) l = run_tasks ts (exec t l)

unfoldable pub run_aux : Loop → Loop
unfolding run_tasks
run_aux l = run_tasks l.aux (record l { aux = [] })

-- The body of `Terminate`'s loop, on a job that is not cancelled.
unfoldable pub terminate_job : ℕ → Job → Loop → Loop
terminate_job i j l =
    let j' = record j { cancelled = true; armed = false } in
    remove_job i j' (put_job i j' (cancel i j l))

abbrev pub job_at : Loop → Option ℕ → Option (ℕ × Job)
job_at l none = none
job_at l (some i) = elim (get_elem? l.store i) [ none ↦ none | some j ↦ some (i, j) ]

-- The loop of `Terminate`: `i` goes on only past jobs that are cancelled already. `none`: the fuel ran
-- out, or `jobs` names a job that is not there.
unfoldable pub cancel_jobs : ℕ → ℕ → Loop → Option Loop
unfolding terminate_job
cancel_jobs zero i l = none
cancel_jobs (suc fuel) i l =
    if ltb i (length l.jobs)
    then elim (job_at l (get_elem? l.jobs i)) [
      | none ↦ none
      | some (id, j) ↦ elim j.cancelled [
        | true ↦ cancel_jobs fuel (i + 1) l
        | false ↦ cancel_jobs fuel i (terminate_job id j l)
      ]
    ]
    else some l

-- `Terminate`, once `Stop` has returned.
unfoldable pub terminate : ℕ → Loop → Option Loop
unfolding run_aux cancel_jobs
terminate fuel l = cancel_jobs fuel 0 (run_aux (record l { terminated = true }))

-- What the `select` of `run` meets: a change made elsewhere, while the loop waits; a wakeup, with what
-- the callbacks do that `runAux` calls; and the end of the context.
pub data Event : Type 0 where
  outside : Op → Event
  woken : List Op → Event
  done : Event

-- How `run` ends: by its condition, by `canRun`, by the context; or it waits for another event.
pub data Exit : Type 0 where
  idle stopped ended waiting : Exit

abbrev pub positive : ℤ → Bool
positive (pos zero) = false
positive (pos (suc n)) = true
positive (negsuc n) = false

unfoldable pub run_select : List Event → Loop → Loop × Exit
unfolding run_aux steps
run_select [] l = (l, waiting)
run_select (outside o ∷ es) l = run_select es (step o l)
run_select (done ∷ es) l = (l, ended)
run_select (woken os ∷ es) l =
    let l' = steps os (run_aux (record l { wakeup = false })) in
    let rest = run_select es l' in
    if not l'.can_run then (l', stopped) else if positive l'.job_count then rest else (l', idle)

-- The deferred end of `run`.
abbrev pub leave : Loop × Exit → Loop × Exit
leave (l, waiting) = (l, waiting)
leave (l, idle) = (record l { running = false }, idle)
leave (l, stopped) = (record l { running = false }, stopped)
leave (l, ended) = (record l { running = false }, ended)

-- `run(false)`, as `Run` calls it.
unfoldable pub run : List Event → Loop → Loop × Exit
unfolding run_select run_aux
run es l =
    let l' = run_aux l in leave (if positive l'.job_count then run_select es l' else (l', idle))
