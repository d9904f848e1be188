-- ===== src/Tests/EventLoop.antt =====
-- eventloop/eventloop.go: runs and instances.
use goja_ext.Prelude.{ℕ, true, false, List, [], ◌∷◌, some, ◌≡◌, refl, arith, get_elem?, pos}
use goja_ext.EventLoop.{
  timeout, Job, Loop, Op, js_timeout, js_interval, js_clear_timeout, timer_fires, run_task,
  js_unref, steps, step, new_event_loop, remove_job, remove_at, set_job_ref, run_aux, exec,
  terminate, run, run_select, Event, woken, outside, idle, waiting, set_immediate, set_running,
}
use goja_ext.EventLoop.Count.{Counted, live_count, steps-Counted}
use goja_ext.EventLoop.Index.{Removed, remove_job-Removed}
use goja_ext.EventLoop.Alive.{Inv, steps-Inv}
use goja_ext.EventLoop.Terminate.{terminate_cancels}
use goja_ext.EventLoop.Run.{run_idle}
use goja_ext.EventLoop.Lost.{wakeups, set_immediate-terminated}

new_event_loop-Counted : Counted new_event_loop
new_event_loop-Counted = refl

new_event_loop-Inv : Inv new_event_loop
new_event_loop-Inv = record {
  indexed = record { holds = λ k i h. cc; found = λ k i h. cc };
  alive = λ m g. cc;
}

-- Three timers; the first is cleared, the second fires, the third is unreferenced.
abbrev three : List Op
three =
    js_timeout
    ∷ js_timeout
    ∷ js_interval
    ∷ js_clear_timeout 0
    ∷ timer_fires 1
    ∷ run_task
    ∷ js_unref 2
    ∷ []

three_left :
    ((steps three new_event_loop).jobs ≡ 2 ∷ []) × ((steps three new_event_loop).job_count ≡ pos 0)
unfolding steps step exec remove_job remove_at set_job_ref
three_left = (refl, refl)

steps-Counted_example : Counted (steps three new_event_loop)
steps-Counted_example = steps-Counted three new_event_loop new_event_loop-Counted

steps-Inv_example : Inv (steps three new_event_loop)
steps-Inv_example = steps-Inv three new_event_loop new_event_loop-Inv

abbrev first_job : Job
first_job = record { kind = timeout; cancelled = false; refed = true; idx = some 0; armed = true }

abbrev two_timers : List Op
two_timers = js_timeout ∷ js_timeout ∷ []

remove_job-Removed_example :
    Removed 0
      (steps two_timers new_event_loop)
      (remove_job 0 first_job (steps two_timers new_event_loop))
remove_job-Removed_example =
    remove_job-Removed 0 first_job (steps two_timers new_event_loop)
      (steps-Inv two_timers new_event_loop new_event_loop-Inv).indexed (unfold steps step in refl)

terminate_cancels_example :
    (l' : Loop) × (terminate 5 (steps two_timers new_event_loop) ≡ some l')
    × Inv l'
    × Counted l'
    × ((m : ℕ) (j : Job) → get_elem? l'.store m ≡ some j → j.kind ≡ timeout → j.cancelled ≡ true)
terminate_cancels_example =
    terminate_cancels 5 (steps two_timers new_event_loop)
      (steps-Inv two_timers new_event_loop new_event_loop-Inv)
      (steps-Counted two_timers new_event_loop new_event_loop-Counted)
      (unfold steps step run_aux in omega arith)

abbrev fires : List Event
fires = outside (timer_fires 0) ∷ woken [] ∷ outside (timer_fires 1) ∷ woken [] ∷ []

abbrev started : Loop
started = record (steps two_timers new_event_loop) { can_run = true }

two_idle : (run fires started).1 ≡ idle
unfolding run run_select run_aux steps step exec remove_at
two_idle = refl

run_idle_example : live_count (run fires started).0.store ≡ 0
run_idle_example =
    run_idle fires started (steps-Counted two_timers new_event_loop new_event_loop-Counted) two_idle

abbrev unreferenced : List Op
unreferenced = js_interval ∷ js_unref 0 ∷ []

none_live : live_count (run_aux (steps unreferenced new_event_loop)).store ≡ 0
unfolding run_aux steps step set_job_ref
none_live = refl

abbrev terminated_loop : Loop
terminated_loop = record new_event_loop { terminated = true }

set_immediate-terminated_example :
    ((set_immediate terminated_loop).aux ≡ [])
    × ((l' : Loop) × (set_running (set_immediate terminated_loop) ≡ some l')
        × ((run (wakeups 4) l').1 ≡ waiting))
set_immediate-terminated_example = set_immediate-terminated 4 terminated_loop refl refl refl refl
