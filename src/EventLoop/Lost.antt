-- ===== src/EventLoop/Lost.antt =====
-- `setImmediate` on a loop that is terminated: a callback that `Terminate` runs may call it.
use goja_ext.Prelude.{
  ℕ, zero, suc, Bool, true, false, none, some, length, List, [], ◌∷◌, ◌++◌, if◌then◌else◌, ◌≡◌,
  refl, ap, arith, pos,
}
use goja_ext.EventLoop.{
  inc, immediate, Job, Loop, Task, add_aux_job, set_immediate, set_running, run_tasks, run_aux,
  steps, Event, woken, Exit, waiting, idle, stopped, ended, leave, positive, run_select, run,
  do_immediate_task,
}
use goja_ext.EventLoop.Count.{Counted}

-- `n` wakeups whose callbacks do nothing.
abbrev pub wakeups : ℕ → List Event
wakeups zero = []
wakeups (suc n) = woken [] ∷ wakeups n

-- Nothing is queued, and the counter says that something is left.
record Hangs (l : Loop) : Type 0 where
  no_task : l.aux ≡ []
  some_job : positive l.job_count ≡ true
  may_run : l.can_run ≡ true

run_aux_empty : (l : Loop) → l.aux ≡ [] → run_aux l ≡ record l { aux = [] }
unfolding run_aux run_tasks
run_aux_empty l h = rw h refl

run_select-Hangs : (n : ℕ) (l : Loop) → Hangs l → (run_select (wakeups n) l).1 ≡ waiting
unfolding run_select steps
run_select-Hangs zero l h = refl
run_select-Hangs (suc n) l h =
    let l' : Loop = record l { aux = []; wakeup = false } in
    let next : Hangs l' = record { no_task = refl; some_job = h.some_job; may_run = h.may_run } in
    let e = run_aux_empty (record l { wakeup = false }) h.no_task in
    ground (arith, e, run_select-Hangs n l' next)

run-Hangs : (n : ℕ) (l : Loop) → Hangs l → (run (wakeups n) l).1 ≡ waiting
unfolding run
run-Hangs n l h =
    let next : Hangs (record l { aux = [] }) = record {
      no_task = refl;
      some_job = h.some_job;
      may_run = h.may_run;
    } in
    let e = run_aux_empty l h.no_task in
    rw e (
      rw h.some_job (
        left (run_select (wakeups n) (record l { aux = [] }))
          (run_select-Hangs n (record l { aux = [] }) next)))
  where
    left : (r : Loop × Exit) → r.1 ≡ waiting → (leave r).1 ≡ waiting
    left (l, waiting) h = refl
    left (l, idle) h = cc
    left (l, stopped) h = cc
    left (l, ended) h = cc

positive-inc : (n : ℕ) → positive (inc (pos n)) ≡ true
positive-inc n = refl

add_aux_job-terminated : (t : Task) (l : Loop) → l.terminated ≡ true → (add_aux_job t l).0 ≡ l
unfolding add_aux_job
add_aux_job-terminated t l h = ap {B = Loop} (λ b. (pick b).0) h
  where
    pick : Bool → Loop × Bool
    pick b = if b then (l, false) else (record l { aux = l.aux ++ (t ∷ []); wakeup = true }, true)

-- On a terminated loop that is not running, whose counter is exact and where nothing is queued: an
-- immediate that is set is not queued; the loop can be started again, and after any number of wakeups
-- whose callbacks do nothing its run has not returned but waits for another event.
pub set_immediate-terminated :
    (n : ℕ) (l : Loop)
    → Counted l
    → l.terminated ≡ true
    → l.running ≡ false
    → l.aux ≡ []
    → ((set_immediate l).aux ≡ [])
      × ((l' : Loop) × (set_running (set_immediate l) ≡ some l')
          × ((run (wakeups n) l').1 ≡ waiting))
unfolding set_immediate set_running
set_immediate-terminated n l c t s a =
    let j : Job = record {
      kind = immediate;
      cancelled = false;
      refed = true;
      idx = none;
      armed = false;
    } in
    let counted : Loop = record l { job_count = inc l.job_count; store = l.store ++ (j ∷ []) } in
    let at : set_immediate l ≡ counted =
      add_aux_job-terminated (do_immediate_task (length l.store)) counted t in
    rw at (
      a,
      (
        record counted { terminated = false; can_run = true; running = true },
        ap
            (λ b.
              if b
              then none
              else some (record counted { terminated = false; can_run = true; running = true }))
            s,
        run-Hangs n (record counted { terminated = false; can_run = true; running = true })
            (record { no_task = a; some_job = ap (λ z. positive (inc z)) c; may_run = refl }),
      ),
    )
