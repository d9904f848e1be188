-- ===== src/EventLoop/Count.antt =====
-- `jobCount` is the number of jobs that are referenced and not cancelled.
use goja_ext.Prelude.{
  ℕ, zero, suc, ◌+◌, ◌-◌, Bool, true, false, ◌&&◌, not, List, [], ◌∷◌, ◌++◌, Option, none, some,
  ◌==◌, ltb, if◌then◌else◌, length, get_elem?, set, init, ◌≡◌, refl, sym, ap, ◌∙◌, arith,
  get_elem?-set, get_elem?-lt, length-set, Option-cases, inl, inr, Bool-cases, if_split,
  false_of_not, pos,
}
use goja_ext.EventLoop.{
  Kind, timeout, interval, immediate, Job, Task, start_timeout, start_interval, user,
  clear_timeout_task, clear_interval_task, do_timeout_task, do_interval_task, do_immediate_task,
  remove_task, Loop, add_aux_job, put_job, set_idx, move_last, remove_at, remove_if, remove_job,
  cancel, do_timeout, do_immediate, clear_timeout, clear_interval, clear_immediate, schedule,
  set_immediate, set_job_ref, on_job, on_kind, exec, Op, step, steps, js_timeout, js_interval,
  js_immediate, go_stop, run_task, js_clear_timeout, js_clear_interval, js_clear_immediate, js_ref,
  js_unref, go_add, timer_fires, ticker_ticks, worker_ends, run_first, fire, tick, end_worker,
}

-- A job that keeps the loop running.
abbrev pub is_live : Job → Bool
is_live j = j.refed && not j.cancelled

abbrev pub live_count : List Job → ℕ
live_count [] = 0
live_count (j ∷ js) = if is_live j then suc (live_count js) else live_count js

abbrev one_if : Bool → ℕ
one_if b = if b then 1 else 0

live_count-set :
    (st : List Job) (i : ℕ) (j j' : Job)
    → get_elem? st i ≡ some j
    → live_count (set st i j') + one_if (is_live j) ≡ live_count st + one_if (is_live j')
live_count-set [] i j j' h = cc
live_count-set (x ∷ st) zero j j' h = ground arith
live_count-set (x ∷ st) (suc i) j j' h = ground (arith, live_count-set st i j j' h)

live_count-snoc :
    (st : List Job) (j : Job) → live_count (st ++ (j ∷ [])) ≡ live_count st + one_if (is_live j)
live_count-snoc [] j = ground arith
live_count-snoc (x ∷ st) j = ground (arith, live_count-snoc st j)

-- The loop `l'` has the jobs of `l`, with other indices.
pub record SameJobs (l l' : Loop) : Type 0 where
  pub live : live_count l'.store ≡ live_count l.store
  pub count : l'.job_count ≡ l.job_count
  pub size : length l'.store ≡ length l.store
  pub find :
      (m : ℕ) (j : Job)
      → get_elem? l.store m ≡ some j
      → (x : Option ℕ) × (get_elem? l'.store m ≡ some (record j { idx = x }))

pub SameJobs-trans : {l m n : Loop} → SameJobs l m → SameJobs m n → SameJobs l n
SameJobs-trans {l} {m} {n} p q = record {
  live = q.live ∙ p.live;
  count = q.count ∙ p.count;
  size = q.size ∙ p.size;
  find = λ k j h.
      let (x, e) = p.find k j h in let (y, f) = q.find k (record j { idx = x }) e in (y, f);
}

find-set_idx :
    (st : List Job) (i m : ℕ) (k : Option ℕ) (j j' : Job)
    → get_elem? st i ≡ some j
    → get_elem? st m ≡ some j'
    → (x : Option ℕ) × (get_elem? (set st i (record j { idx = k })) m
        ≡ some (record j' { idx = x }))
find-set_idx st i m k j j' e h = elim (Bool-cases (i == m)) [
  | inl p ↦ (k, ground (arith, get_elem?-set st i m (record j { idx = k }) (get_elem?-lt st i e)))
  | inr p ↦
      (j'.idx, ground (arith, get_elem?-set st i m (record j { idx = k }) (get_elem?-lt st i e)))
]

set_idx-SameJobs :
    (k : Option ℕ) (i : ℕ) (l : Loop) → SameJobs l (set_idx k (get_elem? l.store i) i l)
set_idx-SameJobs k i l = elim (Option-cases (get_elem? l.store i)) [
  | inl e ↦ rw e (record { live = refl; count = refl; size = refl; find = λ m j h. (j.idx, h) })
  | inr (j, e) ↦ rw e (record {
    live = ground (arith, live_count-set l.store i j (record j { idx = k }) e);
    count = refl;
    size = length-set l.store i (record j { idx = k });
    find = λ m j' h. find-set_idx l.store i m k j j' e h;
  })
]

move_last-SameJobs : (k : ℕ) (o : Option ℕ) (l : Loop) → SameJobs l (move_last k o l)
move_last-SameJobs k none l = record {
  live = refl;
  count = refl;
  size = refl;
  find = λ m j h. (j.idx, h);
}
move_last-SameJobs k (some last) l =
    let s = set_idx-SameJobs (some k) last (record l { jobs = set l.jobs k last }) in
    record { live = s.live; count = s.count; size = s.size; find = s.find }

-- `removeJob` changes nothing of a job but its index.
pub remove_at-SameJobs : (i k : ℕ) (l : Loop) → SameJobs l (remove_at i k l)
unfolding remove_at
remove_at-SameJobs i k l = elim (Bool-cases (ltb k (length l.jobs - 1))) [
  | inl p ↦ rw p (
      let moved = move_last k (get_elem? l.jobs (length l.jobs - 1)) l in
      let s = set_idx-SameJobs none i (record moved { jobs = init moved.jobs }) in
      SameJobs-trans (move_last-SameJobs k (get_elem? l.jobs (length l.jobs - 1)) l)
        (record { live = s.live; count = s.count; size = s.size; find = s.find }))
  | inr p ↦ rw p (
      let s = set_idx-SameJobs none i (record l { jobs = init l.jobs }) in
      record { live = s.live; count = s.count; size = s.size; find = s.find })
]

pub remove_job-SameJobs : (i : ℕ) (j : Job) (l : Loop) → SameJobs l (remove_job i j l)
unfolding remove_job
remove_job-SameJobs i j l = at j.idx
  where
    at : (x : Option ℕ) → SameJobs l (remove_if i x l)
    at none = record { live = refl; count = refl; size = refl; find = λ m j h. (j.idx, h) }
    at (some k) = remove_at-SameJobs i k l

-- The counter is exact, also when no job is left.
abbrev pub Counted : Loop → Type 0
Counted l = l.job_count ≡ pos (live_count l.store)

pub SameJobs-Counted : {l l' : Loop} → SameJobs l l' → Counted l → Counted l'
SameJobs-Counted s h = s.count ∙ h ∙ ap pos (sym s.live)

-- The stored job and the one that `cancel` is given may differ in their indices.
cancel-Counted :
    (i : ℕ) (j : Job) (x : Option ℕ) (l : Loop)
    → get_elem? l.store i ≡ some (record j { idx = x })
    → j.cancelled ≡ false
    → Counted l
    → Counted (cancel i j l)
unfolding cancel
cancel-Counted i j x l e c h =
    ground
      (arith, live_count-set l.store i (record j { idx = x }) (record j { cancelled = true }) e)

-- A write that keeps whether the job is live.
put_job-Counted :
    (i : ℕ) (j j' : Job) (l : Loop)
    → get_elem? l.store i ≡ some j
    → is_live j ≡ is_live j'
    → Counted l
    → Counted (put_job i j' l)
put_job-Counted i j j' l e c h = ground (arith, live_count-set l.store i j j' e)

do_timeout-Counted :
    (i : ℕ) (j : Job) (l : Loop)
    → get_elem? l.store i ≡ some j
    → Counted l
    → Counted (do_timeout i j l)
unfolding do_timeout
do_timeout-Counted i j l e h =
    let s = remove_job-SameJobs i j l in
    let (x, f) = s.find i j e in
    let h' = SameJobs-Counted s h in
    elim (Bool-cases j.cancelled) [
      | inl c ↦ rw c h'
      | inr c ↦ rw c (cancel-Counted i (record j { idx = none }) x (remove_job i j l) f c h')
    ]

do_immediate-Counted :
    (i : ℕ) (j : Job) (l : Loop)
    → get_elem? l.store i ≡ some j
    → Counted l
    → Counted (do_immediate i j l)
unfolding do_immediate
do_immediate-Counted i j l e h = ground (arith, cancel-Counted i j j.idx l e)

clear_immediate-Counted :
    (i : ℕ) (j : Job) (l : Loop)
    → get_elem? l.store i ≡ some j
    → Counted l
    → Counted (clear_immediate i j l)
unfolding clear_immediate
clear_immediate-Counted i j l e h = ground (arith, cancel-Counted i j j.idx l e)

-- What `clearTimeout` and `clearInterval` do before `removeJob`.
pub disarm-Counted :
    (i : ℕ) (j : Job) (l : Loop)
    → get_elem? l.store i ≡ some j
    → j.cancelled ≡ false
    → Counted l
    → Counted (put_job i (record j { cancelled = true; armed = false }) (cancel i j l))
unfolding cancel
disarm-Counted i j l e c h = ground (
  arith,
  live_count-set l.store i j (record j { cancelled = true }) e,
  get_elem?-set l.store i i (record j { cancelled = true }) (get_elem?-lt l.store i e),
  live_count-set (set l.store i (record j { cancelled = true })) i (record j { cancelled = true })
      (record j { cancelled = true; armed = false }),
)

clear_timeout-Counted :
    (i : ℕ) (j : Job) (l : Loop)
    → get_elem? l.store i ≡ some j
    → Counted l
    → Counted (clear_timeout i j l)
unfolding clear_timeout
clear_timeout-Counted i j l e h =
    let j' = record j { cancelled = true; armed = false } in
    let l' = put_job i j' (cancel i j l) in
    if_split Counted (not j.cancelled) (if j.armed then remove_job i j' l' else l') l
      (λ c.
        let d = disarm-Counted i j l e (false_of_not j.cancelled c) h in
        if_split Counted j.armed (remove_job i j' l') l'
          (λ _. SameJobs-Counted (remove_job-SameJobs i j' l') d) (λ _. d))
      (λ _. h)

clear_interval-Counted :
    (i : ℕ) (j : Job) (l : Loop)
    → get_elem? l.store i ≡ some j
    → Counted l
    → Counted (clear_interval i j l)
unfolding clear_interval
clear_interval-Counted i j l e h =
    let j' = record j { cancelled = true; armed = false } in
    let l' = put_job i j' (cancel i j l) in
    if_split Counted (not j.cancelled) (remove_job i j' l') l
      (λ c.
        SameJobs-Counted (remove_job-SameJobs i j' l')
          (disarm-Counted i j l e (false_of_not j.cancelled c) h))
      (λ _. h)

pub schedule-Counted : (k : Kind) (l : Loop) → Counted l → Counted (schedule k l)
unfolding schedule
schedule-Counted k l h = ground (
  arith,
  live_count-snoc l.store (record {
    kind = k;
    cancelled = false;
    refed = true;
    idx = some (length l.jobs);
    armed = true;
  }),
)

pub add_aux_job-Counted : (t : Task) (l : Loop) → Counted l → Counted (add_aux_job t l).0
unfolding add_aux_job
add_aux_job-Counted t l h = ground arith

set_immediate-Counted : (l : Loop) → Counted l → Counted (set_immediate l)
unfolding set_immediate
set_immediate-Counted l h = ground (
  arith,
  live_count-snoc l.store
      (record { kind = immediate; cancelled = false; refed = true; idx = none; armed = false }),
)

set_job_ref-Counted :
    (i : ℕ) (j : Job) (b : Bool) (l : Loop)
    → get_elem? l.store i ≡ some j
    → Counted l
    → Counted (set_job_ref i j b l)
unfolding set_job_ref
set_job_ref-Counted i j b l e h =
    ground (arith, live_count-set l.store i j (record j { refed = b }) e)

-- A fact about an operation on a job, or on no job.
pub on_job_split :
    (P : Loop → Type 0) (i : ℕ) (k : Kind) (f : Job → Loop → Loop) (l : Loop)
    → ((j : Job) → get_elem? l.store i ≡ some j → j.kind ≡ k → P (f j l))
    → P l
    → P (on_job (get_elem? l.store i) k f l)
on_job_split P i k f l r h = elim (Option-cases (get_elem? l.store i)) [
  | inl e ↦ rw e h
  | inr (j, e) ↦ rw e (at (f j l) k j.kind (r j e))
]
  where
    at : (l' : Loop) (a b : Kind) → (b ≡ a → P l') → P (on_kind a b l l')
    at l' timeout timeout x = x refl
    at l' interval interval x = x refl
    at l' immediate immediate x = x refl
    at l' timeout interval x = h
    at l' timeout immediate x = h
    at l' interval timeout x = h
    at l' interval immediate x = h
    at l' immediate timeout x = h
    at l' immediate interval x = h

pub exec-Counted : (t : Task) (l : Loop) → Counted l → Counted (exec t l)
unfolding exec
exec-Counted start_timeout l h = schedule-Counted timeout l h
exec-Counted start_interval l h = schedule-Counted interval l h
exec-Counted user l h = h
exec-Counted (clear_timeout_task i) l h =
    on_job_split Counted i timeout (clear_timeout i) l (λ j e _. clear_timeout-Counted i j l e h) h
exec-Counted (clear_interval_task i) l h =
    on_job_split Counted i interval (clear_interval i) l (λ j e _. clear_interval-Counted i j l e h)
      h
exec-Counted (do_timeout_task i) l h =
    on_job_split Counted i timeout (do_timeout i) l (λ j e _. do_timeout-Counted i j l e h) h
exec-Counted (do_interval_task i) l h = h
exec-Counted (do_immediate_task i) l h =
    on_job_split Counted i immediate (do_immediate i) l (λ j e _. do_immediate-Counted i j l e h) h
exec-Counted (remove_task i) l h =
    on_job_split Counted i interval (remove_job i) l
      (λ j e _. SameJobs-Counted (remove_job-SameJobs i j l) h) h

fire-Counted :
    (i : ℕ) (j : Job) (l : Loop) → get_elem? l.store i ≡ some j → Counted l → Counted (fire i j l)
fire-Counted i j l e h =
    let l' = put_job i (record j { armed = false }) l in
    if_split Counted j.armed (add_aux_job (do_timeout_task i) l').0 l
      (λ _.
        add_aux_job-Counted (do_timeout_task i) l'
          (put_job-Counted i j (record j { armed = false }) l e refl h))
      (λ _. h)

-- Every operation keeps the counter exact.
pub step-Counted : (o : Op) (l : Loop) → Counted l → Counted (step o l)
unfolding step
step-Counted js_timeout l h = schedule-Counted timeout l h
step-Counted js_interval l h = schedule-Counted interval l h
step-Counted js_immediate l h = set_immediate-Counted l h
step-Counted go_stop l h =
    if_split Counted l.running (record l { can_run = false; wakeup = true }) l (λ _. h) (λ _. h)
step-Counted run_task l h = first l.aux
  where
    first : (ts : List Task) → Counted (run_first ts l)
    first [] = h
    first (t ∷ ts) = exec-Counted t (record l { aux = ts }) h
step-Counted (js_clear_timeout i) l h =
    on_job_split Counted i timeout (clear_timeout i) l (λ j e _. clear_timeout-Counted i j l e h) h
step-Counted (js_clear_interval i) l h =
    on_job_split Counted i interval (clear_interval i) l (λ j e _. clear_interval-Counted i j l e h)
      h
step-Counted (js_clear_immediate i) l h =
    on_job_split Counted i immediate (clear_immediate i) l
      (λ j e _. clear_immediate-Counted i j l e h) h
step-Counted (js_ref i) l h = elim (Option-cases (get_elem? l.store i)) [
  | inl e ↦ rw e h
  | inr (j, e) ↦ rw e (set_job_ref-Counted i j true l e h)
]
step-Counted (js_unref i) l h = elim (Option-cases (get_elem? l.store i)) [
  | inl e ↦ rw e h
  | inr (j, e) ↦ rw e (set_job_ref-Counted i j false l e h)
]
step-Counted (go_add t) l h = add_aux_job-Counted t l h
step-Counted (timer_fires i) l h =
    on_job_split Counted i timeout (fire i) l (λ j e _. fire-Counted i j l e h) h
step-Counted (ticker_ticks i) l h =
    on_job_split Counted i interval (tick i) l
      (λ j e _.
        if_split Counted j.armed (add_aux_job (do_interval_task i) l).0 l
          (λ _. add_aux_job-Counted (do_interval_task i) l h) (λ _. h))
      h
step-Counted (worker_ends i) l h =
    on_job_split Counted i interval (end_worker i) l
      (λ j e _.
        if_split Counted j.armed l (add_aux_job (remove_task i) l).0 (λ _. h)
          (λ _. add_aux_job-Counted (remove_task i) l h))
      h

-- If the counter that decides whether the loop goes on is the number of jobs that are referenced and not
-- cancelled, it still is whatever is called and whatever fires, in any order.
pub steps-Counted : (os : List Op) (l : Loop) → Counted l → Counted (steps os l)
unfolding steps
steps-Counted [] l h = h
steps-Counted (o ∷ os) l h = steps-Counted os (step o l) (step-Counted o l h)
