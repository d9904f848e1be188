-- ===== src/EventLoop/Alive.antt =====
-- Every timeout that is not cancelled stands in `jobs`, where `Terminate` finds it.
use goja_ext.Prelude.{
  ℕ, zero, suc, ◌+◌, ◌<◌, Bool, true, false, not, List, [], ◌∷◌, ◌++◌, Option, none, some, ◌==◌,
  if◌then◌else◌, length, get_elem?, set, ◌≡◌, refl, sym, ◌∙◌, arith, get_elem?-set, get_elem?-lt,
  Option-cases, inl, inr, Bool-cases, if_split, get_elem?-of_lt, ==_iff, get_elem?-append,
  length-append, ◌≢◌,
}
use goja_ext.EventLoop.{
  inc, dec, Kind, timeout, interval, immediate, Job, Task, start_timeout, start_interval, user,
  clear_timeout_task, clear_interval_task, do_timeout_task, do_interval_task, do_immediate_task,
  remove_task, Loop, add_aux_job, put_job, remove_job, cancel, do_timeout, do_immediate,
  clear_timeout, clear_interval, clear_immediate, schedule, set_immediate, set_job_ref, exec, Op,
  step, steps, js_timeout, js_interval, js_immediate, go_stop, run_task, js_clear_timeout,
  js_clear_interval, js_clear_immediate, js_ref, js_unref, go_add, timer_fires, ticker_ticks,
  worker_ends, bool_eq, run_first, fire, tick, end_worker,
}
use goja_ext.EventLoop.Count.{SameJobs, remove_job-SameJobs, on_job_split}
use goja_ext.EventLoop.Index.{
  idx_of, Agree, Indexed, Agree-ext, idx_of-set_same, remove_job-Removed,
}

-- A timeout that is not cancelled.
abbrev pub needs_index : Option Job → Bool
needs_index none = false
needs_index (some j) = at j.kind
  where
    at : Kind → Bool
    at immediate = false
    at timeout = not j.cancelled
    at interval = false

pub record Inv (l : Loop) : Type 0 where
  pub indexed : Indexed l
  pub alive : (m : ℕ) → needs_index (get_elem? l.store m) ≡ true → idx_of l.store m ≢ none

needs_index-SameJobs :
    {l l' : Loop} (m : ℕ)
    → SameJobs l l'
    → needs_index (get_elem? l'.store m) ≡ needs_index (get_elem? l.store m)
needs_index-SameJobs {l} {l'} m s = elim (Option-cases (get_elem? l.store m)) [
  | inr (j, e) ↦ let (x, f) = s.find m j e in rw (e, f) refl
  | inl e ↦ elim (Option-cases (get_elem? l'.store m)) [
    | inl f ↦ rw (e, f) refl
    | inr (j, f) ↦
        let (j', e') =
          get_elem?-of_lt l.store m (omega (arith, s.size, get_elem?-lt l'.store m f)) in
        cc
  ]
]

needs_index-set :
    (st : List Job) (i m : ℕ) (j : Job)
    → i < length st
    → needs_index (get_elem? (set st i j) m)
      ≡ (if i == m then needs_index (some j) else needs_index (get_elem? st m))
needs_index-set st i m j h = elim (Bool-cases (i == m)) [
  | inl p ↦ rw (get_elem?-set st i m j h, p) refl
  | inr p ↦ rw (get_elem?-set st i m j h, p) refl
]

-- The same, but perhaps for job `i`.
record InvBut (i : ℕ) (l : Loop) : Type 0 where
  indexed : Indexed l
  alive : (m : ℕ) → i ≢ m → needs_index (get_elem? l.store m) ≡ true → idx_of l.store m ≢ none

remove_job-InvBut :
    (i : ℕ) (j : Job) (l : Loop)
    → get_elem? l.store i ≡ some j
    → Inv l
    → InvBut i (remove_job i j l)
remove_job-InvBut i j l e h =
    let r = remove_job-Removed i j l h.indexed e in
    record {
      indexed = r.indexed;
      alive = λ m ne g n.
          h.alive m (sym (needs_index-SameJobs m (remove_job-SameJobs i j l)) ∙ g)
            ((r.others m ne).1 n);
    }

Inv-InvBut : (i : ℕ) (l : Loop) → Inv l → InvBut i l
Inv-InvBut i l h = record { indexed = h.indexed; alive = λ m ne. h.alive m }

-- A job that needs no index completes the invariant.
InvBut-Inv : (i : ℕ) (l : Loop) → InvBut i l → needs_index (get_elem? l.store i) ≡ false → Inv l
InvBut-Inv i l h c = record {
  indexed = h.indexed;
  alive = λ m g. elim (Bool-cases (i == m)) [
    | inl p ↦ ground (arith, (==_iff i m).0 p)
    | inr p ↦ h.alive m (λ q. ground arith) g
  ];
}

-- A write that keeps the index.
put_job-InvBut :
    (i : ℕ) (j j' : Job) (l : Loop)
    → get_elem? l.store i ≡ some j
    → j'.idx ≡ j.idx
    → InvBut i l
    → InvBut i (put_job i j' l)
put_job-InvBut i j j' l e k h = record {
  indexed =
      Agree-ext l.jobs (idx_of l.store) (idx_of (set l.store i j'))
        (λ m. idx_of-set_same l.store i m j j' e k) h.indexed;
  alive = λ m ne g n.
      h.alive m ne
        (sym (needs_index-set l.store i m j' (get_elem?-lt l.store i e) ∙ ground (arith, ne)) ∙ g)
        (sym (idx_of-set_same l.store i m j j' e k) ∙ n);
}

get_elem?-put_job :
    (i : ℕ) (j j' : Job) (l : Loop)
    → get_elem? l.store i ≡ some j
    → get_elem? (put_job i j' l).store i ≡ some j'
get_elem?-put_job i j j' l e =
    get_elem?-set l.store i i j' (get_elem?-lt l.store i e) ∙ ground arith

put_job-Inv :
    (i : ℕ) (j j' : Job) (l : Loop)
    → get_elem? l.store i ≡ some j
    → j'.idx ≡ j.idx
    → needs_index (some j') ≡ false
    → InvBut i l
    → Inv (put_job i j' l)
put_job-Inv i j j' l e k c h =
    InvBut-Inv i (put_job i j' l) (put_job-InvBut i j j' l e k h)
      (rw (get_elem?-put_job i j j' l e) c)

-- The same write, where the job needs an index after it only if it did before.
put_job-Inv_same :
    (i : ℕ) (j j' : Job) (l : Loop)
    → get_elem? l.store i ≡ some j
    → j'.idx ≡ j.idx
    → needs_index (some j') ≡ needs_index (some j)
    → Inv l
    → Inv (put_job i j' l)
put_job-Inv_same i j j' l e k c h = record {
  indexed = (put_job-InvBut i j j' l e k (Inv-InvBut i l h)).indexed;
  alive = λ m g n.
      h.alive m (sym (needs_index-set l.store i m j' (get_elem?-lt l.store i e) ∙ at m) ∙ g)
        (sym (idx_of-set_same l.store i m j j' e k) ∙ n);
}
  where
    at :
        (m : ℕ)
        → (if i == m then needs_index (some j') else needs_index (get_elem? l.store m))
          ≡ needs_index (get_elem? l.store m)
    at m = elim (Bool-cases (i == m)) [
      | inl p ↦ rw (p, ← (==_iff i m).0 p, e) c
      | inr p ↦ rw p refl
    ]

needs_index_cancelled : (j : Job) → j.cancelled ≡ true → needs_index (some j) ≡ false
needs_index_cancelled j h = ground arith

-- `cancel` keeps the fields that the invariant reads of all other jobs.
cancel-Inv :
    (i : ℕ) (j j' : Job) (l : Loop)
    → get_elem? l.store i ≡ some j'
    → j.idx ≡ j'.idx
    → InvBut i l
    → Inv (cancel i j l)
unfolding cancel
cancel-Inv i j j' l e k h =
    let r =
      put_job-Inv i j' (record j { cancelled = true }) l e k
        (needs_index_cancelled (record j { cancelled = true }) refl) h in
    record { indexed = r.indexed; alive = r.alive }

do_timeout-Inv :
    (i : ℕ) (j : Job) (l : Loop) → get_elem? l.store i ≡ some j → Inv l → Inv (do_timeout i j l)
unfolding do_timeout
do_timeout-Inv i j l e h =
    let b = remove_job-InvBut i j l e h in
    let (x, f) = (remove_job-SameJobs i j l).find i j e in
    let gone = (remove_job-Removed i j l h.indexed e).gone in
    if_split Inv (not j.cancelled) (cancel i (record j { idx = none }) (remove_job i j l))
      (remove_job i j l)
      (λ _.
        cancel-Inv i (record j { idx = none }) (record j { idx = x }) (remove_job i j l) f
          (sym (rw f at gone)) b)
      (λ c. InvBut-Inv i (remove_job i j l) b (rw f (ground arith)))

pub remove_cancelled-Inv :
    (i : ℕ) (j : Job) (l : Loop)
    → get_elem? l.store i ≡ some j
    → j.cancelled ≡ true
    → Inv l
    → Inv (remove_job i j l)
remove_cancelled-Inv i j l e c h =
    let (x, f) = (remove_job-SameJobs i j l).find i j e in
    InvBut-Inv i (remove_job i j l) (remove_job-InvBut i j l e h)
      (rw f (needs_index_cancelled (record j { idx = x }) c))

get_elem?-cancel :
    (i : ℕ) (j : Job) (l : Loop)
    → get_elem? l.store i ≡ some j
    → get_elem? (cancel i j l).store i ≡ some (record j { cancelled = true })
unfolding cancel
get_elem?-cancel i j l e = get_elem?-put_job i j (record j { cancelled = true }) l e

-- `cancelled = true` and the count, then the timer or the channel.
pub disarm-Inv :
    (i : ℕ) (j : Job) (l : Loop)
    → get_elem? l.store i ≡ some j
    → Inv l
    → Inv (put_job i (record j { cancelled = true; armed = false }) (cancel i j l))
disarm-Inv i j l e h =
    let j' = record j { cancelled = true; armed = false } in
    put_job-Inv i (record j { cancelled = true }) j' (cancel i j l) (get_elem?-cancel i j l e) refl
      (needs_index_cancelled j' refl)
      (Inv-InvBut i (cancel i j l) (cancel-Inv i j j l e refl (Inv-InvBut i l h)))

pub get_elem?-disarm :
    (i : ℕ) (j j' : Job) (l : Loop)
    → get_elem? l.store i ≡ some j
    → get_elem? (put_job i j' (cancel i j l)).store i ≡ some j'
get_elem?-disarm i j j' l e =
    get_elem?-put_job i (record j { cancelled = true }) j' (cancel i j l) (get_elem?-cancel i j l e)

clear_timeout-Inv :
    (i : ℕ) (j : Job) (l : Loop) → get_elem? l.store i ≡ some j → Inv l → Inv (clear_timeout i j l)
unfolding clear_timeout
clear_timeout-Inv i j l e h =
    let j' = record j { cancelled = true; armed = false } in
    let l' = put_job i j' (cancel i j l) in
    let d = disarm-Inv i j l e h in
    if_split Inv (not j.cancelled) (if j.armed then remove_job i j' l' else l') l
      (λ _.
        if_split Inv j.armed (remove_job i j' l') l'
          (λ _. remove_cancelled-Inv i j' l' (get_elem?-disarm i j j' l e) refl d) (λ _. d))
      (λ _. h)

clear_interval-Inv :
    (i : ℕ) (j : Job) (l : Loop) → get_elem? l.store i ≡ some j → Inv l → Inv (clear_interval i j l)
unfolding clear_interval
clear_interval-Inv i j l e h =
    let j' = record j { cancelled = true; armed = false } in
    let l' = put_job i j' (cancel i j l) in
    if_split Inv (not j.cancelled) (remove_job i j' l') l
      (λ _. remove_cancelled-Inv i j' l' (get_elem?-disarm i j j' l e) refl (disarm-Inv i j l e h))
      (λ _. h)

do_immediate-Inv :
    (i : ℕ) (j : Job) (l : Loop) → get_elem? l.store i ≡ some j → Inv l → Inv (do_immediate i j l)
unfolding do_immediate
do_immediate-Inv i j l e h =
    if_split Inv (not j.cancelled) (cancel i j l) l
      (λ _. cancel-Inv i j j l e refl (Inv-InvBut i l h)) (λ _. h)

clear_immediate-Inv :
    (i : ℕ) (j : Job) (l : Loop)
    → get_elem? l.store i ≡ some j
    → Inv l
    → Inv (clear_immediate i j l)
unfolding clear_immediate
clear_immediate-Inv i j l e h =
    if_split Inv (not j.cancelled) (cancel i j l) l
      (λ _. cancel-Inv i j j l e refl (Inv-InvBut i l h)) (λ _. h)

set_job_ref-Inv :
    (i : ℕ) (j : Job) (b : Bool) (l : Loop)
    → get_elem? l.store i ≡ some j
    → Inv l
    → Inv (set_job_ref i j b l)
unfolding set_job_ref
set_job_ref-Inv i j b l e h =
    let r = put_job-Inv_same i j (record j { refed = b }) l e refl refl h in
    let l' = record (put_job i (record j { refed = b }) l) {
      job_count = if b then inc l.job_count else dec l.job_count;
      wakeup = true;
    } in
    if_split Inv j.cancelled l (if bool_eq j.refed b then l else l') (λ _. h)
      (λ _.
        if_split Inv (bool_eq j.refed b) l l' (λ _. h)
          (λ _. record { indexed = r.indexed; alive = r.alive }))

add_aux_job-Inv : (t : Task) (l : Loop) → Inv l → Inv (add_aux_job t l).0
unfolding add_aux_job
add_aux_job-Inv t l h =
    if_split (λ (r : Loop × Bool). Inv r.0) l.terminated (l, false)
      (record l { aux = l.aux ++ (t ∷ []); wakeup = true }, true) (λ _. h)
      (λ _. record { indexed = h.indexed; alive = h.alive })

idx_of-snoc :
    (st : List Job) (j : Job) (m : ℕ)
    → idx_of (st ++ (j ∷ [])) m ≡ (if m == length st then j.idx else idx_of st m)
idx_of-snoc [] j zero = refl
idx_of-snoc [] j (suc m) = ground arith
idx_of-snoc (x ∷ st) j zero = ground arith
idx_of-snoc (x ∷ st) j (suc m) = idx_of-snoc st j m ∙ ground arith

needs_index-snoc :
    (st : List Job) (j : Job) (m : ℕ)
    → needs_index (get_elem? (st ++ (j ∷ [])) m)
      ≡ (if m == length st then needs_index (some j) else needs_index (get_elem? st m))
needs_index-snoc [] j zero = refl
needs_index-snoc [] j (suc m) = ground arith
needs_index-snoc (x ∷ st) j zero = ground arith
needs_index-snoc (x ∷ st) j (suc m) = needs_index-snoc st j m ∙ ground arith

idx_of_end : (st : List Job) (m k : ℕ) → idx_of st m ≡ some k → m < length st
idx_of_end st m k h = elim (Option-cases (get_elem? st m)) [
  | inl e ↦ ground arith
  | inr (j, e) ↦ get_elem?-lt st m e
]

Agree-snoc :
    (jobs : List ℕ) (st : List Job) (j : Job)
    → Agree jobs (idx_of st)
    → j.idx ≡ some (length jobs)
    → Agree (jobs ++ (length st ∷ [])) (idx_of (st ++ (j ∷ [])))
Agree-snoc jobs st j a e = record {
  holds = λ k i h. ground (
    arith,
    idx_of-snoc st j i,
    get_elem?-append jobs (length st ∷ []) k,
    at k i h,
    a.holds k i,
    idx_of_end st i k,
  );
  found = λ k i h. ground (
    arith,
    idx_of-snoc st j i,
    get_elem?-append jobs (length st ∷ []) k,
    a.found k i,
    get_elem?-lt jobs k {a = i},
  );
}
  where
    at : (k i : ℕ) → get_elem? (jobs ++ (length st ∷ [])) k ≡ some i → k < length jobs + 1
    at k i h =
        omega
          (arith, get_elem?-lt (jobs ++ (length st ∷ [])) k h, length-append jobs (length st ∷ []))

schedule-Inv : (k : Kind) (l : Loop) → Inv l → Inv (schedule k l)
unfolding schedule
schedule-Inv k l h =
    let j : Job = record {
      kind = k;
      cancelled = false;
      refed = true;
      idx = some (length l.jobs);
      armed = true;
    } in
    record {
      indexed = Agree-snoc l.jobs l.store j h.indexed refl;
      alive = λ m g n. elim (Bool-cases (m == length l.store)) [
        | inl p ↦ ground (arith, idx_of-snoc l.store j m)
        | inr p ↦
            h.alive m (ground (arith, needs_index-snoc l.store j m))
              (ground (arith, idx_of-snoc l.store j m))
      ];
    }

-- A new job with no index that needs none.
idx_of-snoc_none :
    (st : List Job) (j : Job) (m : ℕ) → j.idx ≡ none → idx_of (st ++ (j ∷ [])) m ≡ idx_of st m
idx_of-snoc_none [] j zero e = e
idx_of-snoc_none [] j (suc m) e = refl
idx_of-snoc_none (x ∷ st) j zero e = refl
idx_of-snoc_none (x ∷ st) j (suc m) e = idx_of-snoc_none st j m e

needs_index-snoc_none :
    (st : List Job) (j : Job) (m : ℕ)
    → needs_index (some j) ≡ false
    → needs_index (get_elem? (st ++ (j ∷ [])) m) ≡ needs_index (get_elem? st m)
needs_index-snoc_none [] j zero e = e
needs_index-snoc_none [] j (suc m) e = refl
needs_index-snoc_none (x ∷ st) j zero e = refl
needs_index-snoc_none (x ∷ st) j (suc m) e = needs_index-snoc_none st j m e

remove_interval-Inv :
    (i : ℕ) (j : Job) (l : Loop)
    → get_elem? l.store i ≡ some j
    → j.kind ≡ interval
    → Inv l
    → Inv (remove_job i j l)
remove_interval-Inv i j l e k h =
    let (x, f) = (remove_job-SameJobs i j l).find i j e in
    InvBut-Inv i (remove_job i j l) (remove_job-InvBut i j l e h) (rw f (ground arith))

set_immediate-Inv : (l : Loop) → Inv l → Inv (set_immediate l)
unfolding set_immediate
set_immediate-Inv l h =
    let j : Job = record {
      kind = immediate;
      cancelled = false;
      refed = true;
      idx = none;
      armed = false;
    } in
    let l' : Loop = record l { job_count = inc l.job_count; store = l.store ++ (j ∷ []) } in
    add_aux_job-Inv (do_immediate_task (length l.store)) l' (record {
      indexed =
          Agree-ext l.jobs (idx_of l.store) (idx_of l'.store)
            (λ m. idx_of-snoc_none l.store j m refl) h.indexed;
      alive = λ m g n.
          h.alive m (sym (needs_index-snoc_none l.store j m refl) ∙ g)
            (sym (idx_of-snoc_none l.store j m refl) ∙ n);
    })

pub exec-Inv : (t : Task) (l : Loop) → Inv l → Inv (exec t l)
unfolding exec
exec-Inv start_timeout l h = schedule-Inv timeout l h
exec-Inv start_interval l h = schedule-Inv interval l h
exec-Inv user l h = h
exec-Inv (clear_timeout_task i) l h =
    on_job_split Inv i timeout (clear_timeout i) l (λ j e _. clear_timeout-Inv i j l e h) h
exec-Inv (clear_interval_task i) l h =
    on_job_split Inv i interval (clear_interval i) l (λ j e _. clear_interval-Inv i j l e h) h
exec-Inv (do_timeout_task i) l h =
    on_job_split Inv i timeout (do_timeout i) l (λ j e _. do_timeout-Inv i j l e h) h
exec-Inv (do_interval_task i) l h = h
exec-Inv (do_immediate_task i) l h =
    on_job_split Inv i immediate (do_immediate i) l (λ j e _. do_immediate-Inv i j l e h) h
exec-Inv (remove_task i) l h =
    on_job_split Inv i interval (remove_job i) l (λ j e k. remove_interval-Inv i j l e k h) h

fire-Inv : (i : ℕ) (j : Job) (l : Loop) → get_elem? l.store i ≡ some j → Inv l → Inv (fire i j l)
fire-Inv i j l e h =
    let l' = put_job i (record j { armed = false }) l in
    if_split Inv j.armed (add_aux_job (do_timeout_task i) l').0 l
      (λ _.
        add_aux_job-Inv (do_timeout_task i) l'
          (put_job-Inv_same i j (record j { armed = false }) l e refl (ground arith) h))
      (λ _. h)

-- Every operation keeps the invariant.
pub step-Inv : (o : Op) (l : Loop) → Inv l → Inv (step o l)
unfolding step
step-Inv js_timeout l h = schedule-Inv timeout l h
step-Inv js_interval l h = schedule-Inv interval l h
step-Inv js_immediate l h = set_immediate-Inv l h
step-Inv go_stop l h =
    if_split Inv l.running (record l { can_run = false; wakeup = true }) l
      (λ _. record { indexed = h.indexed; alive = h.alive }) (λ _. h)
step-Inv run_task l h = first l.aux
  where
    first : (ts : List Task) → Inv (run_first ts l)
    first [] = h
    first (t ∷ ts) =
        exec-Inv t (record l { aux = ts }) (record { indexed = h.indexed; alive = h.alive })
step-Inv (js_clear_timeout i) l h =
    on_job_split Inv i timeout (clear_timeout i) l (λ j e _. clear_timeout-Inv i j l e h) h
step-Inv (js_clear_interval i) l h =
    on_job_split Inv i interval (clear_interval i) l (λ j e _. clear_interval-Inv i j l e h) h
step-Inv (js_clear_immediate i) l h =
    on_job_split Inv i immediate (clear_immediate i) l (λ j e _. clear_immediate-Inv i j l e h) h
step-Inv (js_ref i) l h = elim (Option-cases (get_elem? l.store i)) [
  | inl e ↦ rw e h
  | inr (j, e) ↦ rw e (set_job_ref-Inv i j true l e h)
]
step-Inv (js_unref i) l h = elim (Option-cases (get_elem? l.store i)) [
  | inl e ↦ rw e h
  | inr (j, e) ↦ rw e (set_job_ref-Inv i j false l e h)
]
step-Inv (go_add t) l h = add_aux_job-Inv t l h
step-Inv (timer_fires i) l h = on_job_split Inv i timeout (fire i) l (λ j e _. fire-Inv i j l e h) h
step-Inv (ticker_ticks i) l h =
    on_job_split Inv i interval (tick i) l
      (λ j e _.
        if_split Inv j.armed (add_aux_job (do_interval_task i) l).0 l
          (λ _. add_aux_job-Inv (do_interval_task i) l h) (λ _. h))
      h
step-Inv (worker_ends i) l h =
    on_job_split Inv i interval (end_worker i) l
      (λ j e _.
        if_split Inv j.armed l (add_aux_job (remove_task i) l).0 (λ _. h)
          (λ _. add_aux_job-Inv (remove_task i) l h))
      h

-- If `jobs[k]` is a job exactly if the job holds the index `k`, and every timeout that is not cancelled
-- stands in `jobs`, it is still so whatever is called and whatever fires, in any order.
pub steps-Inv : (os : List Op) (l : Loop) → Inv l → Inv (steps os l)
unfolding steps
steps-Inv [] l h = h
steps-Inv (o ∷ os) l h = steps-Inv os (step o l) (step-Inv o l h)
