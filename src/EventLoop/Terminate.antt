-- ===== src/EventLoop/Terminate.antt =====
-- `Terminate` cancels every timeout.
use goja_ext.Prelude.{
  ℕ, zero, suc, ◌+◌, ◌-◌, ◌<◌, ◌≤◌, Bool, true, false, List, [], ◌∷◌, Option, none, some, ◌==◌,
  ==_iff, ltb, length, get_elem?, set, ◌≡◌, refl, sym, ap, subst, ◌∙◌, arith, Bool-cases,
  Option-cases, inl, inr, get_elem?-set, get_elem?-lt, get_elem?-of_lt,
}
use goja_ext.EventLoop.{
  timeout, Job, Loop, Task, exec, put_job, cancel, run_tasks, run_aux, terminate_job, cancel_jobs,
  terminate,
}
use goja_ext.EventLoop.Count.{
  SameJobs, remove_job-SameJobs, Counted, SameJobs-Counted, disarm-Counted,
}
use goja_ext.EventLoop.Index.{idx_of, remove_job-jobs}
use goja_ext.EventLoop.Alive.{Inv, exec-Inv, disarm-Inv, get_elem?-disarm, remove_cancelled-Inv}
use goja_ext.EventLoop.Run.{run_aux-Counted}

run_tasks-Inv : (ts : List Task) (l : Loop) → Inv l → Inv (run_tasks ts l)
unfolding run_tasks
run_tasks-Inv [] l h = h
run_tasks-Inv (t ∷ ts) l h = run_tasks-Inv ts (exec t l) (exec-Inv t l h)

run_aux-Inv : (l : Loop) → Inv l → Inv (run_aux l)
unfolding run_aux
run_aux-Inv l h =
    run_tasks-Inv l.aux (record l { aux = [] }) (record { indexed = h.indexed; alive = h.alive })

abbrev is_cancelled : Option Job → Bool
is_cancelled none = false
is_cancelled (some j) = j.cancelled

-- The jobs before position `i` are cancelled.
abbrev Done : ℕ → Loop → Type 0
Done i l =
    (k id : ℕ) → k < i → get_elem? l.jobs k ≡ some id → is_cancelled (get_elem? l.store id) ≡ true

is_cancelled-SameJobs :
    {l l' : Loop} (m : ℕ)
    → SameJobs l l'
    → is_cancelled (get_elem? l.store m) ≡ true
    → is_cancelled (get_elem? l'.store m) ≡ true
is_cancelled-SameJobs {l} {l'} m s h = elim (Option-cases (get_elem? l.store m)) [
  | inl e ↦ ground arith
  | inr (j, e) ↦ let (x, f) = s.find m j e in rw f (rw e at h)
]

is_cancelled-set :
    (st : List Job) (i m : ℕ) (j : Job)
    → i < length st
    → j.cancelled ≡ true
    → is_cancelled (get_elem? st m) ≡ true
    → is_cancelled (get_elem? (set st i j) m) ≡ true
is_cancelled-set st i m j lt c h = ground (arith, get_elem?-set st i m j lt)

is_cancelled-disarm :
    (i m : ℕ) (j j' : Job) (l : Loop)
    → get_elem? l.store i ≡ some j
    → j'.cancelled ≡ true
    → is_cancelled (get_elem? l.store m) ≡ true
    → is_cancelled (get_elem? (put_job i j' (cancel i j l)).store m) ≡ true
unfolding cancel
is_cancelled-disarm i m j j' l e c h =
    let j₁ = record j { cancelled = true } in
    let f : get_elem? (set l.store i j₁) i ≡ some j₁ =
      get_elem?-set l.store i i j₁ (get_elem?-lt l.store i e) ∙ ground arith in
    is_cancelled-set (set l.store i j₁) i m j' (get_elem?-lt (set l.store i j₁) i f) c
      (is_cancelled-set l.store i m j₁ (get_elem?-lt l.store i e) refl h)

-- One round on a job that is not cancelled.
record Step (i : ℕ) (l l' : Loop) : Type 0 where
  inv : Inv l'
  counted : Counted l'
  prefix : Done i l'
  shorter : length l'.jobs ≡ length l.jobs - 1

disarm_jobs : (i : ℕ) (j j' : Job) (l : Loop) → (put_job i j' (cancel i j l)).jobs ≡ l.jobs
unfolding cancel
disarm_jobs i j j' l = refl

terminate_job-Step :
    (i id : ℕ) (j : Job) (l : Loop)
    → Inv l
    → Counted l
    → Done i l
    → get_elem? l.jobs i ≡ some id
    → get_elem? l.store id ≡ some j
    → j.cancelled ≡ false
    → Step i l (terminate_job id j l)
unfolding terminate_job
terminate_job-Step i id j l h c d e f n =
    let j' = record j { cancelled = true; armed = false } in
    let l₁ = put_job id j' (cancel id j l) in
    let f₁ = get_elem?-disarm id j j' l f in
    let at : j.idx ≡ some i = rw f at (h.indexed.holds i id e) in
    let js = disarm_jobs id j j' l in
    let lt : i < length l₁.jobs = omega (arith, ap length js, get_elem?-lt l.jobs i e) in
    let r = remove_job-jobs id i j' l₁ at lt in
    record {
      inv = remove_cancelled-Inv id j' l₁ f₁ refl (disarm-Inv id j l f h);
      counted = SameJobs-Counted (remove_job-SameJobs id j' l₁) (disarm-Counted id j l f n c);
      prefix = λ k m lt' g. is_cancelled-SameJobs m (remove_job-SameJobs id j' l₁) (
          is_cancelled-disarm id m j j' l f refl
            (d k m lt' (sym (r.0 k lt' ∙ ap (λ ys. get_elem? ys k) js) ∙ g)));
      shorter = r.1 ∙ ap (λ ys. length ys - 1) js;
    }

-- The whole loop: with fuel for each job that is left, it ends with every timeout cancelled.
record Ends (o : Option Loop) : Type 0 where
  last : Loop
  ends : o ≡ some last
  inv : Inv last
  counted : Counted last
  all : Done (length last.jobs) last

module _ (fuel i id : ℕ) (j : Job) (l : Loop) where
  cancel_jobs-past :
      i < length l.jobs
      → get_elem? l.jobs i ≡ some id
      → get_elem? l.store id ≡ some j
      → j.cancelled ≡ true
      → cancel_jobs (suc fuel) i l ≡ cancel_jobs fuel (i + 1) l
  unfolding cancel_jobs
  cancel_jobs-past lt e f c = ground arith

  cancel_jobs-job :
      i < length l.jobs
      → get_elem? l.jobs i ≡ some id
      → get_elem? l.store id ≡ some j
      → j.cancelled ≡ false
      → cancel_jobs (suc fuel) i l ≡ cancel_jobs fuel i (terminate_job id j l)
  unfolding cancel_jobs
  cancel_jobs-job lt e f c = ground arith

cancel_jobs-end : (fuel i : ℕ) (l : Loop) → length l.jobs ≤ i → cancel_jobs (suc fuel) i l ≡ some l
unfolding cancel_jobs
cancel_jobs-end fuel i l le = ground arith

-- Job `id`, whose place is `k`, is there.
job_there :
    (k id : ℕ) (l : Loop) → idx_of l.store id ≡ some k → (j : Job) × (get_elem? l.store id ≡ some j)
job_there k id l h = elim (Option-cases (get_elem? l.store id)) [
  | inl e ↦ absurd (ground arith)
  | inr r ↦ r
]

Done-next :
    (i id : ℕ) (j : Job) (l : Loop)
    → Done i l
    → get_elem? l.jobs i ≡ some id
    → get_elem? l.store id ≡ some j
    → j.cancelled ≡ true
    → Done (i + 1) l
Done-next i id j l d e f c k m lt g = elim (Bool-cases (k == i)) [
  | inl p ↦ ground (arith, (==_iff k i).0 p)
  | inr p ↦ d k m (ground arith) g
]

cancel_jobs-Ends :
    (fuel i : ℕ) (l : Loop)
    → Inv l
    → Counted l
    → Done i l
    → length l.jobs < fuel + i
    → i ≤ length l.jobs
    → Ends (cancel_jobs fuel i l)
cancel_jobs-Ends zero i l h c d m le = absurd (omega arith)
cancel_jobs-Ends (suc fuel) i l h c d m le = elim (Bool-cases (ltb i (length l.jobs))) [
  | inr p ↦ rw (cancel_jobs-end fuel i l (ground arith)) (record {
    last = l;
    ends = refl;
    inv = h;
    counted = c;
    all = λ k id lt g. d k id (ground arith) g;
  })
  | inl p ↦
      let lt : i < length l.jobs = ground arith in
      let (id, e) = get_elem?-of_lt l.jobs i lt in
      let (j, f) = job_there i id l (h.indexed.holds i id e) in
      elim (Bool-cases j.cancelled) [
        | inl n ↦ subst Ends (sym (cancel_jobs-past fuel i id j l lt e f n)) (
            cancel_jobs-Ends fuel (i + 1) l h c (Done-next i id j l d e f n) (omega arith)
              (omega arith))
        | inr n ↦
            let s = terminate_job-Step i id j l h c d e f n in
            subst Ends (sym (cancel_jobs-job fuel i id j l lt e f n)) (
              cancel_jobs-Ends fuel i (terminate_job id j l) s.inv s.counted s.prefix
                (omega (arith, s.shorter)) (omega (arith, s.shorter)))
      ]
]

-- A timeout that is not cancelled would stand in `jobs`.
timeout_cancelled :
    (m : ℕ) (j : Job) (l : Loop)
    → Inv l
    → Done (length l.jobs) l
    → get_elem? l.store m ≡ some j
    → j.kind ≡ timeout
    → j.cancelled ≡ true
timeout_cancelled m j l h d e t = elim (Bool-cases j.cancelled) [
  | inl c ↦ c
  | inr c ↦ elim (Option-cases j.idx) [
    | inl n ↦ absurd (h.alive m (rw e (ground arith)) (rw e n))
    | inr (k, n) ↦
        let g = h.indexed.found k m (rw e n) in rw e at (d k m (get_elem?-lt l.jobs k g) g)
  ]
]

-- On a loop whose counter is exact and whose slice and indices agree, with more fuel than there are jobs
-- in the slice after the first queued tasks: `Terminate` ends, and then every timeout is cancelled, the
-- counter is still exact, and the slice and the indices agree.
pub terminate_cancels :
    (fuel : ℕ) (l : Loop)
    → Inv l
    → Counted l
    → length (run_aux (record l { terminated = true })).jobs < fuel
    → (l' : Loop) × (terminate fuel l ≡ some l')
      × Inv l'
      × Counted l'
      × ((m : ℕ) (j : Job) → get_elem? l'.store m ≡ some j → j.kind ≡ timeout → j.cancelled ≡ true)
unfolding terminate
terminate_cancels fuel l h c m =
    let l₀ = run_aux (record l { terminated = true }) in
    let r =
      cancel_jobs-Ends fuel 0 l₀
        (run_aux-Inv (record l { terminated = true })
          (record { indexed = h.indexed; alive = h.alive }))
        (run_aux-Counted (record l { terminated = true }) c) (λ k id lt. elim lt [ ]) (omega arith)
        (omega arith) in
    (r.last, r.ends, r.inv, r.counted, λ k j e t. timeout_cancelled k j r.last r.inv r.all e t)
