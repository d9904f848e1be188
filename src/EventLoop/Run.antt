-- ===== src/EventLoop/Run.antt =====
-- When `Run` returns.
use goja_ext.Prelude.{
  ℕ, zero, suc, false, List, [], ◌∷◌, if◌then◌else◌, ◌≡◌, refl, ap, ◌∙◌, arith, Bool-cases, inl,
  inr, if_split, pos,
}
use goja_ext.EventLoop.{
  Loop, Task, exec, step, steps, run_tasks, run_aux, Event, outside, woken, done, Exit, idle,
  stopped, ended, waiting, positive, run_select, run, leave,
}
use goja_ext.EventLoop.Count.{Counted, live_count, exec-Counted, step-Counted, steps-Counted}

run_tasks-Counted : (ts : List Task) (l : Loop) → Counted l → Counted (run_tasks ts l)
unfolding run_tasks
run_tasks-Counted [] l h = h
run_tasks-Counted (t ∷ ts) l h = run_tasks-Counted ts (exec t l) (exec-Counted t l h)

pub run_aux-Counted : (l : Loop) → Counted l → Counted (run_aux l)
unfolding run_aux
run_aux-Counted l h = run_tasks-Counted l.aux (record l { aux = [] }) h

not_positive : (l : Loop) → Counted l → positive l.job_count ≡ false → live_count l.store ≡ 0
not_positive l h p = elim (Bool-cases (positive l.job_count)) [
  | inl e ↦ cc
  | inr e ↦ at (live_count l.store) (rw h at p)
]
  where
    at : (n : ℕ) → positive (pos n) ≡ false → n ≡ 0
    at zero q = refl
    at (suc n) q = cc

run_select-idle :
    (es : List Event) (l : Loop)
    → Counted l
    → (run_select es l).1 ≡ idle
    → live_count (run_select es l).0.store ≡ 0
unfolding run_select
run_select-idle [] l h e = cc
run_select-idle (outside o ∷ es) l h e = run_select-idle es (step o l) (step-Counted o l h) e
run_select-idle (done ∷ es) l h e = cc
run_select-idle (woken os ∷ es) l h e =
    let l' = steps os (run_aux (record l { wakeup = false })) in
    let c =
      steps-Counted os (run_aux (record l { wakeup = false }))
        (run_aux-Counted (record l { wakeup = false }) h) in
    ground (arith, run_select-idle es l' c, not_positive l' c)

leave-idle :
    (r : Loop × Exit)
    → (leave r).1 ≡ idle
    → (r.1 ≡ idle) × ((leave r).0 ≡ record r.0 { running = false })
leave-idle (l, idle) h = (refl, refl)
leave-idle (l, stopped) h = cc
leave-idle (l, ended) h = cc
leave-idle (l, waiting) h = cc

entered-idle :
    (es : List Event) (l : Loop)
    → Counted l
    → (if positive l.job_count then run_select es l else (l, idle)).1 ≡ idle
    → live_count (if positive l.job_count then run_select es l else (l, idle)).0.store ≡ 0
entered-idle es l h =
    if_split (λ (r : Loop × Exit). r.1 ≡ idle → live_count r.0.store ≡ 0) (positive l.job_count)
      (run_select es l) (l, idle) (λ _ e. run_select-idle es l h e) (λ p _. not_positive l h p)

entered-left :
    (es : List Event) (l : Loop)
    → (run es l).1 ≡ idle
    → ((if positive (run_aux l).job_count then run_select es (run_aux l) else (run_aux l, idle)).1
        ≡ idle)
      × ((run es l).0
          ≡ record (if positive (run_aux l).job_count
              then run_select es (run_aux l)
              else (run_aux l, idle)).0 { running = false })
unfolding run
entered-left es l e =
    leave-idle
      (if positive (run_aux l).job_count then run_select es (run_aux l) else (run_aux l, idle)) e

-- On a loop whose counter is exact, `Run` comes back by itself only when no job is left that is
-- referenced and not cancelled, whatever happens meanwhile.
pub run_idle :
    (es : List Event) (l : Loop)
    → Counted l
    → (run es l).1 ≡ idle
    → live_count (run es l).0.store ≡ 0
run_idle es l h e =
    let (i, same) = entered-left es l e in
    ap (λ (l' : Loop). live_count l'.store) same
    ∙ entered-idle es (run_aux l) (run_aux-Counted l h) i

-- On a loop whose counter is exact, `Run` comes back at once, no longer running, if the first round of
-- queued tasks leaves no job that is referenced and not cancelled.
pub run_at_once :
    (es : List Event) (l : Loop)
    → Counted l
    → live_count (run_aux l).store ≡ 0
    → run es l ≡ (record (run_aux l) { running = false }, idle)
unfolding run
run_at_once es l h e =
    let p : positive (run_aux l).job_count ≡ false =
      ap positive (run_aux-Counted l h) ∙ ap (λ n. positive (pos n)) e in
    ap (λ b. leave (if b then run_select es (run_aux l) else (run_aux l, idle))) p
