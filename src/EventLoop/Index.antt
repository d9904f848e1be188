-- ===== src/EventLoop/Index.antt =====
-- The slice `jobs` and the indices in the jobs agree, so that `removeJob` takes out the job that it
-- is given and no other.
use goja_ext.Prelude.{
  ℕ, ◌+◌, ◌-◌, ◌<◌, List, Option, none, some, ◌==◌, ◌↔◌, ltb, if◌then◌else◌, length, get_elem?, set,
  init, ◌≡◌, refl, sym, ap, ◌∙◌, subst, arith, get_elem?-set, get_elem?-lt, Option-cases, inl, inr,
  Bool-cases, get_elem?-init, length-init, length-set, get_elem?-of_lt, ◌≢◌,
}
use goja_ext.EventLoop.{Job, Loop, set_idx, move_last, remove_at, remove_job}

abbrev pub job_idx : Option Job → Option ℕ
job_idx none = none
job_idx (some j) = j.idx

-- The index that job `i` holds.
abbrev pub idx_of : List Job → ℕ → Option ℕ
idx_of st i = job_idx (get_elem? st i)

-- `jobs[k]` is job `i` exactly if job `i` holds the index `k`.
pub record Agree (jobs : List ℕ) (idx : ℕ → Option ℕ) : Type 0 where
  pub holds : (k i : ℕ) → get_elem? jobs k ≡ some i → idx i ≡ some k
  pub found : (k i : ℕ) → idx i ≡ some k → get_elem? jobs k ≡ some i

abbrev pub Indexed : Loop → Type 0
Indexed l = Agree l.jobs (idx_of l.store)

pub Agree-ext :
    (jobs : List ℕ) (f g : ℕ → Option ℕ) → ((i : ℕ) → g i ≡ f i) → Agree jobs f → Agree jobs g
Agree-ext jobs f g e a = record {
  holds = λ k i h. e i ∙ a.holds k i h;
  found = λ k i h. a.found k i (sym (e i) ∙ h);
}

pub idx_of-set :
    (st : List Job) (i m : ℕ) (j : Job)
    → i < length st
    → idx_of (set st i j) m ≡ (if i == m then j.idx else idx_of st m)
idx_of-set st i m j h = ground (arith, get_elem?-set st i m j h)

-- A write that keeps the index.
pub idx_of-set_same :
    (st : List Job) (i m : ℕ) (j j' : Job)
    → get_elem? st i ≡ some j
    → j'.idx ≡ j.idx
    → idx_of (set st i j') m ≡ idx_of st m
idx_of-set_same st i m j j' h e = ground (arith, get_elem?-set st i m j' (get_elem?-lt st i h))

abbrev without_idx : ℕ → (ℕ → Option ℕ) → ℕ → Option ℕ
without_idx i f m = if i == m then none else f m

abbrev moved_idx : ℕ → ℕ → (ℕ → Option ℕ) → ℕ → Option ℕ
moved_idx last k f m = if last == m then some k else f m

-- The removed job stands at the end.
Agree-remove_end :
    (jobs : List ℕ) (f : ℕ → Option ℕ) (i k : ℕ)
    → Agree jobs f
    → f i ≡ some k
    → length jobs ≡ k + 1
    → Agree (init jobs) (without_idx i f)
Agree-remove_end jobs f i k a h e = record {
  holds = λ x m g.
      ground (arith, get_elem?-init jobs x, a.holds x m, a.found k i, get_elem?-lt jobs x {a = m});
  found = λ x m g.
      ground (arith, get_elem?-init jobs x, a.found x m, a.found k i, get_elem?-lt jobs x {a = m});
}

-- It stands before the end, and the last job takes its place.
Agree-remove_middle :
    (jobs : List ℕ) (f : ℕ → Option ℕ) (i k last : ℕ)
    → Agree jobs f
    → f i ≡ some k
    → k + 1 < length jobs
    → get_elem? jobs (length jobs - 1) ≡ some last
    → Agree (init (set jobs k last)) (without_idx i (moved_idx last k f))
Agree-remove_middle jobs f i k last a h lt e = record {
  holds = λ x m g. ground (
    arith,
    get_elem?-init (set jobs k last) x,
    length-set jobs k last,
    get_elem?-set jobs k x last,
    a.holds x m,
    a.found k i,
    a.holds (length jobs - 1) last,
  );
  found = λ x m g. ground (
    arith,
    get_elem?-init (set jobs k last) x,
    length-set jobs k last,
    get_elem?-set jobs k x last,
    a.found x m,
    a.found k i,
    a.holds (length jobs - 1) last,
    get_elem?-lt jobs x {a = m},
  );
}

idx_of-set_idx :
    (k : Option ℕ) (i m : ℕ) (l : Loop)
    → i < length l.store
    → idx_of (set_idx k (get_elem? l.store i) i l).store m
      ≡ (if i == m then k else idx_of l.store m)
idx_of-set_idx k i m l h =
    let (j, e) = get_elem?-of_lt l.store i h in
    rw e (idx_of-set l.store i m (record j { idx = k }) h)

set_idx-frame :
    (k : Option ℕ) (o : Option Job) (i : ℕ) (l : Loop)
    → ((set_idx k o i l).jobs ≡ l.jobs) × (length (set_idx k o i l).store ≡ length l.store)
set_idx-frame k none i l = (refl, refl)
set_idx-frame k (some j) i l = (refl, length-set l.store i (record j { idx = k }))

idx_of-lt : (st : List Job) (i k : ℕ) → idx_of st i ≡ some k → i < length st
idx_of-lt st i k h = elim (Option-cases (get_elem? st i)) [
  | inl e ↦ ground arith
  | inr (j, e) ↦ get_elem?-lt st i e
]

abbrev take_out : ℕ → Loop → Loop
take_out i l = set_idx none (get_elem? l.store i) i (record l { jobs = init l.jobs })

take_out_idx :
    (i m : ℕ) (l : Loop)
    → i < length l.store
    → idx_of (take_out i l).store m ≡ without_idx i (idx_of l.store) m
take_out_idx i m l h = idx_of-set_idx none i m (record l { jobs = init l.jobs }) h

take_out_jobs : (i : ℕ) (l : Loop) → (take_out i l).jobs ≡ init l.jobs
take_out_jobs i l = (set_idx-frame none (get_elem? l.store i) i (record l { jobs = init l.jobs })).0

move_last_idx :
    (k last m : ℕ) (l : Loop)
    → last < length l.store
    → idx_of (move_last k (some last) l).store m ≡ moved_idx last k (idx_of l.store) m
move_last_idx k last m l h =
    idx_of-set_idx (some k) last m (record l { jobs = set l.jobs k last }) h

move_last_frame :
    (k last : ℕ) (l : Loop)
    → ((move_last k (some last) l).jobs ≡ set l.jobs k last)
      × (length (move_last k (some last) l).store ≡ length l.store)
move_last_frame k last l =
    set_idx-frame (some k) (get_elem? l.store last) last (record l { jobs = set l.jobs k last })

-- What `removeJob` of job `i` makes of the loop: the slice and the indices agree again, job `i` is out
-- of the slice, and every other job is in it if it was.
pub record Removed (i : ℕ) (l l' : Loop) : Type 0 where
  pub indexed : Indexed l'
  pub gone : idx_of l'.store i ≡ none
  pub others : (m : ℕ) → i ≢ m → (idx_of l.store m ≡ none) ↔ (idx_of l'.store m ≡ none)

Removed-of :
    (i : ℕ) (l l' : Loop) (jobs : List ℕ) (f : ℕ → Option ℕ)
    → l'.jobs ≡ jobs
    → ((m : ℕ) → idx_of l'.store m ≡ without_idx i f m)
    → Agree jobs (without_idx i f)
    → ((m : ℕ) → i ≢ m → (idx_of l.store m ≡ none) ↔ (f m ≡ none))
    → Removed i l l'
Removed-of i l l' jobs f e g a o = record {
  indexed =
      subst (λ js. Agree js (idx_of l'.store)) (sym e)
        (Agree-ext jobs (without_idx i f) (idx_of l'.store) g a);
  gone = g i ∙ ground arith;
  others = λ m ne.
      ((λ h. g m ∙ ground (arith, ne, (o m ne).0 h)), (λ h. (o m ne).1 (ground (arith, ne, g m))));
}

remove_middle-Removed :
    (i k last : ℕ) (l : Loop)
    → Indexed l
    → idx_of l.store i ≡ some k
    → k + 1 < length l.jobs
    → get_elem? l.jobs (length l.jobs - 1) ≡ some last
    → Removed i l (take_out i (move_last k (some last) l))
remove_middle-Removed i k last l a h lt e =
    let at_end = a.holds (length l.jobs - 1) last e in
    let moved = move_last k (some last) l in
    let fr = move_last_frame k last l in
    let last_lt = idx_of-lt l.store last (length l.jobs - 1) at_end in
    Removed-of i l (take_out i moved) (init (set l.jobs k last)) (moved_idx last k (idx_of l.store))
      (take_out_jobs i moved ∙ ap init fr.0)
      (λ m.
        take_out_idx i m moved (subst (λ n. i < n) (sym fr.1) (idx_of-lt l.store i k h))
        ∙ ap (λ o. if i == m then none else o) (move_last_idx k last m l last_lt))
      (Agree-remove_middle l.jobs (idx_of l.store) i k last a h lt e)
      (λ m ne. ((λ g. ground arith), (λ g. ground arith)))

remove_end-Removed :
    (i k : ℕ) (l : Loop)
    → Indexed l
    → idx_of l.store i ≡ some k
    → length l.jobs ≡ k + 1
    → Removed i l (take_out i l)
remove_end-Removed i k l a h e =
    Removed-of i l (take_out i l) (init l.jobs) (idx_of l.store) (take_out_jobs i l)
      (λ m. take_out_idx i m l (idx_of-lt l.store i k h))
      (Agree-remove_end l.jobs (idx_of l.store) i k a h e) (λ m ne. ((λ g. g), (λ g. g)))

remove_at-Removed :
    (i k : ℕ) (l : Loop) → Indexed l → idx_of l.store i ≡ some k → Removed i l (remove_at i k l)
unfolding remove_at
remove_at-Removed i k l a h = elim (Bool-cases (ltb k (length l.jobs - 1))) [
  | inl p ↦
      let (last, e) = get_elem?-of_lt l.jobs (length l.jobs - 1) (ground arith) in
      rw (p, e) (remove_middle-Removed i k last l a h (ground arith) e)
  | inr p ↦
      rw p (remove_end-Removed i k l a h (ground (arith, get_elem?-lt l.jobs k (a.found k i h))))
]

-- `removeJob` takes the job that it is given out of the slice and no other, whether it stands at the end
-- or the last job is moved to its place, and the slice and the indices agree before and after it.
pub remove_job-Removed :
    (i : ℕ) (j : Job) (l : Loop)
    → Indexed l
    → get_elem? l.store i ≡ some j
    → Removed i l (remove_job i j l)
unfolding remove_job
remove_job-Removed i j l a e = elim (Option-cases j.idx) [
  | inl n ↦
      rw n (record { indexed = a; gone = ground arith; others = λ m ne. ((λ g. g), (λ g. g)) })
  | inr (k, s) ↦ rw s (remove_at-Removed i k l a (ground arith))
]

-- What stands before the removed job stays where it is, and the slice is one shorter.
remove_at-jobs :
    (i k : ℕ) (l : Loop)
    → k < length l.jobs
    → ((x : ℕ) → x < k → get_elem? (remove_at i k l).jobs x ≡ get_elem? l.jobs x)
      × (length (remove_at i k l).jobs ≡ length l.jobs - 1)
unfolding remove_at
remove_at-jobs i k l lt = elim (Bool-cases (ltb k (length l.jobs - 1))) [
  | inl p ↦
      let (last, e) = get_elem?-of_lt l.jobs (length l.jobs - 1) (ground arith) in
      let js = take_out_jobs i (move_last k (some last) l) ∙ ap init (move_last_frame k last l).0 in
      rw (p, e)
        (
          (λ x h.
              ap (λ ys. get_elem? ys x) js
              ∙ ground (
                arith,
                get_elem?-init (set l.jobs k last) x,
                length-set l.jobs k last,
                get_elem?-set l.jobs k x last,
              )),
          ap length js ∙ omega (arith, length-init (set l.jobs k last), length-set l.jobs k last),
        )
  | inr p ↦ rw p (
    (λ x h.
        ap (λ ys. get_elem? ys x) (take_out_jobs i l) ∙ ground (arith, get_elem?-init l.jobs x)),
    ap length (take_out_jobs i l) ∙ omega (arith, length-init l.jobs),
  )
]

pub remove_job-jobs :
    (i k : ℕ) (j : Job) (l : Loop)
    → j.idx ≡ some k
    → k < length l.jobs
    → ((x : ℕ) → x < k → get_elem? (remove_job i j l).jobs x ≡ get_elem? l.jobs x)
      × (length (remove_job i j l).jobs ≡ length l.jobs - 1)
unfolding remove_job
remove_job-jobs i k j l e lt = rw e (remove_at-jobs i k l lt)
