-- ===== src/Scheduler/Threads/Accounting.antt =====
-- One worker for each account in flight, one token for each job that runs, and no token beyond the
-- limit.
use uade_bot.Prelude.{
  ℕ, ◌+◌, ◌≤◌, ◌≡◌, refl, sym, ap, ◌==◌, String, Bool, true, false, List, [], ◌∷◌, ◌++◌, arith, Map,
  update, eq_iff,
}
use mathlib.Core.Path.{subst}
use uade_bot.Prelude.Dict
use uade_bot.Scheduler.Types.{Job}
use uade_bot.Scheduler.Schedule.{apply_desired, jobs_of}
use uade_bot.Scheduler.Schedule.Jobs.{
  OwnJobs, All-get_elem?, add-in_flight, add-OwnJobs, apply_desired-OwnJobs, pick-Picked,
  poll_now-Started, poll_now-waiting, next_immediate-in_flight, finish_account-in_flight,
}
use uade_bot.Scheduler.Threads.{
  Phase, arriving, running, served, ending, Worker, System, idle, start, Step, adds, reconciles,
  picks, starts, queues, acquires, cancels, releases, continues, stops, finishes, crashes, Reach,
  here, next,
}

-- the workers that a test counts
abbrev pub tally : (Worker → ℕ) → List Worker → ℕ
tally f [] = 0
tally f (w ∷ ws) = f w + tally f ws

tally-append : (f : Worker → ℕ) (xs ys : List Worker) → tally f (xs ++ ys) ≡ tally f xs + tally f ys
tally-append f [] ys = omega arith
tally-append f (x ∷ xs) ys = omega (arith, tally-append f xs ys)

-- replacing or dropping the worker at one place
pub tally-at :
    (f : Worker → ℕ) (xs ys : List Worker) (w : Worker)
    → tally f (xs ++ w ∷ ys) ≡ f w + tally f (xs ++ ys)
tally-at f xs ys w = omega (arith, tally-append f xs (w ∷ ys), tally-append f xs ys)

abbrev pub flag : Bool → ℕ
flag true = 1
flag false = 0

abbrev pub serves : String → Worker → ℕ
serves account w = flag (w.first == account)

abbrev is_running : Phase → ℕ
is_running running = 1
is_running _ = 0

abbrev pub runs : Worker → ℕ
runs w = is_running w.phase

pub record IsAccounted (limit : ℕ) (s : System) : Type 0 where
  pub one_worker :
      (account : String) → tally (serves account) s.workers ≡ flag (s.schedule.in_flight account)
  pub held : s.tokens ≡ tally runs s.workers
  pub within : s.tokens ≤ limit
  pub own : OwnJobs s.schedule.jobs

-- a new worker, for an account that was free
start-one_worker :
    (s : System) (job : Job) (flags : Map Bool)
    → ((a : String) → tally (serves a) s.workers ≡ flag (s.schedule.in_flight a))
    → s.schedule.in_flight job.account ≡ false
    → flags ≡ update s.schedule.in_flight job.account true
    → (a : String) → tally (serves a) (start job s.workers) ≡ flag (flags a)
start-one_worker s job flags h free e a = rw e (ground (arith, eq_iff job.account a, h a))

-- a worker gone
drop-one_worker :
    (s : System) (before after : List Worker) (w : Worker) (flags : Map Bool)
    → s.workers ≡ before ++ w ∷ after
    → ((a : String) → tally (serves a) s.workers ≡ flag (s.schedule.in_flight a))
    → flags ≡ update s.schedule.in_flight w.first false
    → (a : String) → tally (serves a) (before ++ after) ≡ flag (flags a)
drop-one_worker s before after w flags p h e a = rw e (
    ground
      (arith, eq_iff w.first a, h a, tally-at (serves a) before after w, ap (tally (serves a)) p))

-- a worker in another phase, or with another job
moved-tally :
    (f : Worker → ℕ) (s : System) (before after : List Worker) (w w' : Worker)
    → s.workers ≡ before ++ w ∷ after
    → tally f (before ++ w' ∷ after) + f w ≡ tally f s.workers + f w'
moved-tally f s before after w w' p =
    rw p (omega (arith, tally-at f before after w, tally-at f before after w'))

-- a worker that keeps its account, with the flags as they were
moved-one_worker :
    (s : System) (before after : List Worker) (w w' : Worker) (flags : Map Bool)
    → s.workers ≡ before ++ w ∷ after
    → w'.first ≡ w.first
    → ((a : String) → tally (serves a) s.workers ≡ flag (s.schedule.in_flight a))
    → flags ≡ s.schedule.in_flight
    → (a : String) → tally (serves a) (before ++ w' ∷ after) ≡ flag (flags a)
moved-one_worker s before after w w' flags p same h e a =
    rw e (ground (arith, moved-tally (serves a) s before after w w' p, h a))

-- Every step keeps: one worker for each account in flight and none for the others; as many tokens
-- taken as jobs run, never more than the limit; each account's list holds that account's jobs.
pub Step-IsAccounted :
    {limit : ℕ} {s t : System} → Step limit s t → IsAccounted limit s → IsAccounted limit t
Step-IsAccounted {s = s} (adds job) h = record {
  one_worker = rw (add-in_flight job s.schedule) h.one_worker;
  held = h.held;
  within = h.within;
  own = add-OwnJobs job s.schedule h.own;
}
Step-IsAccounted {s = s} (reconciles desired records) h = record {
  one_worker = unfold apply_desired in h.one_worker;
  held = h.held;
  within = h.within;
  own = apply_desired-OwnJobs desired records s.schedule;
}
Step-IsAccounted {s = s} (picks account job after e) h =
    let p = pick-Picked account s.schedule job after e in
    let mine : job.account ≡ account =
      All-get_elem? (λ j. j.account ≡ account) (jobs_of s.schedule.jobs account) p.listed.0 job
        (h.own account) p.listed.1 in
    record {
      one_worker =
          start-one_worker s job after.in_flight h.one_worker
            (subst (λ a. s.schedule.in_flight a ≡ false) (sym mine) p.was_free)
            (subst (λ a. after.in_flight ≡ update s.schedule.in_flight a true) (sym mine)
              p.flagged);
      held = omega (arith, h.held);
      within = h.within;
      own = rw p.same_jobs h.own;
    }
Step-IsAccounted {s = s} (starts id job after e) h =
    let p = poll_now-Started id s.schedule job after e in
    record {
      one_worker = start-one_worker s job after.in_flight h.one_worker p.was_free p.flagged;
      held = omega (arith, h.held);
      within = h.within;
      own = rw p.same_jobs h.own;
    }
Step-IsAccounted {s = s} (queues id after e) h =
    let (flags, jobs) = poll_now-waiting id s.schedule after e in
    record {
      one_worker = rw flags h.one_worker;
      held = h.held;
      within = h.within;
      own = rw jobs h.own;
    }
Step-IsAccounted {s = s} (acquires before after w p arrived room) h = record {
  one_worker =
      moved-one_worker s before after w (record w { phase = running }) _ p refl h.one_worker refl;
  held = ground (arith, moved-tally runs s before after w (record w { phase = running }) p, h.held);
  within = omega (arith, room);
  own = h.own;
}
Step-IsAccounted {s = s} (cancels before after w p arrived) h = record {
  one_worker =
      moved-one_worker s before after w (record w { phase = served }) _ p refl h.one_worker refl;
  held = ground (arith, moved-tally runs s before after w (record w { phase = served }) p, h.held);
  within = h.within;
  own = h.own;
}
Step-IsAccounted {s = s} (releases before after w p ran) h = record {
  one_worker =
      moved-one_worker s before after w (record w { phase = served }) _ p refl h.one_worker refl;
  held = ground (arith, moved-tally runs s before after w (record w { phase = served }) p, h.held);
  within = omega (arith, h.within);
  own = h.own;
}
Step-IsAccounted {s = s} (continues before after w job n p done e) h =
    let (flags, jobs) = next_immediate-in_flight w.job.account s.schedule n e in
    record {
      one_worker =
          moved-one_worker s before after w (record w { job = job; phase = arriving }) _ p refl
            h.one_worker flags;
      held = ground (
        arith,
        moved-tally runs s before after w (record w { job = job; phase = arriving }) p,
        h.held,
      );
      within = h.within;
      own = rw jobs h.own;
    }
Step-IsAccounted {s = s} (stops before after w n p done e) h =
    let (flags, jobs) = next_immediate-in_flight w.job.account s.schedule n e in
    record {
      one_worker =
          moved-one_worker s before after w (record w { phase = ending }) _ p refl h.one_worker
            flags;
      held =
          ground (arith, moved-tally runs s before after w (record w { phase = ending }) p, h.held);
      within = h.within;
      own = rw jobs h.own;
    }
Step-IsAccounted {s = s} (finishes before after w p ended) h =
    let (flags, jobs) = finish_account-in_flight w.first false s.schedule in
    record {
      one_worker = drop-one_worker s before after w _ p h.one_worker flags;
      held = ground (arith, tally-at runs before after w, ap (tally runs) p, h.held);
      within = h.within;
      own = rw jobs h.own;
    }
Step-IsAccounted {s = s} (crashes before after w p done) h =
    let (flags, jobs) = finish_account-in_flight w.first true s.schedule in
    record {
      one_worker = drop-one_worker s before after w _ p h.one_worker flags;
      held = ground (arith, tally-at runs before after w, ap (tally runs) p, h.held);
      within = h.within;
      own = rw jobs h.own;
    }

idle-IsAccounted : (limit : ℕ) → IsAccounted limit idle
idle-IsAccounted limit = record {
  one_worker = λ account. refl;
  held = refl;
  within = omega arith;
  own = λ account. unfold jobs_of Dict.get in tt;
}

-- In every interleaving from the empty scheduler: an account has exactly one worker while it is
-- in flight and none otherwise, no more jobs run at a time than the limit allows, a token is held
-- for each of them, and each account's list holds only its own jobs.
pub Reach-IsAccounted : {limit : ℕ} {s : System} → Reach limit idle s → IsAccounted limit s
Reach-IsAccounted {limit} here = idle-IsAccounted limit
Reach-IsAccounted (next r st) = Step-IsAccounted st (Reach-IsAccounted r)
