-- ===== src/Scheduler/Schedule/RoundRobin.antt =====
-- The turns that an account's jobs take, when each poll ends before the next tick.
use uade_bot.Prelude.{
  ℕ, suc, ◌+◌, ◌-◌, ◌%◌, ◌<◌, ◌≡◌, refl, ap, ◌∙◌, String, Bool, true, false, Option, none, some,
  List, [], ◌∷◌, length, get_elem?, ◌++◌, arith, update, update_self, if◌then◌else◌, Bool-cases,
  inl, inr,
}
use uade_bot.Prelude.Int.{pos, two63, ◌+ℤ◌, +ℤ-pos}
use uade_bot.Prelude.Exec.{Result, ok, err, panic, continue, pure}
use uade_bot.Scheduler.Types.{Job, Error}
use uade_bot.Scheduler.Ports.{Ports, Host}
use uade_bot.Scheduler.Outcomes.{account_paused}
use uade_bot.Scheduler.Running.{Scheduler, visit}
use uade_bot.Scheduler.Schedule.{Schedule, jobs_of, pick, finish_account, rem_index, picked}

abbrev picked_job : Result Error (Option Job) → Option Job
picked_job (ok o) = o
picked_job (err e) = none
picked_job panic = none

-- whether accountPaused answers that the account is not paused
abbrev is_clear : Result Error Bool → Bool
is_clear (ok paused) = if paused then false else true
is_clear (err e) = false
is_clear panic = false

module _ {W : Type 0} (p : Ports W) (account : String) where
  -- the ticks of RunOnce for an account, by the host that each finds
  pub turns : List (Host W) → Schedule → List (Option Job)
  turns [] s = []
  turns (h ∷ hs) s =
      let (r, s') = visit p account (record { schedule = s; host = h }) in
      picked_job r ∷ turns hs (finish_account account false s'.schedule)

  -- the ticks that find the account not paused
  unfoldable pub clear : Host W → Bool
  clear h = is_clear (account_paused p account h).0

  unfoldable pub clear_ticks : List (Host W) → ℕ
  unfolding clear
  clear_ticks [] = 0
  clear_ticks (h ∷ hs) = let n = clear_ticks hs in if clear h then suc n else n

-- what the tick makes of the answer of accountPaused
abbrev answered :
    {W : Type 0}
    → Ports W
    → String
    → Schedule
    → Result Error Bool × Host W
    → Result Error (Option Job) × Scheduler W
answered p account s (r, h) =
    continue r
      (λ paused. if paused then pure none else λ t.
        (let (r, schedule) = pick account t.schedule in (r, record t { schedule = schedule })))
      (record { schedule = s; host = h })

-- An account whose jobs are `jobs`, idle, at the turn `k`.
pub record IsAt (account : String) (jobs : List Job) (k : ℕ) (s : Schedule) : Type 0 where
  pub listed : jobs_of s.jobs account ≡ jobs
  pub free : s.in_flight account ≡ false
  pub turn : s.pointer account ≡ pos k

-- the schedule after a pick at the turn `k`
abbrev at_next : String → ℕ → Schedule → Schedule
at_next account k s = record s {
  pointer = update s.pointer account (pos k +ℤ pos 1);
  in_flight = update s.in_flight account true;
}

pick-at_next :
    (account : String) (job : Job) (jobs : List Job) (k : ℕ) (s : Schedule)
    → IsAt account (job ∷ jobs) k s
    → pick account s
      ≡ (picked (get_elem? (job ∷ jobs) (k % length (job ∷ jobs))), at_next account k s)
unfolding pick rem_index
pick-at_next account job jobs k s here = rw (here.listed, here.free, here.turn) refl

picked_job-picked : (o : Option Job) → picked_job (picked o) ≡ o
picked_job-picked none = refl
picked_job-picked (some j) = refl

at_next-IsAt :
    (account : String) (job : Job) (jobs : List Job) (k : ℕ) (s : Schedule)
    → IsAt account (job ∷ jobs) k s
    → suc k < two63
    → IsAt account (job ∷ jobs) (suc k) (finish_account account false (at_next account k s))
unfolding finish_account
at_next-IsAt account job jobs k s here h = record {
  listed = here.listed;
  free = update_self (update s.in_flight account true) account false;
  turn =
      update_self s.pointer account (pos k +ℤ pos 1)
      ∙ +ℤ-pos k 1 (omega arith)
      ∙ ap pos (omega arith);
}

-- a tick that polls nothing leaves the account where it is
idle-IsAt :
    (account : String) (jobs : List Job) (k : ℕ) (s : Schedule)
    → IsAt account jobs k s
    → IsAt account jobs k (finish_account account false s)
unfolding finish_account
idle-IsAt account jobs k s here = record {
  listed = here.listed;
  free = update_self s.in_flight account false;
  turn = here.turn;
}

-- the ticks from turn `k` to the place `i` among `n`
abbrev wait_for : ℕ → ℕ → ℕ → ℕ
wait_for k i n = (i + (n - k % n)) % n

module _ {W : Type 0} (p : Ports W) (account : String) where
  -- a tick that finds the account not paused, and one that does not
  visit-clear :
      (h : Host W) (s : Schedule)
      → clear p account h ≡ true
      → ((visit p account (record { schedule = s; host = h })).0 ≡ (pick account s).0)
        × ((visit p account (record { schedule = s; host = h })).1.schedule ≡ (pick account s).1)
  unfolding visit clear
  visit-clear h s e = ends (account_paused p account h) e
    where
      ends :
          (x : Result Error Bool × Host W)
          → is_clear x.0 ≡ true
          → ((answered p account s x).0 ≡ (pick account s).0)
            × ((answered p account s x).1.schedule ≡ (pick account s).1)
      ends (ok true, h') e = cc
      ends (ok false, h') e = (refl, refl)
      ends (err x, h') e = cc
      ends (panic, h') e = cc

  visit-paused :
      (h : Host W) (s : Schedule)
      → clear p account h ≡ false
      → (picked_job (visit p account (record { schedule = s; host = h })).0 ≡ none)
        × ((visit p account (record { schedule = s; host = h })).1.schedule ≡ s)
  unfolding visit clear
  visit-paused h s e = ends (account_paused p account h) e
    where
      ends :
          (x : Result Error Bool × Host W)
          → is_clear x.0 ≡ false
          → (picked_job (answered p account s x).0 ≡ none)
            × ((answered p account s x).1.schedule ≡ s)
      ends (ok true, h') e = (refl, refl)
      ends (ok false, h') e = cc
      ends (err x, h') e = (refl, refl)
      ends (panic, h') e = (refl, refl)

  turns-clear :
      (h : Host W) (hs : List (Host W)) (job : Job) (jobs : List Job) (k : ℕ) (s : Schedule)
      → IsAt account (job ∷ jobs) k s
      → clear p account h ≡ true
      → turns p account (h ∷ hs) s
        ≡ get_elem? (job ∷ jobs) (k % length (job ∷ jobs))
          ∷ turns p account hs (finish_account account false (at_next account k s))
  unfolding turns
  turns-clear h hs job jobs k s here e =
      let (answer, left) = visit-clear h s e in
      rw
        (
          answer,
          left,
          pick-at_next account job jobs k s here,
          picked_job-picked (get_elem? (job ∷ jobs) (k % length (job ∷ jobs))),
        )
        refl

  turns-paused :
      (h : Host W) (hs : List (Host W)) (s : Schedule)
      → clear p account h ≡ false
      → turns p account (h ∷ hs) s ≡ none ∷ turns p account hs (finish_account account false s)
  unfolding turns
  turns-paused h hs s e = let (answer, left) = visit-paused h s e in rw (answer, left) refl

  no_ticks : clear_ticks p account [] ≡ 0
  unfolding clear_ticks
  no_ticks = refl

  ticks-clear :
      (h : Host W) (hs : List (Host W))
      → clear p account h ≡ true
      → clear_ticks p account (h ∷ hs) ≡ suc (clear_ticks p account hs)
  unfolding clear_ticks
  ticks-clear h hs e = rw e refl

  ticks-paused :
      (h : Host W) (hs : List (Host W))
      → clear p account h ≡ false
      → clear_ticks p account (h ∷ hs) ≡ clear_ticks p account hs
  unfolding clear_ticks
  ticks-paused h hs e = rw e refl

  -- Let each poll of an idle account end before the next tick. Then a tick that finds the account
  -- paused, or cannot read its state, polls nothing; any other polls the job at the place of the
  -- turn at the start plus the ticks before it that did not find it so, modulo the number of jobs,
  -- as long as the counter stays below 2^63.
  pub turns-get_elem? :
      (before : List (Host W)) (h : Host W) (after : List (Host W)) (job : Job) (jobs : List Job)
      (k : ℕ) (s : Schedule)
      → IsAt account (job ∷ jobs) k s
      → k + clear_ticks p account before < two63
      → get_elem? (turns p account (before ++ h ∷ after) s) (length before)
        ≡ some (
            if clear p account h
            then get_elem? (job ∷ jobs) ((k + clear_ticks p account before) % length (job ∷ jobs))
            else none)
  turns-get_elem? [] h after job jobs k s here l = elim (Bool-cases (clear p account h)) [
    | inl e ↦
        rw (turns-clear h after job jobs k s here e, e)
          (ap (λ i. some (get_elem? (job ∷ jobs) (i % length (job ∷ jobs))))
            (omega (arith, no_ticks)))
    | inr e ↦ rw (turns-paused h after s e, e) refl
  ]
  turns-get_elem? (b ∷ before) h after job jobs k s here l = elim (Bool-cases (clear p account b)) [
    | inl e ↦
        let more = ticks-clear b before e in
        rw (turns-clear b (before ++ h ∷ after) job jobs k s here e, more)
          (turns-get_elem? before h after job jobs (suc k)
              (finish_account account false (at_next account k s))
              (at_next-IsAt account job jobs k s here (omega (arith, l, more)))
              (omega (arith, l, more))
            ∙ ap
                (λ i. some (
                  if clear p account h
                  then get_elem? (job ∷ jobs) (i % length (job ∷ jobs))
                  else none))
                (omega arith))
    | inr e ↦
        let same = ticks-paused b before e in
        rw (turns-paused b (before ++ h ∷ after) s e, same)
          (turns-get_elem? before h after job jobs k (finish_account account false s)
            (idle-IsAt account (job ∷ jobs) k s here) (omega (arith, l, same)))
  ]
