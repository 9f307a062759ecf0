-- ===== src/Scheduler/Crons.antt =====
-- What the loop over the cron jobs does to each of them.
use tttt.Base.{
  ℕ, ◌≡◌, refl, false, none, some, List, [], ◌∷◌, ◌++◌, map, if◌then◌else◌, All, arith,
  append_assoc, ◌∙◌,
}
use tttt.Base.Text.{Text, text_eq, text_eq_sym}
use tttt.Base.Map
use tttt.Scheduler.{
  CronJob, Jobs, SchedulerEvent, cron_fired, is_due, reschedule, fire_cron, fire_crons,
}

-- The events of the jobs that are due, in the order of the map.
abbrev pub due_events : ℕ → Jobs → List SchedulerEvent
due_events now [] = []
due_events now ((id, job) ∷ jobs) =
    if is_due now (some job) then cron_fired job ∷ due_events now jobs else due_events now jobs

-- Each job that is due gets a new time; the others stay as they are.
abbrev pub after_tick : ℕ → Jobs → Jobs
after_tick now [] = []
after_tick now ((id, job) ∷ jobs) =
    (id, if is_due now (some job) then reschedule now job else job) ∷ after_tick now jobs

abbrev ids : Jobs → List Text
ids = map (λ e. e.0)

module _ (now : ℕ) where
  fire_cron_hit :
      (id : Text) (job : CronJob) (done rest : Jobs)
      → Map.get id done ≡ none
      → fire_cron now id (done ++ (id, job) ∷ rest) ≡ (
        due_events now ((id, job) ∷ []),
        done ++ (id, if is_due now (some job) then reschedule now job else job) ∷ rest,
      )
  unfolding fire_cron
  fire_cron_hit id job done rest absent =
      let here = (id, job) ∷ rest in
      ground (
        arith,
        Map.get-append id done here absent,
        Map.get-cons_self id job rest,
        Map.insert-append id (reschedule now job) done here absent,
        Map.insert-cons_self id (reschedule now job) job rest,
      )

  refl_none : (j : Text) → Map.get {V = CronJob} j [] ≡ none
  unfolding Map.get
  refl_none j = refl

  apart :
      (id : Text) (job : CronJob) (done rest : Jobs)
      → All (λ e. Map.get e.0 done ≡ none) rest
      → All (λ e. text_eq e.0 id ≡ false) rest
      → All (λ e. Map.get e.0 (done ++ (id, job) ∷ []) ≡ none) rest
  apart id job done [] a b = tt
  apart id job done ((j, w) ∷ rest) a b = (
    Map.get-append j done ((id, job) ∷ []) a.0
        ∙ Map.get-cons_ne id j job [] (text_eq_sym id j ∙ b.0)
        ∙ refl_none j,
    apart id job done rest a.1 b.1,
  )

  loop :
      (done jobs : Jobs)
      → All (λ e. Map.get e.0 done ≡ none) jobs
      → Map.Distinct jobs
      → fire_crons now (ids jobs) (done ++ jobs)
        ≡ (due_events now jobs, done ++ after_tick now jobs)
  unfolding fire_crons
  loop done [] fresh apart = refl
  loop done ((id, job) ∷ jobs) fresh distinct =
      let job' : CronJob = if is_due now (some job) then reschedule now job else job in
      rw (fire_cron_hit id job done jobs fresh.0) (
        rw (← append_assoc done ((id, job') ∷ []) jobs) (
          rw
            (loop (done ++ (id, job') ∷ []) jobs
              (apart id job' done jobs fresh.1 (Map.All_of_get-none id jobs distinct.0)) distinct.1)
            (ground (arith, append_assoc done ((id, job') ∷ []) (after_tick now jobs)))))

  -- Each job is looked at once, whatever the others do.
  pub fire_crons-ids :
      (jobs : Jobs)
      → Map.Distinct jobs
      → fire_crons now (ids jobs) jobs ≡ (due_events now jobs, after_tick now jobs)
  fire_crons-ids jobs distinct = loop [] jobs (all_absent jobs) distinct
    where
      all_absent : (l : Jobs) → All (λ e. Map.get {V = CronJob} e.0 [] ≡ none) l
      all_absent [] = tt
      all_absent (e ∷ l) = (refl_none e.0, all_absent l)

  pub get-after_tick-none :
      (id : Text) (jobs : Jobs) → Map.get id jobs ≡ none → Map.get id (after_tick now jobs) ≡ none
  unfolding Map.get
  get-after_tick-none id [] h = refl
  get-after_tick-none id ((j, job) ∷ jobs) h = ground (arith, get-after_tick-none id jobs)

  pub after_tick-Distinct : (jobs : Jobs) → Map.Distinct jobs → Map.Distinct (after_tick now jobs)
  after_tick-Distinct [] h = tt
  after_tick-Distinct ((id, job) ∷ jobs) h =
      (get-after_tick-none id jobs h.0, after_tick-Distinct jobs h.1)
