-- ===== src/Scheduler/Examples.antt =====
-- Runs of internal/scheduler on small inputs, and the theorems at them.
mod Backoffs
mod Outcomes
mod Schedules
mod Workers
use uade_bot.Prelude.{String, true, Option, none}
use uade_bot.Prelude.Int.{ℤ, pos}
use uade_bot.Scheduler.Types.{Vacancy, Outcome, Job, Event}
use uade_bot.Scheduler.Outcomes.{no_outcome}
use uade_bot.Prelude.{List, [], ◌∷◌}

abbrev pub first_job : Job
first_job = record {
  account = "ana";
  id = "1";
  channel = "c";
  materia_codigo = "3.4.1";
  label = "a";
  runnable = true;
}

abbrev pub second_job : Job
second_job = record first_job { id = "2" }

abbrev pub morning : Vacancy
morning = record {
  materia = "Algebra";
  turno = "M";
  sede = "Monserrat";
  horario = "08";
  dias = "Lu" ∷ "Mi" ∷ [];
  cupos = pos 3;
}

abbrev pub evening : Vacancy
evening = record morning { turno = "N"; cupos = pos 5 }

abbrev pub closed_outcome : Outcome
closed_outcome = record no_outcome { code = "inscripciones_cerradas" }

abbrev pub found_outcome : List Vacancy → Outcome
found_outcome vs = record no_outcome { code = "found"; vacancies = vs }
