-- ===== src/Jobs/TaskExamples.antt =====
-- A concrete run of the finalizer of exhausted messages.
use app_template.Prelude.{ℕ, zero, suc, String, none, some, ◌≡◌, refl, ap, ◌⊎◌}
use app_template.Models.Errors.{ok}
use app_template.Jobs.Samples.{at, running_db}
use app_template.Jobs.Tasks.{Message, FinalizerEnd, mark_job_failed_after_retries, stamped}
use app_template.Jobs.Finalizer.{IsAbandoned, finalizer_spares_newer_attempts}

-- Numbers as texts in base one.
abbrev written : ℕ → String
written zero = ""
written (suc n) = String.◌∷◌ "i" (written n)

abbrev strokes : String → ℕ
strokes String.[] = 0
strokes (String.◌∷◌ c s) = suc (strokes s)

strokes-written : (n : ℕ) → strokes (written n) ≡ n
strokes-written zero = refl
strokes-written (suc n) = ap suc (strokes-written n)

-- The message of the job 7, under the dispatch 10 and the token 21 of its running attempt.
abbrev exhausted_message : Message
exhausted_message = record { job_id = some (written 7); dispatch_id = none; owner_token = none }

finalizer_spares_newer_attempts_example :
    ((mark_job_failed_after_retries
        (at 900010 60)
        (λ s. some (strokes s))
        (stamped written 10 21 exhausted_message)
        running_db).1
      ≡ running_db)
    ⊎ (((mark_job_failed_after_retries
            (at 900010 60)
            (λ s. some (strokes s))
            (stamped written 10 21 exhausted_message)
            running_db).0
          ≡ ok FinalizerEnd.recorded)
        × IsAbandoned
            (at 900010 60)
            7
            10
            21
            running_db
            (mark_job_failed_after_retries
              (at 900010 60)
              (λ s. some (strokes s))
              (stamped written 10 21 exhausted_message)
              running_db).1)
finalizer_spares_newer_attempts_example =
    finalizer_spares_newer_attempts (at 900010 60) (λ s. some (strokes s)) written 7 10 21
      exhausted_message running_db (λ n. ap some (strokes-written n)) refl
