-- ===== src/Scheduler/Payload.antt =====
-- The bytes that `notificationDeliveryKey` hashes.
use uade_bot.Prelude.{ℕ, ◌%◌, String, List, [], ◌∷◌, ◌++◌, length}
use uade_bot.Prelude.Bytes.{bytes, be64}
use uade_bot.Prelude.Int.{two64, to_bits}
use uade_bot.Scheduler.Types.{Vacancy, Outcome, Job}

-- writeDeliveryUint64
unfoldable pub uint64 : ℕ → List ℕ
unfolding be64
uint64 n = be64 (n % two64)

-- writeDeliveryString
unfoldable pub text : String → List ℕ
unfolding uint64
text s = uint64 (length (bytes s)) ++ bytes s

-- the loop over `vacancy.Dias`
unfoldable pub texts : List String → List ℕ
unfolding text
texts [] = []
texts (s ∷ ss) = text s ++ texts ss

unfoldable pub vacancy : Vacancy → List ℕ
unfolding texts to_bits
vacancy v =
    text v.materia
    ++ (text v.turno
        ++ (text v.sede
            ++ (text v.horario
                ++ (uint64 (length v.dias) ++ (texts v.dias ++ uint64 (to_bits v.cupos))))))

-- the loop over `outcome.Vacancies`
unfoldable pub vacancies : List Vacancy → List ℕ
unfolding vacancy
vacancies [] = []
vacancies (v ∷ vs) = vacancy v ++ vacancies vs

unfoldable pub payload : Job → Outcome → List ℕ
unfolding vacancies
payload job outcome =
    bytes "uade-notification-delivery-v1"
    ++ (text job.id
        ++ (text job.account
            ++ (text job.channel
                ++ (text job.materia_codigo
                    ++ (text job.label
                        ++ (uint64 (length outcome.vacancies) ++ vacancies outcome.vacancies))))))
