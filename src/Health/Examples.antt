-- ===== src/Health/Examples.antt =====
-- The theorem about the health reports at concrete inputs.
use umaa_cpp.Base.{ℕ, ◌≡◌, List, [], ◌∷◌, none, is_some}
use umaa_cpp.Base.Int.{pos}
use umaa_cpp.Health.{
  power, software, error, Key, get, Env, new, dispose_reports, send_all_reports, clear_and_stop,
  Call, registers, deregisters, updates, starts, beats, after,
}
use umaa_cpp.Health.Reports.{view, subscriber_follows}

-- The clock's readings are 0, 1, …; the texts are numbers.
abbrev ticking : Env ℕ
ticking = record { clock = λ n. record { seconds = pos n; nanoseconds = pos 0 }; no_condition = 0 }

abbrev battery : Key
battery = record { resource = 4; error_code = power }

abbrev planner : Key
planner = record { resource = 4; error_code = software }

abbrev calls : List (Call ℕ)
calls =
    registers battery
    ∷ registers planner
    ∷ starts
    ∷ updates battery error 7
    ∷ beats
    ∷ registers battery
    ∷ deregisters planner
    ∷ []

subscriber_follows_example :
    let c = after ticking (new 1) calls in
    (view c.output.bus battery ≡ get battery c.reports)
    × (view (clear_and_stop (dispose_reports c)).output.bus battery ≡ none)
    × (is_some
          (view (clear_and_stop (send_all_reports ticking (dispose_reports c))).output.bus battery)
        ≡ is_some (get battery c.reports))
subscriber_follows_example = subscriber_follows ticking 1 calls battery
