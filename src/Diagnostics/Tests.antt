-- ===== src/Diagnostics/Tests.antt =====
-- Events at minutes 3, 3, 70 and 100, asked for at minute 110.
use pacto_bot_api.Prelude.{ℕ, ◌≡◌, List, [], ◌∷◌, arith}
use pacto_bot_api.Diagnostics.Buckets.{count_last_n_minutes}
use pacto_bot_api.Diagnostics.Windows.{replay, events_within}
use pacto_bot_api.Diagnostics.Totals.{count_last_n_minutes_refines}

abbrev history : List ℕ
history = 100 ∷ 70 ∷ 3 ∷ 3 ∷ []

count_last_n_minutes_refines_example :
    count_last_n_minutes 45 110 (replay history) ≡ events_within 66 110 history
count_last_n_minutes_refines_example =
    count_last_n_minutes_refines history 45 110
      (
        (omega arith, (omega arith, (omega arith, tt))),
        ((omega arith, (omega arith, tt)), ((omega arith, tt), (tt, tt))),
      )
      (omega arith) (omega arith) (omega arith)
