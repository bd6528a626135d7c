-- ===== src/Connection/Examples.antt =====
-- Two items on a connection.
use parlevision.Base.{ℕ, ◌≡◌, refl, List, [], ◌∷◌, ◌++◌, some}
use parlevision.Connection.{Data, push, get, data_of, null_data}
use parlevision.Connection.Fifo.{Call, puts, gets, run, run_fifo}

abbrev history : List (Call ℕ)
history = puts (data_of 3 30) ∷ gets ∷ puts (null_data 4) ∷ gets ∷ []

abbrev queued : List (Data ℕ)
queued = data_of 1 10 ∷ data_of 2 20 ∷ []

run_test : run history queued ≡ some (queued, data_of 3 30 ∷ null_data 4 ∷ [])
unfolding run push get
run_test = refl

run_fifo_example :
    queued ++ data_of 3 30 ∷ null_data 4 ∷ [] ≡ queued ++ data_of 3 30 ∷ null_data 4 ∷ []
run_fifo_example = run_fifo history queued queued (data_of 3 30 ∷ null_data 4 ∷ []) run_test
