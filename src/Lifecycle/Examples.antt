-- ===== src/Lifecycle/Examples.antt =====
-- The elements 0, 1 and 2.
use parlevision.Base.{ℕ, ◌≡◌, refl, true, false, [], ◌∷◌, ◌==◌, if◌then◌else◌, ◌⊎◌, contains, arith}
use parlevision.Store.{initialized}
use parlevision.Lifecycle.{
  returns, throwing, Hooks, done, refused, Elements, init_all, start_pipeline,
}
use parlevision.Lifecycle.Rollback.{fresh, init_all-rolls_back}
use parlevision.Lifecycle.Restart.{start_pipeline-cycle}

abbrev fine : Hooks
fine = record {
  on_init = λ e. returns true false;
  on_start = λ e. returns true false;
  on_stop = λ e. returns true false;
  on_deinit = λ e. true;
}

-- The init of element 1 throws after it called setError.
abbrev broken : Hooks
broken = record {
  on_init = λ e. if e == 1 then throwing true else returns true false;
  on_start = λ e. returns true false;
  on_stop = λ e. returns true false;
  on_deinit = λ e. true;
}

abbrev untouched : Elements
untouched e = fresh

rolled_back : (init_all broken [] (0 ∷ 1 ∷ 2 ∷ []) untouched).0 ≡ refused
unfolding init_all
rolled_back = refl

init_all-rolls_back_example :
    (((init_all broken [] (1 ∷ []) untouched).0 ≡ done)
      × ((x : ℕ)
          → ((init_all broken [] (1 ∷ []) untouched).1 x).state
            ≡ (if contains x (1 ∷ []) then initialized else (untouched x).state)))
    ⊎ (((init_all broken [] (1 ∷ []) untouched).0 ≡ refused)
        × ((x : ℕ) → (init_all broken [] (1 ∷ []) untouched).1 x ≡ untouched x))
init_all-rolls_back_example =
    init_all-rolls_back broken (1 ∷ []) untouched (refl, tt) (λ e. ground arith) (λ e. refl)
      (λ e m. refl)

init_done : (init_all fine [] (0 ∷ 1 ∷ []) untouched).0 ≡ done
unfolding init_all
init_done = refl

start_pipeline-cycle_example : (start_pipeline fine (0 ∷ 1 ∷ []) true false untouched).0 ≡ refused
start_pipeline-cycle_example =
    (start_pipeline-cycle fine 0 (1 ∷ []) untouched (refl, (refl, tt)) (λ e. refl) (λ e. refl)
      (λ e m. refl) init_done).0
