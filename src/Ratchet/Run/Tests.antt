-- ===== src/Ratchet/Run/Tests.antt =====
-- The ratchet on numbers that are hundredths of a percent, and the theorem applied to a run.
use gym_saas_be.Prelude.{ℕ, ◌+◌, ◌≡◌, refl, ◌⊎◌, true, none, some, [], codes, ltb, ◌==◌, print}
use gym_saas_be.Ratchet.{Numbers, Coverage, Files, number, compare_coverage}
use gym_saas_be.Ratchet.Run.{Ended, Jest, command_of, ratchet}
use gym_saas_be.Ratchet.Run.Passed.{IsPassed, IsFailed, ratchet_lem}

-- A difference of two natural numbers.
abbrev hundredths : Numbers
hundredths = record {
  Number = ℕ × ℕ;
  nought = (0, 0);
  subtract = λ a b. (a.0 + b.1, a.1 + b.0);
  negate = λ a. (a.1, a.0);
  is_less = λ a b. ltb (a.0 + b.1) (b.0 + a.1);
  is_equal = λ a b. a.0 + b.1 == b.0 + a.1;
  parse_float = λ s. none;
  to_fixed = λ a. print a.0;
  tolerance = (5, 0);
}

abbrev covered : ℕ → Coverage hundredths
covered x = record {
  of_lines = number (x, 0);
  of_statements = number (9000, 0);
  of_functions = number (9000, 0);
  of_branches = number (8000, 0);
}

abbrev stored : ℕ → Files hundredths
stored x = record {
  summary = none;
  baseline = some (record { coverage = covered x; timestamp = 1 });
}

abbrev measures : ℕ → Jest hundredths
measures x = λ command summary. (true, some (covered x))

run : ℕ → ℕ → Ended hundredths
unfolding ratchet
run old new = ratchet hundredths (measures new) [] (codes "coverage-summary.json") 2 (stored old)

runs : Unit {0}
unfolding run ratchet compare_coverage
runs = tt

-- A drop of a tenth of a percent fails; two runs that drop by half of that each both pass.
large_drop : (run 9000 8990).exit_code ≡ 1
unfolding runs
large_drop = refl

small_drops : ((run 9000 8995).exit_code ≡ 0) × ((run 8995 8990).exit_code ≡ 0)
unfolding runs
small_drops = (refl, refl)

ratchet_lem_example :
    let result = measures 8995 (command_of []) none in
    let e = ratchet hundredths (measures 8995) [] (codes "coverage-summary.json") 2 (stored 9000) in
    IsPassed hundredths result 2 (stored 9000) e ⊎ IsFailed hundredths result (stored 9000) e
unfolding runs
ratchet_lem_example =
    ratchet_lem hundredths (measures 8995) [] (codes "coverage-summary.json") 2 (stored 9000)
