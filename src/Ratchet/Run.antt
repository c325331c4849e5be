-- ===== src/Ratchet/Run.antt =====
-- scripts/coverage-ratchet.js: a run of the script, from Jest to the exit code.
pub mod Passed
mod Tests
use gym_saas_be.Prelude.{
  ℕ, Bool, true, false, Option, none, some, List, [], ◌∷◌, ◌++◌, map, Text, codes, if◌then◌else◌,
}
use gym_saas_be.Store.{Time}
use gym_saas_be.Ratchet.{
  Numbers, Coverage, Baseline, Files, Metric, metrics, value_at, to_number, join, lines_of,
  compare_coverage, print_comparison, print_new_baseline,
}

-- The arguments, joined; none and a single empty one are the same.
abbrev pub with_arguments : Text → Text
with_arguments [] = codes "npm run test:cov"
with_arguments (c ∷ s) = codes "npm run test:cov -- " ++ (c ∷ s)

abbrev pub command_of : List Text → Text
unfolding join
command_of arguments = with_arguments (join (codes " ") arguments)

module _ (n : Numbers) where
  -- What the run ends with: the exit code, the texts on the console, and the files.
  pub record Ended : Type 0 where
    pub exit_code : ℕ
    pub console : List Text
    pub files : Files n

  -- `npm run test:cov`: whether it succeeds, and the summary that is there afterwards.
  abbrev pub Jest : Type 0
  Jest = Text → Option (Coverage n) → Bool × Option (Coverage n)

  unfoldable pub save_baseline : Coverage n → Time → Files n → Files n
  save_baseline coverage now files = record files {
    baseline = some (record { coverage = coverage; timestamp = now });
  }

  abbrev pub create_baseline : Time → List Text → Coverage n → Files n → Ended
  unfolding save_baseline print_new_baseline to_number
  create_baseline now console current files = record {
    exit_code = 0;
    console =
        console
        ++ print_new_baseline n (map (λ m. (m, to_number n (value_at n m current))) metrics);
    files = save_baseline current now files;
  }

  abbrev pub update_baseline : Time → List Text → Coverage n → Baseline n → Files n → Ended
  unfolding save_baseline print_comparison compare_coverage
  update_baseline now console current baseline files =
      let (results, has_regression) = compare_coverage n baseline.coverage current in
      let printed = console ++ print_comparison n results has_regression in
      if has_regression
      then record { exit_code = 1; console = printed; files = files }
      else record { exit_code = 0; console = printed; files = save_baseline current now files }

  -- Once Jest has succeeded.
  unfoldable pub after_jest : Time → List Text → Text → Files n → Ended
  unfolding create_baseline update_baseline
  after_jest now console summary_path files = elim files.summary [
    | none ↦ record {
      exit_code = 1;
      console = console ++ ((codes "Coverage summary not found at: " ++ summary_path) ∷ []);
      files = files;
    }
    | some current ↦ elim files.baseline [
      | none ↦ create_baseline now console current files
      | some baseline ↦ update_baseline now console current baseline files
    ]
  ]

  unfoldable pub ratchet : Jest → List Text → Text → Time → Files n → Ended
  unfolding after_jest lines_of command_of
  ratchet jest arguments summary_path now files =
      let (success, summary) = jest (command_of arguments) files.summary in
      let written = record files { summary = summary } in
      let console = lines_of (codes "Running Jest with coverage..." ∷ [] ∷ []) ∷ [] in
      if success then after_jest now console summary_path written else record {
        exit_code = 1;
        console = console ++ (lines_of ([] ∷ codes "Jest coverage run failed." ∷ []) ∷ []);
        files = written;
      }
