-- ===== src/Ratchet/Run/Passed.antt =====
-- The ratchet of the coverage: when the script passes, and what it leaves as the baseline.
use gym_saas_be.Prelude.{
  Bool, true, false, Option, none, some, List, Text, arith, ◌≡◌, ◌↔◌, ◌⊎◌, inl, inr, Option-cases,
  Bool-cases, subst,
}
use gym_saas_be.Store.{Time}
use gym_saas_be.Ratchet.{
  Numbers, Coverage, Baseline, Files, Metric, lines, statements, functions, branches, value_at,
  to_number, compare_coverage,
}
use gym_saas_be.Ratchet.Run.{Ended, Jest, command_of, after_jest, ratchet, save_baseline}

module _ (n : Numbers) where
  -- The metric has dropped by more than the tolerance.
  abbrev pub dropped : Coverage n → Coverage n → Metric → Bool
  dropped baseline current m =
      n.is_less
        (n.subtract (to_number n (value_at n m current)) (to_number n (value_at n m baseline)))
        (n.negate n.tolerance)

  pub Holds : Coverage n → Coverage n → Type 0
  Holds baseline current = (m : Metric) → dropped baseline current m ≡ false

  compare_coverage_iff :
      (baseline current : Coverage n)
      → ((compare_coverage n baseline current).1 ≡ false) ↔ Holds baseline current
  unfolding compare_coverage Holds
  compare_coverage_iff baseline current = (
    (λ e m. elim m [
      | lines ↦ ground arith
      | statements ↦ ground arith
      | functions ↦ ground arith
      | branches ↦ ground arith
    ]),
    (λ h. ground (arith, h lines, h statements, h functions, h branches)),
  )

  some_dropped :
      (baseline current : Coverage n)
      → (compare_coverage n baseline current).1 ≡ true
      → (m : Metric) × (dropped baseline current m ≡ true)
  unfolding compare_coverage
  some_dropped baseline current e = elim (Bool-cases (dropped baseline current lines)) [
    | inl h ↦ (lines, h)
    | inr h1 ↦ elim (Bool-cases (dropped baseline current statements)) [
      | inl h ↦ (statements, h)
      | inr h2 ↦ elim (Bool-cases (dropped baseline current functions)) [
        | inl h ↦ (functions, h)
        | inr h3 ↦ (branches, ground arith)
      ]
    ]
  ]

  -- Jest succeeded with a summary, no metric has dropped from the baseline, if there is one, and
  -- the summary is the baseline now.
  pub record IsPassed (jest : Bool × Option (Coverage n)) (now : Time) (files : Files n)
      (e : Ended n) : Type 0 where
    pub current : Coverage n
    pub exit_code : e.exit_code ≡ 0
    pub success : jest ≡ (true, some current)
    pub kept : (b : Baseline n) → files.baseline ≡ some b → Holds b.coverage current
    pub saved : e.files ≡ record {
      summary = some current;
      baseline = some (record { coverage = current; timestamp = now });
    }

  -- Jest failed, or there is no summary, or a metric has dropped; the baseline is as it was.
  pub record IsFailed (jest : Bool × Option (Coverage n)) (files : Files n) (e : Ended n)
      : Type 0 where
    pub exit_code : e.exit_code ≡ 1
    pub reason :
        (jest.0 ≡ false)
        ⊎ (jest.1 ≡ none)
        ⊎ (b : Baseline n) × (c : Coverage n) × (m : Metric) × (files.baseline ≡ some b)
          × (jest.1 ≡ some c)
          × (dropped b.coverage c m ≡ true)
    pub same_baseline : e.files.baseline ≡ files.baseline

  -- The script ends in one of two ways. With 0: the tests passed, there was a coverage summary, and
  -- no metric has dropped from the baseline, if there is one, by more than the tolerance; then the
  -- coverage of this run is the new baseline. With 1: the tests failed, or there was no summary, or a
  -- metric has dropped by more than the tolerance; then the baseline is as it was.
  pub ratchet_lem :
      (jest : Jest n) (arguments : List Text) (summary_path : Text) (now : Time) (files : Files n)
      → let result = jest (command_of arguments) files.summary in
        let e = ratchet n jest arguments summary_path now files in
        IsPassed result now files e ⊎ IsFailed result files e
  unfolding ratchet after_jest save_baseline
  ratchet_lem jest arguments summary_path now files =
      let result = jest (command_of arguments) files.summary in
      elim (Bool-cases result.0) [
        | inr bad ↦
            inr
              (record { exit_code = ground arith; reason = inl bad; same_baseline = ground arith })
        | inl good ↦ elim (Option-cases result.1) [
          | inl q ↦ inr (record {
            exit_code = ground arith;
            reason = inr (inl q);
            same_baseline = ground arith;
          })
          | inr (c, q) ↦ elim (Option-cases files.baseline) [
            | inl q2 ↦ inl (record {
              current = c;
              exit_code = ground arith;
              success = ground arith;
              kept = λ b q3. absurd (ground arith);
              saved = ground arith;
            })
            | inr (b, q2) ↦ elim (Bool-cases (compare_coverage n b.coverage c).1) [
              | inl h ↦
                  let (m, h2) = some_dropped b.coverage c h in
                  inr (record {
                    exit_code = ground arith;
                    reason = inr (inr (b, c, m, q2, q, h2));
                    same_baseline = ground arith;
                  })
              | inr h ↦ inl (record {
                current = c;
                exit_code = ground arith;
                success = ground arith;
                kept = λ b2 q3.
                    let same : b ≡ b2 = ground arith in
                    subst (λ (x : Baseline n). Holds x.coverage c) same
                      ((compare_coverage_iff b.coverage c).0 h);
                saved = ground arith;
              })
            ]
          ]
        ]
      ]
