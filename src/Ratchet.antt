-- ===== src/Ratchet.antt =====
-- scripts/coverage-ratchet.js, which compares the coverage of the tests with a baseline. Numbers of
-- JavaScript, the run of Jest and the clock are arguments; the files are the state, with the values
-- that JSON.parse reads from them, and what is written on the console is part of the answer.
pub mod Run
use gym_saas_be.Prelude.{
  ℕ, zero, suc, ◌-◌, Bool, true, false, Option, none, some, List, [], ◌∷◌, ◌++◌, map, Text, codes,
  if◌then◌else◌, length,
}
use gym_saas_be.Store.{Time}

pub record Numbers : Type 1 where
  pub Number : Type 0
  pub nought : Number
  pub subtract : Number → Number → Number
  pub negate : Number → Number
  pub is_less : Number → Number → Bool
  pub is_equal : Number → Number → Bool
  -- `parseFloat`, `none` for NaN; `toFixed(2)`; the literal 0.05.
  pub parse_float : Text → Option Number
  pub to_fixed : Number → Text
  pub tolerance : Number

pub data Metric : Type 0 where
  lines statements functions branches : Metric

abbrev pub metrics : List Metric
metrics = lines ∷ statements ∷ functions ∷ branches ∷ []

abbrev pub name_of : Metric → Text
name_of lines = codes "lines"
name_of statements = codes "statements"
name_of functions = codes "functions"
name_of branches = codes "branches"

-- `a.join(separator)`.
unfoldable pub join : Text → List Text → Text
join separator [] = []
join separator (a ∷ []) = a
join separator (a ∷ b ∷ rest) = a ++ separator ++ join separator (b ∷ rest)

unfoldable pub repeat : ℕ → ℕ → Text
repeat zero c = []
repeat (suc n) c = c ∷ repeat n c

-- `s.padEnd(n)`.
abbrev pub pad_end : ℕ → Text → Text
unfolding repeat
pad_end n s = s ++ repeat (n - length s) 32

abbrev pub lines_of : List Text → Text
unfolding join
lines_of texts = join (10 ∷ []) texts

module _ (n : Numbers) where
  -- What a key of the parsed files holds; a key that is not there is missing too.
  pub data Value : Type 0 where
    number : n.Number → Value
    text : Text → Value
    missing : Value

  pub record Coverage : Type 0 where
    pub of_lines : Value
    pub of_statements : Value
    pub of_functions : Value
    pub of_branches : Value

  pub record Baseline : Type 0 where
    pub coverage : Coverage
    pub timestamp : Time

  pub record Files : Type 0 where
    pub summary : Option Coverage
    pub baseline : Option Baseline

  abbrev pub value_at : Metric → Coverage → Value
  value_at lines c = c.of_lines
  value_at statements c = c.of_statements
  value_at functions c = c.of_functions
  value_at branches c = c.of_branches

  abbrev pub or_nought : Option n.Number → n.Number
  or_nought none = n.nought
  or_nought (some x) = x

  -- `parseFloat("Unknown")` is NaN, which counts as 0 like the word itself.
  unfoldable pub to_number : Value → n.Number
  to_number (number x) = x
  to_number (text s) = or_nought (n.parse_float s)
  to_number missing = n.nought

  abbrev pub format_pct : Value → Text
  unfolding to_number
  format_pct v = n.to_fixed (to_number v)

  unfoldable pub format_diff : Value → Value → Text
  unfolding to_number
  format_diff old new =
      let diff = n.subtract (to_number new) (to_number old) in
      if n.is_equal diff n.nought
      then codes "(=)"
      else codes "("
        ++ (if n.is_less n.nought diff then codes "+" else [])
        ++ n.to_fixed diff
        ++ codes "%)"

  pub record Comparison : Type 0 where
    pub metric : Metric
    pub old_val : n.Number
    pub new_val : n.Number
    pub diff : n.Number
    pub failed : Bool

  abbrev pub compare_metric : Coverage → Coverage → Metric → Comparison
  unfolding to_number
  compare_metric baseline current metric =
      let old_val = to_number (value_at metric baseline) in
      let new_val = to_number (value_at metric current) in
      let diff = n.subtract new_val old_val in
      record {
        metric = metric;
        old_val = old_val;
        new_val = new_val;
        diff = diff;
        failed = n.is_less diff (n.negate n.tolerance);
      }

  -- The loop over the metrics, with the flag that it keeps.
  unfoldable pub compare_each :
      Coverage → Coverage → List Metric → List Comparison × Bool → List Comparison × Bool
  unfolding compare_metric
  compare_each baseline current [] (results, has_regression) = (results, has_regression)
  compare_each baseline current (metric ∷ rest) (results, has_regression) =
      let result = compare_metric baseline current metric in
      compare_each baseline current rest
        (results ++ (result ∷ []), (if result.failed then true else has_regression))

  unfoldable pub compare_coverage : Coverage → Coverage → List Comparison × Bool
  unfolding compare_each
  compare_coverage baseline current = compare_each baseline current metrics ([], false)

  abbrev pub new_baseline_line : Metric × n.Number → Text
  new_baseline_line (metric, new_val) =
      codes "  " ++ pad_end 12 (name_of metric) ++ codes ": " ++ n.to_fixed new_val ++ codes "%"

  abbrev pub result_line : Comparison → Text
  unfolding format_diff
  result_line r =
      codes "  "
      ++ pad_end 12 (name_of r.metric)
      ++ codes ": "
      ++ n.to_fixed r.old_val
      ++ codes "% -> "
      ++ n.to_fixed r.new_val
      ++ codes "% "
      ++ format_diff (number r.old_val) (number r.new_val)
      ++ (if r.failed then codes " <- FAILED" else [])

  abbrev pub rule : Text
  unfolding repeat
  rule = repeat 50 61

  -- `printResults` for a new baseline, and for a comparison: the texts given to `console.log`.
  unfoldable pub print_new_baseline : List (Metric × n.Number) → List Text
  unfolding lines_of rule
  print_new_baseline results =
      lines_of ([] ∷ rule ∷ [])
        ∷ lines_of (codes "Coverage baseline created:" ∷ [] ∷ [])
        ∷ map new_baseline_line results
      ++ (lines_of ([] ∷ codes "Baseline saved to .coverage-baseline.json" ∷ []) ∷ [])

  unfoldable pub print_comparison : List Comparison → Bool → List Text
  unfolding result_line lines_of rule
  print_comparison results has_regression =
      lines_of ([] ∷ rule ∷ [])
        ∷ lines_of (
            (if has_regression
              then codes "Coverage regression detected!"
              else codes "Coverage ratchet passed")
            ∷ []
            ∷ [])
        ∷ map result_line results
      ++ (lines_of (
            []
            ∷ (if has_regression
                then codes "Coverage cannot decrease. Add more tests to fix."
                else codes "Baseline updated.")
            ∷ [])
          ∷ lines_of (rule ∷ [] ∷ [])
          ∷ [])
