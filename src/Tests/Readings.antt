-- ===== src/Tests/Readings.antt =====
-- internal/slurm/parse.go at concrete texts, with whole numbers for float64.
use mathlib.Core.Option
use slurm_insights_exporter.Prelude.{
  text_eq, ◌≡◌, ◌↔◌, lookup, List, [], ◌∷◌, ◌++◌, map, Text, codes, All, arith, ℤ, pos,
}
use slurm_insights_exporter.Prelude.{refl}
use slurm_insights_exporter.Float.{num}
use slurm_insights_exporter.Float.Whole.{whole, print-Lacks}
use slurm_insights_exporter.Strings.{to_lower, is_space, join, fields, trim_space}
use slurm_insights_exporter.Parse.{number, duration}
use slurm_insights_exporter.Collector.KeyValues.{tres_numeric, normalized_tres}
use slurm_insights_exporter.Collector.Tres.Naming.{normalized_tres_iff}
use slurm_insights_exporter.Parse.Gpu.{gpu_count}
use slurm_insights_exporter.Parse.Gpu.Counts.{IsCount, IsType, typed_colon, colon}
use slurm_insights_exporter.Parse.Gpu.Entries.{Part, gpu, other, gpu_count-join}
use slurm_insights_exporter.Parse.Durations.{IsField, clock, duration-clock}
use slurm_insights_exporter.Parse.Quantities.{
  IsNumeral, IsScaled, unit_table, memory_allocation-units,
}

abbrev two_rows : List (List Text)
two_rows = (codes "gpu" ∷ codes "up" ∷ []) ∷ (codes "cpu" ∷ [] ∷ codes "12" ∷ []) ∷ []

IsField-12 : IsField (codes "12")
unfolding is_space
IsField-12 = record {
  solid = ground arith;
  no_dot = ground arith;
  no_dash = ground arith;
  no_colon = ground arith;
}

duration-clock_example :
    let sum : ℤ → ℤ = λ days.
      whole.add
        (whole.add
          (whole.add (whole.mul days (num 86400)) (whole.mul (number (codes "12")) (num 3600)))
          (whole.mul (number (codes "12")) (num 60)))
        (number (codes "12")) in
    (duration (codes "12" ++ b'-' ∷ clock (codes "12") (codes "12") (codes "12"))
      ≡ sum (number (codes "12")))
    × (duration (clock (codes "12") (codes "12") (codes "12")) ≡ sum (num 0))
duration-clock_example =
    duration-clock (codes "12") (codes "12") (codes "12") (codes "12") IsField-12 IsField-12
      IsField-12 IsField-12

sixteen-IsNumeral : IsNumeral (codes "16")
sixteen-IsNumeral = record { nonempty = λ e. cc; numerals = ground arith }

memory_allocation-units_example : All (IsScaled (codes "16") (pos 8) (pos 2)) unit_table
memory_allocation-units_example =
    memory_allocation-units (codes "16") (pos 8) (pos 2) sixteen-IsNumeral

two_gpus-IsCount : IsCount (codes "2")
two_gpus-IsCount = record { nonempty = λ e. cc; digits = ground arith }

a100-IsType : IsType (codes "a100")
a100-IsType = record { nonempty = λ e. cc; chars = ground arith }

abbrev three_parts : List Part
three_parts =
    gpu b'g' b'p' b'u' (typed_colon (codes "a100")) (codes "2") (codes "(IDX:0-1)")
    ∷ other (codes "mps:100")
    ∷ gpu b'G' b'P' b'U' colon (codes "2") []
    ∷ []

gpu_count-join_example :
    gpu_count (codes "gpu:a100:2(IDX:0-1),mps:100,GPU:2")
    ≡ whole.add (whole.add (num 0) (number (codes "2"))) (number (codes "2"))
unfolding join text_eq to_lower
gpu_count-join_example = gpu_count-join ℤ three_parts (
  (refl, a100-IsType, two_gpus-IsCount, (refl, ground arith)),
  ((refl, ground arith), ((refl, tt, two_gpus-IsCount, tt), tt)),
)

print_test : whole.format (pos 1203) ≡ codes "1203"
print_test = refl

fields_test : fields (codes " a=1  b=2 ") ≡ codes "a=1" ∷ codes "b=2" ∷ []
unfolding fields
fields_test = refl

trim_test : trim_space (codes "  idle ") ≡ codes "idle"
unfolding trim_space is_space
trim_test = refl

-- Two ways to write four processors and eight bytes.
abbrev cpu_first : Text
cpu_first = codes "cpu=4,mem=8"

abbrev mem_first : Text
mem_first = codes "mem=8,cpu=4"

normalized_tres_iff_example :
    (normalized_tres (tres_numeric {F = ℤ} cpu_first)
      ≡ normalized_tres (tres_numeric {F = ℤ} mem_first))
    ↔ ((resource : Text)
        → Option.map whole.format (lookup resource (tres_numeric cpu_first))
          ≡ Option.map whole.format (lookup resource (tres_numeric mem_first)))
normalized_tres_iff_example =
    normalized_tres_iff ℤ (print-Lacks b',' (omega arith)) cpu_first mem_first
