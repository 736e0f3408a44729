-- ===== src/Clock.antt =====
-- Go's `time.Duration` and `time.Since`, in nanoseconds.
use slurm_insights_exporter.Prelude.{
  ℕ, suc, ◌+◌, ◌-◌, ◌/◌, ◌%◌, ◌^◌, min, ℤ, pos, negsuc, sub_ℕ, leb, if◌then◌else◌, Text, Option,
}
use slurm_insights_exporter.Float.{Float, num}
use slurm_insights_exporter.Model.{Time}

abbrev pub Duration : Type 0
Duration = ℤ

abbrev pub max_duration : ℕ
max_duration = 2 ^ 63 - 1

-- The formats of Go's `time` package that the exporter calls, for the layout
-- `2006-01-02T15:04:05`: `time.Parse`, `Time.Format` and `Duration.String`.
pub record Formats : Type 0 where
  pub parse_time : Text → Option Time
  pub format_time : Time → Text
  pub format_duration : Duration → Text

-- `t.Sub(u)`, which saturates.
unfoldable pub time_sub : Time → Time → Duration
time_sub t u =
    if leb u t then pos (min (t - u) max_duration) else negsuc (min (u - t - 1) max_duration)

-- `t.Add(-d)`, for a result that is not before the zero time.
unfoldable pub earlier : Time → Duration → Time
earlier t (pos n) = t - n
earlier t (negsuc n) = t + suc n

-- `t.Unix()`: whole seconds since 1970, of a time counted from the year 1.
unfoldable pub unix : Time → ℤ
unix t = sub_ℕ (t / 1_000_000_000) 62_135_596_800

-- `d.Seconds()`.
unfoldable pub seconds : {F : Type 0} ⦃fl : Float F⦄ → Duration → F
seconds ⦃fl⦄ (pos n) =
    fl.add (fl.of_int (pos (n / 1_000_000_000)))
      (fl.div (fl.of_int (pos (n % 1_000_000_000))) (num 1_000_000_000))
seconds ⦃fl⦄ (negsuc n) =
    fl.add (fl.of_int (sub_ℕ 0 (suc n / 1_000_000_000)))
      (fl.div (fl.of_int (sub_ℕ 0 (suc n % 1_000_000_000))) (num 1_000_000_000))
