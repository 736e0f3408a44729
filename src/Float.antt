-- ===== src/Float.antt =====
-- Go's float64 as an interface: the constants, the arithmetic and comparisons that the exporter
-- uses, `strconv.ParseFloat` and the shortest `'g'` format. IEEE rounding stays abstract.
pub mod Whole
use slurm_insights_exporter.Prelude.{ℕ, Bool, Text, ℤ, pos, ◌≡◌, false}

pub record Float (F : Type 0) : Type 0 where
  pub of_int : ℤ → F
  pub add : F → F → F
  pub sub : F → F → F
  pub mul : F → F → F
  pub div : F → F → F
  pub lt : F → F → Bool
  pub eq : F → F → Bool
  -- The value that `strconv.ParseFloat(s, 64)` returns, whatever its error is.
  pub parse : Text → F
  -- `strconv.FormatFloat(v, 'g', -1, 64)`, and `%g`.
  pub format : F → Text

-- A numeral of the source, as a float64.
abbrev pub num : {F : Type 0} ⦃fl : Float F⦄ → ℕ → F
num ⦃fl⦄ n = fl.of_int (pos n)

-- What IEEE 754 says of the order: nothing is below itself.
pub record IsIrreflexive {F : Type 0} (fl : Float F) : Type 0 where
  pub irrefl : (x : F) → fl.lt x x ≡ false
