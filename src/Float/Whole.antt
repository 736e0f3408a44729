-- ===== src/Float/Whole.antt =====
-- Whole numbers as an instance of the interface, for tests and witnesses: decimal digits are read
-- and printed, a quotient is rounded towards zero.
use slurm_insights_exporter.Prelude.{
  ◌<◌, ℕ, zero, suc, ◌+◌, ◌-◌, ◌*◌, ◌/◌, ◌%◌, not, ◌&&◌, ◌||◌, [], ◌∷◌, Text, ltb, if◌then◌else◌,
  arith, ◌≢◌, Lacks, Bool-cases, inl, inr, ℤ, pos, negsuc, pos_part, neg_part, sub_ℕ, ltb_ℤ,
}
use slurm_insights_exporter.Float.{Float, IsIrreflexive}

abbrev add_ℤ : ℤ → ℤ → ℤ
add_ℤ a b = sub_ℕ (pos_part a + pos_part b) (neg_part a + neg_part b)

abbrev subtract_ℤ : ℤ → ℤ → ℤ
subtract_ℤ a b = sub_ℕ (pos_part a + neg_part b) (neg_part a + pos_part b)

abbrev mul_ℤ : ℤ → ℤ → ℤ
mul_ℤ a b =
    sub_ℕ (pos_part a * pos_part b + neg_part a * neg_part b)
      (pos_part a * neg_part b + neg_part a * pos_part b)

abbrev div_ℤ : ℤ → ℤ → ℤ
div_ℤ a b =
    sub_ℕ (pos_part a / pos_part b + neg_part a / neg_part b)
      (pos_part a / neg_part b + neg_part a / pos_part b)

abbrev value_from : ℕ → Text → ℕ
value_from n [] = n
value_from n (c ∷ s) =
    let rest = value_from (n * 10 + (c - b'0')) s in if ltb c b'0' || ltb b'9' c then 0 else rest

abbrev digits_from : ℕ → ℕ → Text → Text
digits_from zero n out = out
digits_from (suc f) n out =
    let more = digits_from f (n / 10) ((b'0' + n % 10) ∷ out) in
    if ltb n 10 then (b'0' + n % 10) ∷ out else more

abbrev print : ℤ → Text
print (pos n) = digits_from 40 n []
print (negsuc n) = b'-' ∷ digits_from 40 (suc n) []

-- No byte below the minus sign is printed.
module _ (b : ℕ) (low : b < b'-') where
  digits_from-Lacks : (f n : ℕ) (out : Text) → Lacks b out → Lacks b (digits_from f n out)
  digits_from-Lacks zero n out h = h
  digits_from-Lacks (suc f) n out h =
      let digit : b'0' + n % 10 ≢ b = (λ e. ground (arith, e, low)) in
      elim (Bool-cases (ltb n 10)) [
        | inl e ↦ rw e (digit, h)
        | inr e ↦ rw e (digits_from-Lacks f (n / 10) ((b'0' + n % 10) ∷ out) (digit, h))
      ]

  pub print-Lacks : (z : ℤ) → Lacks b (print z)
  print-Lacks (pos n) = digits_from-Lacks 40 n [] tt
  print-Lacks (negsuc n) = ((λ e. ground (arith, e, low)), digits_from-Lacks 40 (suc n) [] tt)

instance abbrev pub whole : Float ℤ
whole = record {
  of_int = λ z. z;
  add = add_ℤ;
  sub = subtract_ℤ;
  mul = mul_ℤ;
  div = div_ℤ;
  lt = ltb_ℤ;
  eq = λ a b. not (ltb_ℤ a b) && not (ltb_ℤ b a);
  parse = λ s. pos (value_from 0 s);
  format = print;
}

pub whole-IsIrreflexive : IsIrreflexive whole
whole-IsIrreflexive = record { irrefl = λ x. ground arith }
