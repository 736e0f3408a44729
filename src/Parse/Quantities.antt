-- ===== src/Parse/Quantities.antt =====
-- `parseBytes` and `memoryAllocation` of internal/slurm/parse.go on a number with a unit and a scope.
use slurm_insights_exporter.Prelude.{
  ℕ, ◌≡◌, ◌≢◌, refl, Bool, true, false, List, [], ◌∷◌, ◌++◌, some, arith, Text, Bool-cases, inl,
  inr, All, All-append, All-imp, codes, text_eq, text_eq_iff, if◌then◌else◌, ◌==◌, ◌||◌,
}
use slurm_insights_exporter.Float.{Float}
use slurm_insights_exporter.Strings.{is_space, trim_space, to_upper, to_lower}
use slurm_insights_exporter.Strings.Trim.{IsSolid, trim_space_self}
use slurm_insights_exporter.Parse.{
  is_digit, is_unit, is_scope, span, quantity, quantity_tail, power, number, scale, bytes_of,
  parse_bytes, allocation_of, memory_allocation,
}

-- `[0-9.]`
abbrev is_numeral : ℕ → Bool
is_numeral c = is_digit c || c == b'.'

-- Digits and dots, at least one.
pub record IsNumeral (d : Text) : Type 0 where
  pub nonempty : d ≢ []
  pub numerals : All (λ c. is_numeral c ≡ true) d

span_stop :
    (p : ℕ → Bool) (d : Text) (c : ℕ) (r : Text)
    → All (λ c. p c ≡ true) d
    → p c ≡ false
    → span p (d ++ c ∷ r) ≡ (d, c ∷ r)
unfolding span
span_stop p [] c r a h = rw h
span_stop p (x ∷ d) c r a h = rw (a.0, span_stop p d c r a.1 h)

span_all : (p : ℕ → Bool) (d : Text) → All (λ c. p c ≡ true) d → span p d ≡ (d, [])
unfolding span
span_all p [] a = refl
span_all p (x ∷ d) a = rw (a.0, span_all p d a.1)

numeral_solid : (c : ℕ) → is_numeral c ≡ true → is_space c ≡ false
unfolding is_space
numeral_solid c h = ground arith

numerals-IsSolid : (d : Text) → All (λ c. is_numeral c ≡ true) d → IsSolid d
numerals-IsSolid [] a = tt
numerals-IsSolid (c ∷ d) a = (numeral_solid c a.0, numerals-IsSolid d a.1)

unit_solid : (u : ℕ) → is_unit u ≡ true → (is_space u ≡ false) × (is_numeral u ≡ false)
unfolding is_space to_upper text_eq
unit_solid u h = ground arith

scope_solid : (u : ℕ) → is_scope u ≡ true → (is_space u ≡ false) × (is_unit u ≡ false)
unfolding is_space to_lower to_upper text_eq
scope_solid u h = ground arith

numeral-ne-nil : (d : Text) → IsNumeral d → text_eq d [] ≡ false
numeral-ne-nil d h = elim (Bool-cases (text_eq d [])) [
  | inl e ↦ absurd (h.nonempty ((text_eq_iff d []).0 e))
  | inr e ↦ e
]

quantity_of :
    (d : Text) (c : ℕ) (r : Text)
    → IsNumeral d
    → is_numeral c ≡ false
    → quantity (d ++ c ∷ r) ≡ quantity_tail d (c ∷ r)
unfolding quantity
quantity_of d c r h n = rw (span_stop is_numeral d c r h.numerals n, numeral-ne-nil d h)

-- A number, a unit and a scope.
quantity_scoped :
    (d : Text) (u v : ℕ)
    → IsNumeral d
    → is_unit u ≡ true
    → is_scope v ≡ true
    → quantity (trim_space (d ++ u ∷ v ∷ []))
      ≡ some (record { digits = d; suffix = u ∷ []; scope = v ∷ [] })
quantity_scoped d u v h p q =
    let (u_solid, u_stop) = unit_solid u p in
    let solid =
      All-append (λ c. is_space c ≡ false) d (u ∷ v ∷ []) (numerals-IsSolid d h.numerals)
        (u_solid, ((scope_solid v q).0, tt)) in
    rw (trim_space_self (d ++ u ∷ v ∷ []) solid, quantity_of d u (v ∷ []) h u_stop)
      (unfold quantity_tail in rw (p, q))

-- A number and a unit.
quantity_plain :
    (d : Text) (u : ℕ)
    → IsNumeral d
    → is_unit u ≡ true
    → quantity (trim_space (d ++ u ∷ []))
      ≡ some (record { digits = d; suffix = u ∷ []; scope = [] })
quantity_plain d u h p =
    let (u_solid, u_stop) = unit_solid u p in
    let solid =
      All-append (λ c. is_space c ≡ false) d (u ∷ []) (numerals-IsSolid d h.numerals)
        (u_solid, tt) in
    rw (trim_space_self (d ++ u ∷ []) solid, quantity_of d u [] h u_stop)
      (unfold quantity_tail in rw p)

-- The units of the source with the power of 1024 that each stands for.
abbrev pub unit_table : List (ℕ × ℕ)
unit_table =
    (b'K', 1)
    ∷ (b'M', 2)
    ∷ (b'G', 3)
    ∷ (b'T', 4)
    ∷ (b'P', 5)
    ∷ (b'E', 6)
    ∷ (b'k', 1)
    ∷ (b'm', 2)
    ∷ (b'g', 3)
    ∷ (b't', 4)
    ∷ (b'p', 5)
    ∷ (b'e', 6)
    ∷ []

abbrev IsUnit : ℕ × ℕ → Type 0
IsUnit (u, k) = (is_unit u ≡ true) × (power (to_upper (u ∷ [])) ≡ k)

unit_table-IsUnit : All IsUnit unit_table
unfolding to_upper text_eq power
unit_table-IsUnit = ground arith

module _ {F : Type 0} ⦃fl : Float F⦄ where
  open fl use {mul}

  parse_bytes_lem :
      (d : Text) (u k : ℕ)
      → IsNumeral d
      → IsUnit (u, k)
      → ◌≡◌ {A = F} (parse_bytes (d ++ u ∷ [])) (scale k (number d))
  unfolding parse_bytes bytes_of
  parse_bytes_lem d u k h p = rw (quantity_plain d u h p.0, p.1)

  memory_allocation_lem :
      (d : Text) (u k v : ℕ) (cpus nodes : F)
      → IsNumeral d
      → IsUnit (u, k)
      → is_scope v ≡ true
      → memory_allocation (d ++ u ∷ v ∷ []) cpus nodes
        ≡ mul (scale k (number d)) (if text_eq (to_lower (v ∷ [])) (codes "c") then cpus else nodes)
  unfolding memory_allocation allocation_of parse_bytes bytes_of
  memory_allocation_lem d u k v cpus nodes h p q =
      rw (quantity_scoped d u v h p.0 q, p.1) (ground arith)

  memory_allocation_unscoped :
      (d : Text) (u k : ℕ) (cpus nodes : F)
      → IsNumeral d
      → IsUnit (u, k)
      → memory_allocation (d ++ u ∷ []) cpus nodes ≡ scale k (number d)
  unfolding memory_allocation allocation_of parse_bytes bytes_of to_lower text_eq
  memory_allocation_unscoped d u k cpus nodes h p = rw (quantity_plain d u h p.0, p.1)

  -- The three readings of memory with the unit of a table's entry.
  abbrev pub IsScaled : Text → F → F → ℕ × ℕ → Type 0
  IsScaled d cpus nodes (u, k) =
      (memory_allocation (d ++ u ∷ b'c' ∷ []) cpus nodes ≡ mul (scale k (number d)) cpus)
      × (memory_allocation (d ++ u ∷ b'n' ∷ []) cpus nodes ≡ mul (scale k (number d)) nodes)
      × (memory_allocation (d ++ u ∷ []) cpus nodes ≡ scale k (number d))

  -- Memory per CPU, marked `c`, is multiplied by the CPUs, memory per node, marked `n`, by the
  -- nodes, and memory with no mark is the job's, for each unit of the table behind digits and dots.
  pub memory_allocation-units :
      (d : Text) (cpus nodes : F) → IsNumeral d → All (IsScaled d cpus nodes) unit_table
  unfolding to_lower text_eq
  memory_allocation-units d cpus nodes numeral =
      All-imp (IsScaled d cpus nodes) unit_table
        (λ e p. (
          memory_allocation_lem d e.0 e.1 b'c' cpus nodes numeral p refl,
          memory_allocation_lem d e.0 e.1 b'n' cpus nodes numeral p refl,
          memory_allocation_unscoped d e.0 e.1 cpus nodes numeral p,
        ))
        unit_table-IsUnit

module _ (F : Type 0) ⦃fl : Float F⦄ where
  -- Digits and dots with a unit are the number times 1024 to the unit's power, in either case of
  -- the letter.
  pub parse_bytes-units :
      (d : Text)
      → IsNumeral d
      → All (λ e. ◌≡◌ {A = F} (parse_bytes (d ++ e.0 ∷ [])) (scale e.1 (number d))) unit_table
  parse_bytes-units d numeral =
      All-imp _ unit_table (λ e p. parse_bytes_lem {F = F} d e.0 e.1 numeral p) unit_table-IsUnit
