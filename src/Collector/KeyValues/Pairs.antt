-- ===== src/Collector/KeyValues/Pairs.antt =====
-- `tresValues` of internal/slurm/collector.go on a printed list of pairs.
use slurm_insights_exporter.Prelude.{
  ◌≡◌, ◌≢◌, refl, sym, ◌∙◌, ap, Bool-cases, inl, inr, List, [], ◌∷◌, ◌++◌, map, Option, none, some,
  Text, Dict, lookup, insert, lookup-insert, text_eq, text_eq_iff, All, All-append, Lacks,
  if◌then◌else◌, arith,
}
use slurm_insights_exporter.Strings.{join, cut}
use slurm_insights_exporter.Strings.Parts.{split-join, cut-append}
use slurm_insights_exporter.Collector.KeyValues.{put_pair, put_pairs, tres_values}

-- `key=value`
abbrev pub print_pair : Text × Text → Text
print_pair (k, v) = k ++ b'=' ∷ v

-- A pair whose parts hold no separator: the key is not empty, the value may hold `=`.
pub record IsPair (e : Text × Text) : Type 0 where
  pub key : e.0 ≢ []
  pub key_part : Lacks b'=' e.0
  pub key_text : Lacks b',' e.0
  pub value_text : Lacks b',' e.1

abbrev pub later_or : Option Text → Option Text → Option Text
later_or (some v) earlier = some v
later_or none earlier = earlier

-- The value of the last pair with a key.
abbrev pub last_value : Text → List (Text × Text) → Option Text
last_value k [] = none
last_value k ((j, v) ∷ m) = later_or (last_value k m) (if text_eq j k then some v else none)

later_or_assoc : (a b c : Option Text) → later_or (later_or a b) c ≡ later_or a (later_or b c)
later_or_assoc (some v) b c = refl
later_or_assoc none b c = refl

put_pair_lem :
    (e : Text × Text) (m : Dict Text)
    → IsPair e
    → put_pair (cut b'=' (print_pair e)) m ≡ insert e.0 e.1 m
unfolding put_pair
put_pair_lem (k, v) m h = rw (cut-append b'=' k v h.key_part) (elim (Bool-cases (text_eq k [])) [
  | inl e ↦ absurd (h.key ((text_eq_iff k []).0 e))
  | inr e ↦ rw e refl
])

later_or-none : (a : Option Text) → later_or a none ≡ a
later_or-none (some v) = refl
later_or-none none = refl

lookup-insert_later :
    (j k v : Text) (m : Dict Text)
    → lookup k (insert j v m) ≡ later_or (if text_eq j k then some v else none) (lookup k m)
lookup-insert_later j k v m = ground (arith, lookup-insert j k v m)

lookup-put_pairs :
    (k : Text) (es : List (Text × Text)) (m : Dict Text)
    → All IsPair es
    → lookup k (put_pairs (map print_pair es) m) ≡ later_or (last_value k es) (lookup k m)
unfolding put_pairs
lookup-put_pairs k [] m h = refl
lookup-put_pairs k ((j, v) ∷ es) m h =
    ap (λ n. lookup k (put_pairs (map print_pair es) n)) (put_pair_lem (j, v) m h.0)
    ∙ (lookup-put_pairs k es (insert j v m) h.1
        ∙ ap (later_or (last_value k es)) (lookup-insert_later j k v m)
        ∙ sym (later_or_assoc (last_value k es) _ (lookup k m)))

print_pair-Lacks : (es : List (Text × Text)) → All IsPair es → All (Lacks b',') (map print_pair es)
print_pair-Lacks [] h = tt
print_pair-Lacks ((k, v) ∷ es) h =
    (All-append _ k (b'=' ∷ v) h.0.key_text (ground arith, h.0.value_text), print_pair-Lacks es h.1)

-- A list of pairs `key=value` with commas between them is read back: a key has the value of its last
-- pair and no other key is there, for at least one pair, no key empty or with `=` or `,` in it, and no
-- value with `,` in it.
pub lookup-tres_values :
    (k : Text) (es : List (Text × Text))
    → es ≢ []
    → All IsPair es
    → lookup k (tres_values (join b',' (map print_pair es))) ≡ last_value k es
unfolding tres_values
lookup-tres_values k [] n h = absurd (n refl)
lookup-tres_values k (e ∷ es) n h =
    rw (split-join b',' (map print_pair (e ∷ es)) (λ q. cc) (print_pair-Lacks (e ∷ es) h))
      (lookup-put_pairs k (e ∷ es) [] h ∙ unfold lookup in later_or-none _)
