-- ===== src/Producer/Calls.antt =====
-- What single calls of distributing_producer.go lead to.
use kafka.Base.{
  ℕ, ◌<◌, ◌≡◌, refl, ap, List, none, some, Option, true, false, leb, arith, inl, inr, Bool-cases,
  ◌^◌, ◌%◌,
}
use native.Mathlib.Nat.{mod-eq_of_lt}
use kafka.Base.Maps.{string_eq, string_same_iff, lookup-assign}
use kafka.Base.Program.{after}
use kafka.Producer.Line.{make_line}
use kafka.Producer.Manager.{
  PartitionManager, is_count, get_partition_count, set_locked, set_partition_count,
}
use kafka.Producer.Turns.{same_self}

is_count_iff : (count : ℕ) (o : Option ℕ) → is_count count o ≡ true → o ≡ some count
is_count_iff count none h = cc
is_count_iff count (some n) h = ap (λ (k : ℕ). some k) (ground arith)

-- After SetPartitionCount with a count that is not negative, GetPartitionCount returns that count,
-- whether it was known before or not.
pub get_partition_count-set :
    (topic : List ℕ) (count : ℕ) (m : PartitionManager)
    → count < 2 ^ 31
    → get_partition_count topic (after (set_partition_count topic count m) m) ≡ some count
unfolding set_partition_count set_locked get_partition_count make_line
get_partition_count-set topic count m small =
    elim (Bool-cases (is_count count (get_partition_count topic m))) [
      | inl h ↦ rw h (is_count_iff count (get_partition_count topic m) h)
      | inr h ↦
          let fits : leb (2 ^ 31) count ≡ false = ground arith in
          let exact : count % 2 ^ 32 ≡ count = mod-eq_of_lt (omega arith) in
          rw
            (
              h,
              fits,
              lookup-assign topic topic m.made m.available_partitions,
              (string_same_iff topic topic).1 refl,
              same_self m.made,
              exact,
            )
            refl
    ]
