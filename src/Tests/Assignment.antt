-- ===== src/Tests/Assignment.antt =====
-- Runs of the range assignor, and its theorems at concrete inputs.
use mathlib.Core.List.{Memᴰ, Permᴰ}
use bunnymq.Prelude.{
  ℕ, ◌≡◌, ◌≤◌, ◌<◌, ◌+◌, refl, ap, arith, pos, [], ◌∷◌, List, ℤ, length, get_elem?, some,
}
use bunnymq.Prelude.Keys.{Bytes, bytes, bytes_le, bytes-Eq, bytes-Ord}
use bunnymq.Prelude.Sort.{sort}
use bunnymq.Prelude.Maps.{Map, lookup}
use bunnymq.Prelude.Distinct.{Distinct}
use bunnymq.Metadata.Types.{TopicPartition}
use bunnymq.Assignment.{range_assign, partition_count}
use bunnymq.Assignment.Shares.{shares, range_assign-shares, range_assign_order}
use bunnymq.Assignment.Ranges.{partition_of, assigned_to}
use bunnymq.Assignment.Owners.{
  CountsFit, range_assign_owner, range_assign_sound, range_assign_balanced,
}

abbrev two_members : List Bytes
two_members = bytes "b" ∷ bytes "a" ∷ []

abbrev swapped_members : List Bytes
swapped_members = bytes "a" ∷ bytes "b" ∷ []

abbrev one_topic : List Bytes
one_topic = bytes "t" ∷ []

abbrev three_partitions : Map Bytes ℤ
three_partitions = (bytes "t", pos 3) ∷ []

abbrev tp : Bytes → ℤ → TopicPartition
tp t p = record { topic = t; partition_id = p }

run_two :
    range_assign two_members one_topic three_partitions
    ≡ (bytes "b", tp (bytes "t") (pos 2) ∷ [])
      ∷ (bytes "a", tp (bytes "t") (pos 0) ∷ tp (bytes "t") (pos 1) ∷ [])
      ∷ []
unfolding range_assign
run_two = refl

abbrev first_byte : Bytes → ℕ
first_byte [] = 0
first_byte (x ∷ xs) = x

two_members-Distinct : Distinct two_members
two_members-Distinct = (((λ p. omega (arith, ap first_byte p)), tt), (tt, tt))

three_partitions-Fit : CountsFit three_partitions
three_partitions-Fit = ((omega arith, omega arith), tt)

b-member : Memᴰ (bytes "b") two_members
b-member = Memᴰ.head refl

a-member : Memᴰ (bytes "a") two_members
a-member = Memᴰ.tail (Memᴰ.head refl)

t-topic : Memᴰ (bytes "t") one_topic
t-topic = Memᴰ.head refl

three : 2 < partition_count three_partitions (bytes "t")
unfolding partition_count
three = omega arith

range_assign_owner_example :
    (owner : Bytes) × Memᴰ owner two_members
    × Memᴰ
        (partition_of (bytes "t") 2)
        (assigned_to (range_assign two_members one_topic three_partitions) owner)
    × ((m : Bytes)
        → Memᴰ m two_members
        → Memᴰ
            (partition_of (bytes "t") 2)
            (assigned_to (range_assign two_members one_topic three_partitions) m)
        → m ≡ owner)
range_assign_owner_example =
    range_assign_owner two_members one_topic three_partitions two_members-Distinct
      three_partitions-Fit (bytes "t") 2 (omega arith) t-topic three

two_of_b :
    Memᴰ
      (tp (bytes "t") (pos 2))
      (assigned_to (range_assign two_members one_topic three_partitions) (bytes "b"))
unfolding range_assign lookup
two_of_b = Memᴰ.head refl

range_assign_sound_example :
    (t : Bytes) × (p : ℕ) × Memᴰ t one_topic
    × (p < partition_count three_partitions t)
    × (tp (bytes "t") (pos 2) ≡ partition_of t p)
range_assign_sound_example =
    range_assign_sound two_members one_topic three_partitions two_members-Distinct
      three_partitions-Fit (bytes "b") (tp (bytes "t") (pos 2)) b-member two_of_b

range_assign_balanced_example :
    length (assigned_to (range_assign two_members one_topic three_partitions) (bytes "a"))
    ≤ length (assigned_to (range_assign two_members one_topic three_partitions) (bytes "b")) + 1
range_assign_balanced_example =
    range_assign_balanced two_members (bytes "t") three_partitions (bytes "a") (bytes "b")
      two_members-Distinct a-member b-member

b-second : get_elem? (sort two_members) 1 ≡ some (bytes "b")
unfolding sort bytes_le
b-second = refl

range_assign-shares_example :
    lookup (bytes "b") (range_assign two_members one_topic three_partitions)
    ≡ some (shares three_partitions (length (sort two_members)) 1 (sort one_topic))
range_assign-shares_example =
    range_assign-shares two_members one_topic three_partitions 1 (bytes "b") two_members-Distinct
      b-second

range_assign_order_example :
    range_assign two_members one_topic three_partitions
    ≡ range_assign swapped_members one_topic three_partitions
range_assign_order_example =
    range_assign_order two_members swapped_members one_topic one_topic three_partitions
      (Permᴰ.swap refl refl) (Permᴰ.cons refl Permᴰ.nil)
