-- ===== src/Partition/Sidecar.antt =====
-- The sidecar file of a partition, written and read.
use bunnymq.Prelude.{
  ℕ, ◌%◌, ◌^◌, ◌<◌, ℤ, IsI64, to_u64, of_u64-to_u64, to_u64-lt, some, ◌≡◌, arith, refl, ◌++◌,
  length,
}
use bunnymq.Storage.BigEndian.{put_bytes, get_bytes, slice_of}
use bunnymq.Partition.{encode_sidecar, read_sidecar}

eight_bytes : (n : ℕ) → get_bytes 0 (put_bytes 8 n) ≡ n % 2 ^ 64
unfolding get_bytes put_bytes
eight_bytes n = omega arith

first_slice : (m n : ℕ) → slice_of 0 8 (put_bytes 8 m ++ put_bytes 8 n) ≡ put_bytes 8 m
unfolding put_bytes
first_slice m n = refl

second_slice : (m n : ℕ) → slice_of 8 16 (put_bytes 8 m ++ put_bytes 8 n) ≡ put_bytes 8 n
unfolding put_bytes
second_slice m n = refl

sixteen : (m n : ℕ) → length (put_bytes 8 m ++ put_bytes 8 n) ≡ 16
unfolding put_bytes
sixteen m n = refl

-- What is written to the sidecar is read back.
pub read_sidecar-encode_sidecar :
    (index : ℕ) (latest : ℤ)
    → index < 2 ^ 64
    → IsI64 latest
    → read_sidecar (encode_sidecar index latest)
      ≡ some (record { last_applied_index = index; latest_offset = latest })
unfolding read_sidecar encode_sidecar
read_sidecar-encode_sidecar index latest small fits =
    let first : index % 2 ^ 64 ≡ index = omega arith in
    let second : to_u64 latest % 2 ^ 64 ≡ to_u64 latest = omega (arith, to_u64-lt latest) in
    rw
      (
        sixteen index (to_u64 latest),
        first_slice index (to_u64 latest),
        second_slice index (to_u64 latest),
        eight_bytes index,
        eight_bytes (to_u64 latest),
        first,
        second,
        of_u64-to_u64 latest fits,
      )
      refl
