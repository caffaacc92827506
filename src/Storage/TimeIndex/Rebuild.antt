-- ===== src/Storage/TimeIndex/Rebuild.antt =====
-- A rebuild of the time index succeeds where there is room for the entries.
use bunnymq.Prelude.{
  ℕ, ◌+◌, ◌*◌, ◌≤◌, List, [], ◌∷◌, length, some, false, ltb, ◌≡◌, refl, ◌∙◌, arith,
}
use bunnymq.Storage.BigEndian.{put_bytes}
use bunnymq.Storage.Slices.{length-write_at}
use bunnymq.Storage.TimeIndex.{
  TimeIndexSegment, TimeEntry, entry_bytes, write_at, write_entries, rebuild,
}

length-entry_bytes : (e : TimeEntry) → length (entry_bytes e) ≡ 12
unfolding put_bytes
length-entry_bytes e = refl

length-write_entries :
    (i : ℕ) (es : List TimeEntry) (m : List ℕ)
    → (i + length es) * 12 ≤ length m
    → (m' : List ℕ) × (write_entries i es m ≡ some m') × (length m' ≡ length m)
unfolding write_entries
length-write_entries i [] m fits = (m, refl, refl)
length-write_entries i (e ∷ es) m fits =
    let m' = write_at (i * 12) (entry_bytes e) m in
    let size : length m' ≡ length m =
      length-write_at (i * 12) (entry_bytes e) m (omega (arith, length-entry_bytes e)) in
    let room : ltb (length m) (i * 12 + 12) ≡ false = ground arith in
    let (m'', done, same) = length-write_entries (i + 1) es m' (omega arith) in
    (m'', rw room done, same ∙ size)

pub rebuild-length :
    (s : TimeIndexSegment) (es : List TimeEntry)
    → length es * 12 ≤ length s.mapped
    → (s' : TimeIndexSegment) × (rebuild s es ≡ some s')
      × (s'.entry_count ≡ length es)
      × (s'.max_entries ≡ s.max_entries)
      × (length s'.mapped ≡ length s.mapped)
unfolding rebuild
rebuild-length s es fits =
    let (m, done, same) = length-write_entries 0 es s.mapped (omega arith) in
    (record s { mapped = m; entry_count = length es }, rw (rebuild, done) refl, refl, refl, same)
