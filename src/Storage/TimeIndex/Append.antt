-- ===== src/Storage/TimeIndex/Append.antt =====
-- An append to the time index succeeds where there is room.
use bunnymq.Prelude.{◌+◌, ◌*◌, ◌<◌, ◌≤◌, ◌≡◌, refl, arith, length, ltb, leb, false}
use bunnymq.Storage.BigEndian.{put_bytes}
use bunnymq.Storage.Slices.{length-write_at}
use bunnymq.Storage.TimeIndex.{
  TimeIndexSegment, TimeEntry, entry_bytes, write_at, appended, append_entry,
}

-- There is room for one entry more.
abbrev pub HasSlot : TimeIndexSegment → Type 0
HasSlot s = (s.entry_count < s.max_entries) × (s.max_entries * 12 ≤ length s.mapped)

-- Where there is room, an append succeeds, and the file keeps its size.
pub append_entry-HasSlot :
    (s : TimeIndexSegment) (e : TimeEntry)
    → HasSlot s
    → (s' : TimeIndexSegment) × (append_entry s e ≡ appended s')
      × (s'.entry_count ≡ s.entry_count + 1)
      × (s'.max_entries ≡ s.max_entries)
      × (length s'.mapped ≡ length s.mapped)
unfolding append_entry put_bytes
append_entry-HasSlot s e (more, fit) =
    let size : length (entry_bytes e) ≡ 12 = refl in
    let m : leb s.max_entries s.entry_count ≡ false = ground arith in
    let f : ltb (length s.mapped) (s.entry_count * 12 + 12) ≡ false = ground arith in
    (
      record s {
        mapped = write_at (s.entry_count * 12) (entry_bytes e) s.mapped;
        entry_count = s.entry_count + 1;
      },
      rw (m, f) refl,
      refl,
      refl,
      length-write_at (s.entry_count * 12) (entry_bytes e) s.mapped (omega arith),
    )
