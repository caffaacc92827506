-- ===== src/Partition/Update.antt =====
-- An update of a partition with batches appends them to its log in the order of the entries.
use bunnymq.Prelude.{
  ℕ, ◌+◌, ◌^◌, ◌≤◌, ◌<◌, ℤ, pos, to_u64, List, [], ◌∷◌, ◌++◌, length, map, All, Option, some, false,
  ◌≡◌, refl, sym, ◌∙◌, ap, subst, arith,
}
use mathlib.Core.List.{append_assoc, append-nil}
use bunnymq.Storage.Segment.{StorageConfig, record_count}
use bunnymq.Storage.Segment.Layout.{total, total-append, IsBatch}
use bunnymq.Storage.Segment.Room.{IsConfig}
use bunnymq.Storage.Log.{StorageImpl, stamp, append_batch, done, latest_offset}
use bunnymq.Storage.Log.Contains.{Contains}
use bunnymq.Storage.Log.Stamp.{stamp-record_count}
use bunnymq.Storage.Log.Append.{append_batch-Contains}
use bunnymq.Partition.{
  RetentionConfigPayload, PartitionFsm, Entry, cmd_append_batch, marshal, encode_sidecar,
  apply_payload, apply_cmd, apply_entries, last_index, update,
}

-- The batches with the offsets that they are assigned from one on, and these offsets.
abbrev pub stamp_all : ℕ → List (List ℕ) → List (List ℕ)
stamp_all n [] = []
stamp_all n (b ∷ bs) = stamp (pos n) b ∷ stamp_all (n + record_count b) bs

abbrev pub offsets_from : ℕ → List (List ℕ) → List ℕ
offsets_from n [] = []
offsets_from n (b ∷ bs) = to_u64 (pos n) ∷ offsets_from (n + record_count b) bs

-- An entry that appends a batch.
abbrev pub append_entry : ℕ × List ℕ → Entry
append_entry p = record {
  index = p.0;
  cmd = marshal (record { kind = cmd_append_batch; payload = p.1 });
}

-- A batch that the log has room for.
abbrev pub Fits : StorageConfig → List ℕ → Type 0
Fits c b = IsBatch b × (c.segment_max_bytes + length b ≤ 2 ^ 31)

abbrev pub batches_of : List (ℕ × List ℕ) → List (List ℕ)
batches_of items = map (λ (p : ℕ × List ℕ). p.1) items

module _ (page_size : ℕ) (c : StorageConfig)
    (decode_config : List ℕ → Option RetentionConfigPayload) (first : ℕ) where
  apply_cmd-append :
      (s s' : StorageImpl) (b : List ℕ) (n : ℕ)
      → append_batch page_size c s b ≡ done s' (pos n)
      → apply_cmd page_size c decode_config s
          (marshal (record { kind = cmd_append_batch; payload = b }))
        ≡ some (s', to_u64 (pos n))
  unfolding apply_cmd apply_payload marshal cmd_append_batch
  apply_cmd-append s s' b n appended = rw appended refl

  abbrev Applied : StorageImpl → List (List ℕ) → List (ℕ × List ℕ) → Type 0
  Applied s log items =
      (s' : StorageImpl) × (apply_entries page_size c decode_config s (map append_entry items)
        ≡ some (s', offsets_from (first + total log) (batches_of items)))
      × Contains c s' first (log ++ stamp_all (first + total log) (batches_of items))

  apply_entries-Contains :
      (s : StorageImpl) (log : List (List ℕ)) (items : List (ℕ × List ℕ))
      → 1 ≤ page_size
      → IsConfig c
      → Contains c s first log
      → s.closed ≡ false
      → All (Fits c) (batches_of items)
      → first + total log + total (batches_of items) < 2 ^ 63
      → Applied s log items
  unfolding apply_entries
  apply_entries-Contains s log [] page config has running fits small =
      (s, refl, subst (Contains c s first) (sym (append-nil log)) has)
  apply_entries-Contains s log ((i, b) ∷ items) page config has running (now, later) small =
      let n = first + total log in
      let (s', appended, has', running') =
        append_batch-Contains page_size c first s log b page config has running now.0 now.1
          (omega arith) in
      let stamped = stamp (pos n) b in
      let at : first + total (log ++ (stamped ∷ [])) ≡ n + record_count b =
        omega (arith, total-append log (stamped ∷ []), stamp-record_count n b) in
      let (s'', applied, has'') =
        apply_entries-Contains s' (log ++ (stamped ∷ [])) items page config has' running' later
          (omega (arith, at)) in
      let cmd = apply_cmd-append s s' b n appended in
      (
        s'',
        rw (apply_entries, cmd, applied)
            (ap (λ (k : ℕ). some (s'', to_u64 (pos n) ∷ offsets_from k (batches_of items))) at),
        subst (Contains c s'' first)
            (append_assoc log (stamped ∷ [])
                (stamp_all (first + total (log ++ (stamped ∷ []))) (batches_of items))
              ∙ ap (λ (k : ℕ). log ++ (stamped ∷ stamp_all k (batches_of items))) at)
            has'',
      )

  total-stamp_all : (n : ℕ) (bs : List (List ℕ)) → total (stamp_all n bs) ≡ total bs
  total-stamp_all n [] = refl
  total-stamp_all n (b ∷ bs) =
      omega (arith, stamp-record_count n b, total-stamp_all (n + record_count b) bs)

  -- An update with entries that append batches, to a log that has room for them, answers the
  -- consecutive offsets that they are assigned; the log then contains them behind the others, and
  -- the sidecar has the index of the last entry and the end of the log.
  pub update-Contains :
      (fsm : PartitionFsm) (log : List (List ℕ)) (i : ℕ) (b : List ℕ) (items : List (ℕ × List ℕ))
      → 1 ≤ page_size
      → IsConfig c
      → Contains c fsm.storage first log
      → fsm.storage.closed ≡ false
      → All (Fits c) (b ∷ batches_of items)
      → first + total log + total (b ∷ batches_of items) < 2 ^ 63
      → (fsm' : PartitionFsm) × (update page_size c decode_config fsm
            (map append_entry ((i, b) ∷ items))
          ≡ some (fsm', offsets_from (first + total log) (b ∷ batches_of items)))
        × Contains c fsm'.storage first
            (log ++ stamp_all (first + total log) (b ∷ batches_of items))
        × (fsm'.last_applied_index ≡ last_index (append_entry (i, b)) (map append_entry items))
        × (fsm'.sidecar
            ≡ some (
                encode_sidecar fsm'.last_applied_index
                  (pos (first + total log + total (b ∷ batches_of items)))))
  unfolding update latest_offset
  update-Contains fsm log i b items page config has running fits small =
      let (s', applied, has') =
        apply_entries-Contains fsm.storage log ((i, b) ∷ items) page config has running fits
          small in
      let last = last_index (append_entry (i, b)) (map append_entry items) in
      let stamped = stamp_all (first + total log) (b ∷ batches_of items) in
      let end : first + total (log ++ stamped) ≡ first + total log + total (b ∷ batches_of items) =
        omega (
          arith,
          total-append log stamped,
          total-stamp_all (first + total log) (b ∷ batches_of items),
        ) in
      (
        record fsm {
          storage = s';
          last_applied_index = last;
          sidecar = some (encode_sidecar last (latest_offset s'));
        },
        rw (update, applied) refl,
        has',
        refl,
        ap (λ (z : ℤ). some (encode_sidecar last z)) (has'.next ∙ ap pos end),
      )
