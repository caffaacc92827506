-- ===== src/Storage/Retention/Kept.antt =====
-- What a retention pass leaves: the active segment, and of the sealed ones those without a reason.
use bunnymq.Prelude.{
  ℕ, suc, ◌+◌, ◌-◌, ◌≤◌, ℤ, pos, ◌-ℤ◌, ltb_ℤ, leb_ℤ, List, [], ◌∷◌, ◌++◌, length, length-append,
  length-map, ◌≡◌, refl, sym, ◌∙◌, ap, subst, arith, if_rule,
}
use bunnymq.Storage.Records.{wrap_i64}
use bunnymq.Storage.Segment.{SegmentStorage}
use bunnymq.Storage.Log.{StorageImpl}
use bunnymq.Storage.Log.Stamp.{last_split-append}
use bunnymq.Storage.Retention.{
  Reason, not_deleted, by_bytes, by_time, log_size, total_size, mark_bytes, mark_time, size_reasons,
  later, delete_marked, reasons_of, enforce_retention,
}

-- Of segments in their order, some are kept.
pub data KeptOf : List SegmentStorage → List SegmentStorage → Type 0 where
  none_left : KeptOf [] []
  keep :
      (s : SegmentStorage) (xs ys : List SegmentStorage) → KeptOf xs ys → KeptOf (s ∷ xs) (s ∷ ys)
  leave : (s : SegmentStorage) (xs ys : List SegmentStorage) → KeptOf xs ys → KeptOf xs (s ∷ ys)

pub length-mark_bytes :
    (limit : ℤ) (rest : ℕ) (sealed_segs : List SegmentStorage)
    → length (mark_bytes limit rest sealed_segs) ≡ length sealed_segs
unfolding mark_bytes
length-mark_bytes limit rest [] = refl
length-mark_bytes limit rest (s ∷ segs) =
    if_rule (λ (l : List Reason). length l ≡ length (s ∷ segs)) (ltb_ℤ limit (pos rest))
      (λ over. ap suc (length-mark_bytes limit (rest - log_size s) segs))
      (λ within. length-map (λ s. not_deleted) (s ∷ segs))

length-mark_time :
    (horizon : ℤ) (reasons : List Reason) (segs : List SegmentStorage)
    → length (mark_time horizon reasons segs) ≡ length reasons
unfolding mark_time
length-mark_time horizon [] segs = refl
length-mark_time horizon (r ∷ reasons) [] = refl
length-mark_time horizon (r ∷ reasons) (s ∷ segs) = ap suc (length-mark_time horizon reasons segs)

pub length-size_reasons :
    (retention_bytes : ℤ) (sealed_segs : List SegmentStorage) (active : SegmentStorage)
    → length (size_reasons retention_bytes sealed_segs active) ≡ length sealed_segs
unfolding size_reasons
length-size_reasons retention_bytes sealed_segs active =
    if_rule (λ (l : List Reason). length l ≡ length sealed_segs) (leb_ℤ (pos 0) retention_bytes)
      (λ bounded.
        length-mark_bytes retention_bytes (total_size (sealed_segs ++ (active ∷ []))) sealed_segs)
      (λ unbounded. length-map (λ s. not_deleted) sealed_segs)

pub length-reasons_of :
    (retention_ms retention_bytes now_ms : ℤ) (sealed_segs : List SegmentStorage)
    (active : SegmentStorage)
    → length (reasons_of retention_ms retention_bytes now_ms sealed_segs active)
      ≡ length sealed_segs
unfolding reasons_of
length-reasons_of retention_ms retention_bytes now_ms sealed_segs active =
    let sized = length-size_reasons retention_bytes sealed_segs active in
    if_rule (λ (l : List Reason). length l ≡ length sealed_segs) (ltb_ℤ (pos 0) retention_ms)
      (λ timed.
        length-mark_time (wrap_i64 (now_ms -ℤ retention_ms))
          (size_reasons retention_bytes sealed_segs active) (later (sealed_segs ++ (active ∷ [])))
        ∙ sized)
      (λ untimed. sized)

-- Reasons for the sealed segments leave the active one, and delete as many as have one.
pub delete_marked-KeptOf :
    (reasons : List Reason) (sealed_segs : List SegmentStorage) (active : SegmentStorage)
    → length reasons ≡ length sealed_segs
    → (kept : List SegmentStorage) × (delete_marked reasons (sealed_segs ++ (active ∷ []))
        ≡ kept ++ (active ∷ []))
      × KeptOf kept sealed_segs
unfolding delete_marked
delete_marked-KeptOf [] [] active same = ([], refl, none_left)
delete_marked-KeptOf [] (s ∷ segs) active same = absurd (omega (arith, same))
delete_marked-KeptOf (r ∷ reasons) [] active same = absurd (omega (arith, same))
delete_marked-KeptOf (not_deleted ∷ reasons) (s ∷ segs) active same =
    let (kept, eq, sub) = delete_marked-KeptOf reasons segs active (omega (arith, same)) in
    (s ∷ kept, ap (λ l. s ∷ l) eq, keep s kept segs sub)
delete_marked-KeptOf (by_bytes ∷ reasons) (s ∷ segs) active same =
    let (kept, eq, sub) = delete_marked-KeptOf reasons segs active (omega (arith, same)) in
    (kept, eq, leave s kept segs sub)
delete_marked-KeptOf (by_time ∷ reasons) (s ∷ segs) active same =
    let (kept, eq, sub) = delete_marked-KeptOf reasons segs active (omega (arith, same)) in
    (kept, eq, leave s kept segs sub)

pub length-KeptOf : (xs ys : List SegmentStorage) → KeptOf xs ys → length xs ≤ length ys
length-KeptOf xs ys none_left = omega arith
length-KeptOf xs ys (keep s xs' ys' k) = omega (arith, length-KeptOf xs' ys' k)
length-KeptOf xs ys (leave s xs' ys' k) = omega (arith, length-KeptOf xs' ys' k)

module _ (s : StorageImpl) (front : List SegmentStorage) (active : SegmentStorage)
    (retention_ms retention_bytes now_ms : ℤ) where
  abbrev Left : List SegmentStorage → StorageImpl × ℕ → Type 0
  Left kept r =
      (r.0.segments ≡ kept ++ (active ∷ []))
      × (r.1 + length kept ≡ length front)
      × (r.0.next_offset ≡ s.next_offset)

  abbrev whole : StorageImpl
  whole = record s { segments = front ++ (active ∷ []) }

  -- A pass leaves what the reasons leave.
  pub enforce_retention-Left :
      (kept : List SegmentStorage)
      → delete_marked
          (reasons_of retention_ms retention_bytes now_ms front active)
          (front ++ (active ∷ []))
        ≡ kept ++ (active ∷ [])
      → s.segments ≡ front ++ (active ∷ [])
      → length kept ≤ length front
      → Left kept (enforce_retention s retention_ms retention_bytes now_ms)
  unfolding enforce_retention
  enforce_retention-Left kept left same fewer = subst (Left kept) (sym (moved ∙ computed)) (
    refl,
    omega (arith, length-append front (active ∷ []), length-append kept (active ∷ []), fewer),
    refl,
  )
    where
      moved :
          enforce_retention s retention_ms retention_bytes now_ms
          ≡ enforce_retention whole retention_ms retention_bytes now_ms
      moved =
          ap
            (λ (segs : List SegmentStorage).
              enforce_retention (record s { segments = segs }) retention_ms retention_bytes now_ms)
            same

      computed : enforce_retention whole retention_ms retention_bytes now_ms ≡ (
        record s { segments = kept ++ (active ∷ []) },
        length (front ++ (active ∷ [])) - length (kept ++ (active ∷ [])),
      )
      computed = rw (enforce_retention, last_split-append front active, left) refl

  -- A pass keeps the active segment, keeps of the sealed ones some in their order, counts the
  -- others, and leaves the next offset.
  pub enforce_retention-KeptOf :
      s.segments ≡ front ++ (active ∷ [])
      → (kept : List SegmentStorage) × ((enforce_retention s retention_ms retention_bytes
            now_ms).0.segments
          ≡ kept ++ (active ∷ []))
        × KeptOf kept front
        × ((enforce_retention s retention_ms retention_bytes now_ms).1 + length kept ≡ length front)
        × ((enforce_retention s retention_ms retention_bytes now_ms).0.next_offset ≡ s.next_offset)
  enforce_retention-KeptOf same =
      let (kept, left, sub) =
        delete_marked-KeptOf (reasons_of retention_ms retention_bytes now_ms front active) front
          active (length-reasons_of retention_ms retention_bytes now_ms front active) in
      let (segments, count, next) =
        enforce_retention-Left kept left same (length-KeptOf kept front sub) in
      (kept, segments, sub, count, next)
