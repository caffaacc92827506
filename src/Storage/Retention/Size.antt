-- ===== src/Storage/Retention/Size.antt =====
-- The size that a retention pass leaves.
use bunnymq.Prelude.{
  ℕ, ◌+◌, ◌-◌, ◌≤◌, ℤ, pos, ◌-ℤ◌, ◌≤ℤ◌, ltb_ℤ, leb_ℤ, List, [], ◌∷◌, ◌++◌, length, length-append,
  true, ◌≡◌, refl, ◌∙◌, ap, subst, arith, Bool-cases, inl, inr, ◌⊎◌, if_rule, option_rule,
}
use bunnymq.Storage.Records.{wrap_i64}
use bunnymq.Storage.Segment.{SegmentStorage}
use bunnymq.Storage.Log.{StorageImpl}
use bunnymq.Storage.Retention.{
  Reason, not_deleted, by_bytes, by_time, log_size, total_size, unmarked, mark_bytes,
  first_batch_timestamp, expire, mark_time, size_reasons, later, delete_marked, reasons_of,
  enforce_retention,
}
use bunnymq.Storage.Retention.Kept.{
  KeptOf, none_left, keep, leave, delete_marked-KeptOf, length-reasons_of, length-KeptOf,
  enforce_retention-Left,
}

total_size-append :
    (xs : List SegmentStorage) (s : SegmentStorage)
    → total_size (xs ++ (s ∷ [])) ≡ total_size xs + log_size s
total_size-append [] s = omega arith
total_size-append (x ∷ xs) s = omega (arith, total_size-append xs s)

total_size-KeptOf : (xs ys : List SegmentStorage) → KeptOf xs ys → total_size xs ≤ total_size ys
total_size-KeptOf xs ys none_left = omega arith
total_size-KeptOf xs ys (keep s xs' ys' k) = omega (arith, total_size-KeptOf xs' ys' k)
total_size-KeptOf xs ys (leave s xs' ys' k) = omega (arith, total_size-KeptOf xs' ys' k)

delete_unmarked :
    (segs rest : List SegmentStorage) → delete_marked (unmarked segs) (segs ++ rest) ≡ segs ++ rest
unfolding delete_marked
delete_unmarked [] rest = refl
delete_unmarked (s ∷ segs) rest = ap (λ l. s ∷ l) (delete_unmarked segs rest)

-- The limit is met, or nothing but the active segment is left.
abbrev pub Within : ℤ → SegmentStorage → List SegmentStorage → Type 0
Within limit active kept = (pos (total_size kept + log_size active) ≤ℤ limit) ⊎ (kept ≡ [])

mark_bytes-Within :
    (limit : ℤ) (rest : ℕ) (segs : List SegmentStorage) (active : SegmentStorage)
    → rest ≡ total_size segs + log_size active
    → (kept : List SegmentStorage) × (delete_marked
          (mark_bytes limit rest segs)
          (segs ++ (active ∷ []))
        ≡ kept ++ (active ∷ []))
      × Within limit active kept
unfolding mark_bytes delete_marked
mark_bytes-Within limit rest [] active same = ([], refl, inr refl)
mark_bytes-Within limit rest (s ∷ segs) active same = elim (Bool-cases (ltb_ℤ limit (pos rest))) [
  | inl over ↦
      let (kept, left, within) =
        mark_bytes-Within limit (rest - log_size s) segs active (omega (arith, same)) in
      (kept, rw over left, within)
  | inr below ↦
      (s ∷ segs, rw below (delete_unmarked (s ∷ segs) (active ∷ [])), inl (ground (arith, same)))
]

KeptOf-refl : (segs : List SegmentStorage) → KeptOf segs segs
KeptOf-refl [] = none_left
KeptOf-refl (s ∷ segs) = keep s segs segs (KeptOf-refl segs)

abbrev OneOfTwo : Reason → Type 0
OneOfTwo r = (r ≡ not_deleted) ⊎ (r ≡ by_time)

expire-cases :
    (horizon : ℤ) (next : SegmentStorage)
    → (expire horizon not_deleted next ≡ not_deleted) ⊎ (expire horizon not_deleted next ≡ by_time)
unfolding expire
expire-cases horizon next =
    option_rule OneOfTwo (first_batch_timestamp next) (λ missing. inl refl)
      (λ ts found. if_rule OneOfTwo (ltb_ℤ ts horizon) (λ old. inr refl) (λ young. inl refl))

-- The time pass deletes some more of what the bytes pass leaves.
mark_time-KeptOf :
    (horizon : ℤ) (reasons : List Reason) (nexts segs : List SegmentStorage)
    → KeptOf (delete_marked (mark_time horizon reasons nexts) segs) (delete_marked reasons segs)
unfolding mark_time delete_marked expire
mark_time-KeptOf horizon [] nexts segs = KeptOf-refl segs
mark_time-KeptOf horizon (r ∷ reasons) [] segs = KeptOf-refl (delete_marked (r ∷ reasons) segs)
mark_time-KeptOf horizon (r ∷ reasons) (n ∷ nexts) [] = none_left
mark_time-KeptOf horizon (not_deleted ∷ reasons) (n ∷ nexts) (s ∷ segs) =
    let rest = mark_time-KeptOf horizon reasons nexts segs in
    elim (expire-cases horizon n) [
      | inl kept ↦ rw kept (keep s _ _ rest)
      | inr expired ↦ rw expired (leave s _ _ rest)
    ]
mark_time-KeptOf horizon (by_bytes ∷ reasons) (n ∷ nexts) (s ∷ segs) =
    mark_time-KeptOf horizon reasons nexts segs
mark_time-KeptOf horizon (by_time ∷ reasons) (n ∷ nexts) (s ∷ segs) =
    mark_time-KeptOf horizon reasons nexts segs

fewer_Within :
    (limit : ℤ) (active : SegmentStorage) (kept kept' : List SegmentStorage)
    → KeptOf (kept' ++ (active ∷ [])) (kept ++ (active ∷ []))
    → Within limit active kept
    → Within limit active kept'
fewer_Within limit active kept kept' sub (inl h) = inl (
    omega (
      arith,
      h,
      total_size-KeptOf (kept' ++ (active ∷ [])) (kept ++ (active ∷ [])) sub,
      total_size-append kept active,
      total_size-append kept' active,
    ))
fewer_Within limit active kept [] sub (inr h) = inr refl
fewer_Within limit active kept (k ∷ kept') sub (inr h) = absurd (
    omega (
      arith,
      length-KeptOf (k ∷ kept' ++ (active ∷ [])) (kept ++ (active ∷ [])) sub,
      length-append kept (active ∷ []),
      length-append kept' (active ∷ []),
      ap length h,
    ))

module _ (s : StorageImpl) (front : List SegmentStorage) (active : SegmentStorage)
    (retention_ms now_ms : ℤ) (limit : ℕ) where
  size_pass :
      (kept : List SegmentStorage) × (delete_marked
          (size_reasons (pos limit) front active)
          (front ++ (active ∷ []))
        ≡ kept ++ (active ∷ []))
      × Within (pos limit) active kept
  unfolding size_reasons
  size_pass =
      let bounded : leb_ℤ (pos 0) (pos limit) ≡ true = ground arith in
      rw bounded (
        mark_bytes-Within (pos limit) (total_size (front ++ (active ∷ []))) front active
          (total_size-append front active))

  both_passes :
      (kept : List SegmentStorage)
      → delete_marked (size_reasons (pos limit) front active) (front ++ (active ∷ []))
        ≡ kept ++ (active ∷ [])
      → KeptOf
          (delete_marked
            (reasons_of retention_ms (pos limit) now_ms front active)
            (front ++ (active ∷ [])))
          (kept ++ (active ∷ []))
  unfolding reasons_of
  both_passes kept left =
      subst
        (KeptOf (
          delete_marked (reasons_of retention_ms (pos limit) now_ms front active)
            (front ++ (active ∷ []))))
        left
        (if_rule
          (λ (l : List Reason).
            KeptOf (delete_marked l (front ++ (active ∷ [])))
              (delete_marked (size_reasons (pos limit) front active) (front ++ (active ∷ []))))
          (ltb_ℤ (pos 0) retention_ms)
          (λ timed.
            mark_time-KeptOf (wrap_i64 (now_ms -ℤ retention_ms))
              (size_reasons (pos limit) front active) (later (front ++ (active ∷ [])))
              (front ++ (active ∷ [])))
          (λ untimed. KeptOf-refl _))

  -- After a pass with a limit on the bytes, the segments are within the limit, or only the active
  -- one is left.
  pub enforce_retention-size :
      s.segments ≡ front ++ (active ∷ [])
      → (total_size (enforce_retention s retention_ms (pos limit) now_ms).0.segments ≤ limit)
        ⊎ ((enforce_retention s retention_ms (pos limit) now_ms).0.segments ≡ active ∷ [])
  enforce_retention-size same =
      let (by_size, left, within) = size_pass in
      let (kept, left', sub) =
        delete_marked-KeptOf (reasons_of retention_ms (pos limit) now_ms front active) front active
          (length-reasons_of retention_ms (pos limit) now_ms front active) in
      let (segments, _, _) =
        enforce_retention-Left s front active retention_ms (pos limit) now_ms kept left' same
          (length-KeptOf kept front sub) in
      let fewer : KeptOf (kept ++ (active ∷ [])) (by_size ++ (active ∷ [])) =
        subst (λ l. KeptOf l (by_size ++ (active ∷ []))) left' (both_passes by_size left) in
      elim (fewer_Within (pos limit) active by_size kept fewer within) [
        | inl h ↦ inl (rw segments (omega (arith, h, total_size-append kept active)))
        | inr h ↦ inr (segments ∙ ap (λ l. l ++ (active ∷ [])) h)
      ]
