-- ===== src/Audit/Chronology.antt =====
-- The order of the rows: the queries of backend/app/repositories/audit.py on rows that are listed as
-- they were recorded.
use urja_setu.Base.{
  ◌≢◌, ◌≡◌, refl, ap, ◌∙◌, Bool, true, false, ◌⊎◌, ◌<◌, Option, none, some, List, [], ◌∷◌, map, All,
  arith,
}
use urja_setu.Base.Sorting.{sorted, insert_sorted, All-sorted}
use urja_setu.Audit.Value.{Text, Members}
use urja_setu.Audit.Chain.{AuditEvent, SealedAuditEvent}
use urja_setu.Audit.Chain.Evidence.{last_hash}
use urja_setu.Audit.Service.{
  AuditEventRecord, recorded_before, head_of, latest, rehydrate, row_of, hash_of,
}

-- The rows are listed in the order in which they were recorded.
abbrev pub IsChronological : List AuditEventRecord → Type 0
IsChronological [] = Unit
IsChronological (r ∷ rows) = All (λ s. recorded_before r s ≡ true) rows × IsChronological rows

-- The event comes after the row, by the time of recording and then by the identifier.
abbrev pub Follows : AuditEvent → AuditEventRecord → Type 0
Follows e r =
    (r.recorded_at < e.recorded_at) ⊎ ((r.recorded_at ≡ e.recorded_at) × (r.id < e.event_id))

recorded_before-asym :
    (x y : AuditEventRecord) → recorded_before x y ≡ true → recorded_before y x ≡ false
unfolding recorded_before
recorded_before-asym x y h = ground arith

pub recorded_before_of_Follows :
    (e : AuditEvent) (s : SealedAuditEvent) (payload : Members) (r : AuditEventRecord)
    → s.event ≡ e
    → Follows e r
    → recorded_before r (row_of s payload) ≡ true
unfolding recorded_before row_of
recorded_before_of_Follows e s payload r same h =
    let time = ap (λ (x : AuditEvent). x.recorded_at) same in
    let id = ap (λ (x : AuditEvent). x.event_id) same in ground arith

pub sorted_of_chronological :
    (rows : List AuditEventRecord) → IsChronological rows → sorted recorded_before rows ≡ rows
unfolding sorted
sorted_of_chronological [] c = refl
sorted_of_chronological (r ∷ rows) c =
    ap (insert_sorted recorded_before r) (sorted_of_chronological rows c.1) ∙ stays rows c.0
  where
    stays :
        (rows : List AuditEventRecord)
        → All (λ s. recorded_before r s ≡ true) rows
        → insert_sorted recorded_before r rows ≡ r ∷ rows
    stays [] h = refl
    stays (s ∷ rest) h = rw (recorded_before-asym r s h.0) refl

last_of : List AuditEventRecord → Option AuditEventRecord
last_of [] = none
last_of (r ∷ []) = some r
last_of (r ∷ s ∷ rows) = last_of (s ∷ rows)

abbrev pub later_first : AuditEventRecord → AuditEventRecord → Bool
later_first x y = recorded_before y x

head_of-insert_sorted :
    (r : AuditEventRecord) (rows : List AuditEventRecord)
    → All (λ s. recorded_before r s ≡ true) rows
    → rows ≢ []
    → head_of (insert_sorted later_first r rows) ≡ head_of rows
unfolding insert_sorted head_of
head_of-insert_sorted r [] h ne = absurd (ne refl)
head_of-insert_sorted r (s ∷ rows) h ne = rw (h.0) refl

pub insert_sorted-ne_empty :
    (r : AuditEventRecord) (rows : List AuditEventRecord) → insert_sorted later_first r rows ≢ []
unfolding insert_sorted
insert_sorted-ne_empty r [] h = cc
insert_sorted-ne_empty r (s ∷ rows) h = ground arith

latest-last_of : (rows : List AuditEventRecord) → IsChronological rows → latest rows ≡ last_of rows
unfolding latest last_of
latest-last_of [] c = refl
latest-last_of (r ∷ []) c = refl
latest-last_of (r ∷ s ∷ rows) c =
    head_of-insert_sorted r (sorted later_first (s ∷ rows))
      (All-sorted later_first (λ t. recorded_before r t ≡ true) (s ∷ rows) c.0)
      (insert_sorted-ne_empty s (sorted later_first rows))
    ∙ latest-last_of (s ∷ rows) c.1

hash_of-last_of :
    (start : Option Text) (r : AuditEventRecord) (rows : List AuditEventRecord)
    → hash_of (last_of (r ∷ rows)) ≡ last_hash start (map rehydrate (r ∷ rows))
unfolding last_of rehydrate
hash_of-last_of start r [] = refl
hash_of-last_of start r (s ∷ rows) = hash_of-last_of (some r.event_hash) s rows

pub hash_of-latest :
    (rows : List AuditEventRecord)
    → IsChronological rows
    → hash_of (latest rows) ≡ last_hash none (map rehydrate rows)
hash_of-latest [] c = ap hash_of (latest-last_of [] tt) ∙ (unfold last_of in refl)
hash_of-latest (r ∷ rows) c = ap hash_of (latest-last_of (r ∷ rows) c) ∙ hash_of-last_of none r rows
