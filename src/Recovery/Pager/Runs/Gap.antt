-- ===== src/Recovery/Pager/Runs/Gap.antt =====
-- A recovery releases exactly the records newer than the checkpoint (crates/solana-rpc/src/recovery.rs).
use mathlib.Core.List.{append_assoc}
use text.Mathlib.Text.{◌==◌ as str_eq}
use soldisco.Prelude.{
  ℕ, suc, String, eq_iff, ◌≡◌, ◌≢◌, refl, ◌∙◌, ap, sym, subst, List, [], ◌∷◌, ◌++◌, reverse, All,
  Option, none, some, false, ok, arith, Bool-cases, Option-cases, inl, inr, length, ◌==◌,
}
use soldisco.Recovery.{RecoveryCheckpoint, SignatureRecord, SignaturePage}
use soldisco.Recovery.Pager.{
  RecoveryPager, RecoveryBatch, RecoveryProgress, more, complete, Outcome, accept_records,
  accept_full, accept_boundary, accept_found, continue_after, find_boundary, finish_batch,
  head_checkpoint, advance, extend, take, ensure_capacity, head_or, or_first,
}
use soldisco.Recovery.Pager.Runs.Ends.{or_fail-eq-ok, boundary_not_more}

-- The records are not the checkpoint's.
abbrev pub AreOthers : RecoveryCheckpoint → List SignatureRecord → Type 0
AreOthers c = All (λ r. r.signature ≢ c.last_signature)

pub AreOthers-append :
    (c : RecoveryCheckpoint) (xs ys : List SignatureRecord)
    → AreOthers c xs
    → AreOthers c ys
    → AreOthers c (xs ++ ys)
AreOthers-append c [] ys p q = q
AreOthers-append c (x ∷ xs) ys p q = (p.0, AreOthers-append c xs ys p.1 q)

find_boundary-none :
    (c : RecoveryCheckpoint) (rs : List SignatureRecord)
    → find_boundary c.last_signature rs ≡ none
    → AreOthers c rs
unfolding find_boundary
find_boundary-none c [] h = tt
find_boundary-none c (r ∷ rs) h =
    let different : str_eq r.signature c.last_signature ≡ false = ground arith in
    let later : find_boundary c.last_signature rs ≡ none = ground arith in
    ((λ e. ground (arith, eq_iff r.signature c.last_signature)), find_boundary-none c rs later)

-- Where the boundary splits the records.
record Splits (c : RecoveryCheckpoint) (rs : List SignatureRecord) (index : ℕ)
    (boundary : SignatureRecord) : Type 0 where
  pub older : List SignatureRecord
  pub split : take index rs ++ (boundary ∷ older) ≡ rs
  pub reaches : boundary.signature ≡ c.last_signature
  pub newer : AreOthers c (take index rs)

find_boundary-Splits :
    (c : RecoveryCheckpoint) (rs : List SignatureRecord) (index : ℕ) (boundary : SignatureRecord)
    → find_boundary c.last_signature rs ≡ some (index, boundary)
    → Splits c rs index boundary
unfolding find_boundary
find_boundary-Splits c [] index boundary h = cc
find_boundary-Splits c (r ∷ rs) index boundary h =
    elim (Bool-cases (str_eq r.signature c.last_signature)) [
      | inl here ↦
          at_pair (0, r) (rw here at h)
            (record {
              older = rs;
              split = refl;
              reaches = (eq_iff r.signature c.last_signature).0 here;
              newer = tt;
            })
      | inr other ↦ elim (Option-cases (find_boundary c.last_signature rs)) [
        | inl missing ↦ cc (rw (other, missing) at h)
        | inr ((i, b), found) ↦
            at_pair (suc i, b) (rw (other, found) at h)
              (push i b other (find_boundary-Splits c rs i b found))
      ]
    ]
  where
    at_pair :
        (p : ℕ × SignatureRecord)
        → some p ≡ some (index, boundary)
        → Splits c (r ∷ rs) p.0 p.1
        → Splits c (r ∷ rs) index boundary
    at_pair p e s =
        let same : p ≡ (index, boundary) = cc in
        subst (λ (q : ℕ × SignatureRecord). Splits c (r ∷ rs) q.0 q.1) same s

    push :
        (i : ℕ) (b : SignatureRecord)
        → str_eq r.signature c.last_signature ≡ false
        → Splits c rs i b
        → Splits c (r ∷ rs) (suc i) b
    push i b other s = record {
      older = s.older;
      split = ap (λ l. r ∷ l) s.split;
      reaches = s.reaches;
      newer = ((λ e. ground (arith, eq_iff r.signature c.last_signature)), s.newer);
    }

-- The batch holds, oldest first, what stands before the checkpoint's record in the records received,
-- and its head is the newest of them or the checkpoint itself.
pub record IsGap (c : RecoveryCheckpoint) (program_id : String) (records : List SignatureRecord)
    (batch : RecoveryBatch) : Type 0 where
  pub gap : List SignatureRecord
  pub boundary : SignatureRecord
  pub older : List SignatureRecord
  pub split : gap ++ (boundary ∷ older) ≡ records
  pub released : batch.records_oldest_first ≡ reverse gap
  pub reaches : boundary.signature ≡ c.last_signature
  pub same_slot : boundary.slot ≡ c.last_slot
  pub newer : AreOthers c gap
  pub head : batch.head_checkpoint ≡ head_or program_id gap (some c)

-- What a page leaves when the pager wants more.
pub record Buffers (c : RecoveryCheckpoint) (self after : RecoveryPager) (page : SignaturePage)
    : Type 0 where
  pub buffered : after.records_newest_first ≡ self.records_newest_first ++ page.records_newest_first
  pub same_checkpoint : after.checkpoint ≡ self.checkpoint
  pub same_program : after.program_id ≡ self.program_id
  pub page_others : AreOthers c page.records_newest_first

or_first-head_or :
    (program_id : String) (l : List SignatureRecord) (c : RecoveryCheckpoint)
    → or_first (head_or program_id l (some c)) program_id l ≡ head_or program_id l (some c)
or_first-head_or program_id [] c = refl
or_first-head_or program_id (r ∷ l) c = refl

boundary_complete :
    (self : RecoveryPager) (page : SignaturePage) (c : RecoveryCheckpoint) (index : ℕ)
    (b : SignatureRecord) (batch : RecoveryBatch)
    → (accept_boundary self page c index b).1 ≡ ok (complete batch)
    → (b.slot ≡ c.last_slot)
      × ((finish_batch
            (extend self (take index page.records_newest_first))
            (head_checkpoint (extend self (take index page.records_newest_first)))).1
          ≡ batch)
unfolding accept_boundary
boundary_complete self page c index b batch h = elim (Bool-cases (b.slot == c.last_slot)) [
  | inl same ↦
      let (fits, e) = or_fail-eq-ok self (ensure_capacity self index) _ (rw same at h) in
      let done = sym (ap (λ (o : Outcome). o.1) e) ∙ rw same at h in (ground arith, cc)
  | inr other ↦ cc (rw other at h)
]

boundary-IsGap :
    (self : RecoveryPager) (page : SignaturePage) (c : RecoveryCheckpoint) (index : ℕ)
    (b : SignatureRecord) (batch : RecoveryBatch) (later : List SignatureRecord)
    → self.checkpoint ≡ some c
    → AreOthers c self.records_newest_first
    → Splits c page.records_newest_first index b
    → (accept_boundary self page c index b).1 ≡ ok (complete batch)
    → IsGap c self.program_id
        (self.records_newest_first ++ (page.records_newest_first ++ later))
        batch
unfolding finish_batch head_checkpoint
boundary-IsGap self page c index b batch later checkpoint others s h =
    let (same_slot, made) = boundary_complete self page c index b batch h in
    let taken = take index page.records_newest_first in
    let gap = self.records_newest_first ++ taken in
    subst
      (IsGap c self.program_id (self.records_newest_first ++ (page.records_newest_first ++ later)))
      made
      (record {
        gap = gap;
        boundary = b;
        older = s.older ++ later;
        split =
            append_assoc self.records_newest_first taken (b ∷ (s.older ++ later))
            ∙ ap (λ l. self.records_newest_first ++ l)
                (sym (append_assoc taken (b ∷ s.older) later) ∙ ap (λ l. l ++ later) s.split);
        released = refl;
        reaches = s.reaches;
        same_slot = same_slot;
        newer = AreOthers-append c self.records_newest_first taken others s.newer;
        head =
            ap (λ k. or_first (head_or self.program_id gap k) self.program_id gap) checkpoint
            ∙ or_first-head_or self.program_id gap c;
      })

continue_after-progress :
    (extended : RecoveryPager) (page : SignaturePage) (c : RecoveryCheckpoint)
    (p : RecoveryProgress)
    → (continue_after extended page c).1 ≡ ok p
    → (p ≡ more)
      × ((continue_after extended page c).0.records_newest_first ≡ extended.records_newest_first)
      × ((continue_after extended page c).0.checkpoint ≡ extended.checkpoint)
      × ((continue_after extended page c).0.program_id ≡ extended.program_id)
unfolding continue_after
continue_after-progress extended page c p h = elim (Bool-cases page.exhausted) [
  | inl last_page ↦ cc (rw last_page at h)
  | inr open_end ↦ rw open_end (advanced page.next_before (rw open_end at h))
]
  where
    advanced :
        (next : Option String)
        → (advance extended next).1 ≡ ok p
        → (p ≡ more)
          × ((advance extended next).0.records_newest_first ≡ extended.records_newest_first)
          × ((advance extended next).0.checkpoint ≡ extended.checkpoint)
          × ((advance extended next).0.program_id ≡ extended.program_id)
    advanced none e = cc
    advanced (some n) e = ground arith

full-Buffers :
    (self : RecoveryPager) (page : SignaturePage) (c : RecoveryCheckpoint) (p : RecoveryProgress)
    → AreOthers c page.records_newest_first
    → (accept_full self page c).1 ≡ ok p
    → (p ≡ more) × Buffers c self (accept_full self page c).0 page
unfolding accept_full
full-Buffers self page c p others h =
    let extended = extend self page.records_newest_first in
    let next = continue_after extended page c in
    let (fits, e) =
      or_fail-eq-ok self (ensure_capacity self (length page.records_newest_first)) next h in
    let (only, records, checkpoint, program) =
      continue_after-progress extended page c p (sym (ap (λ (o : Outcome). o.1) e) ∙ h) in
    (
      only,
      subst (λ (o : Outcome). Buffers c self o.0 page) (sym e)
          (record {
            buffered = records;
            same_checkpoint = checkpoint;
            same_program = program;
            page_others = others;
          }),
    )

-- What one page does, on each progress.
abbrev pub Meets :
    RecoveryCheckpoint
    → RecoveryPager
    → SignaturePage
    → List SignatureRecord
    → RecoveryPager
    → RecoveryProgress
    → Type 0
Meets c self page later after more = Buffers c self after page
Meets c self page later after (complete batch) =
    IsGap c self.program_id (self.records_newest_first ++ (page.records_newest_first ++ later))
      batch

found-Meets :
    (self : RecoveryPager) (page : SignaturePage) (c : RecoveryCheckpoint)
    (later : List SignatureRecord) (p : RecoveryProgress) (found : Option (ℕ × SignatureRecord))
    → self.checkpoint ≡ some c
    → AreOthers c self.records_newest_first
    → find_boundary c.last_signature page.records_newest_first ≡ found
    → (accept_found self page c found).1 ≡ ok p
    → Meets c self page later (accept_found self page c found).0 p
found-Meets self page c later more none checkpoint others e h =
    (full-Buffers self page c more (find_boundary-none c page.records_newest_first e) h).1
found-Meets self page c later (complete batch) none checkpoint others e h =
    let (only, kept) =
      full-Buffers self page c (complete batch) (find_boundary-none c page.records_newest_first e)
        h in
    cc
found-Meets self page c later more (some (index, b)) checkpoint others e h =
    absurd (boundary_not_more self page c index b h)
found-Meets self page c later (complete batch) (some (index, b)) checkpoint others e h =
    boundary-IsGap self page c index b batch later checkpoint others
      (find_boundary-Splits c page.records_newest_first index b e) h

pub records-Meets :
    (self : RecoveryPager) (page : SignaturePage) (c : RecoveryCheckpoint)
    (later : List SignatureRecord) (p : RecoveryProgress)
    → self.checkpoint ≡ some c
    → AreOthers c self.records_newest_first
    → (accept_records self page (some c)).1 ≡ ok p
    → Meets c self page later (accept_records self page (some c)).0 p
unfolding accept_records
records-Meets self page c later p checkpoint others h =
    found-Meets self page c later p (find_boundary c.last_signature page.records_newest_first)
      checkpoint others refl h
