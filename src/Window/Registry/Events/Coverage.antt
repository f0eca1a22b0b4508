-- ===== src/Window/Registry/Events/Coverage.antt =====
-- A coverage gap reaches every window of its source that covers it (crates/discovery-engine/src/lib.rs).
use soldisco.Prelude.{
  ℕ, suc, ◌<◌, ◌≡◌, ◌∙◌, refl, ◌&&◌, inl, inr, subst, sym, ap, List, [], ◌∷◌, Bool, true, false,
  arith, map, ◌++◌, if◌then◌else◌,
}
use soldisco.Prelude.Int.{ℤ}
use soldisco.Domain.{SourceProgram}
use soldisco.Window.Target.{WindowIncompleteReason, code, target_source_program}
use soldisco.Window.Cells.{Cells, covers, mark_incomplete}
use soldisco.Window.Registry.{Token, IsIn, Registry, source_eq, write}
use soldisco.Window.Registry.Events.{gap_reaches, mark_gap, record_source_coverage_gap}

-- What marking keeps of the cells.
record Marks (before after : ℕ → Cells) : Type 0 where
  pub finalized_kept : (cell : ℕ) → (after cell).finalized ≡ (before cell).finalized
  pub reason_kept :
      (cell : ℕ)
      → 0 < (before cell).incomplete_reason
      → (after cell).incomplete_reason ≡ (before cell).incomplete_reason

mark_one-Marks :
    (heap : ℕ → Cells) (b : Bool) (cell : ℕ) (reason : WindowIncompleteReason)
    → Marks heap (if b then write heap cell (mark_incomplete (heap cell) reason).0 else heap)
unfolding mark_incomplete
mark_one-Marks heap b cell reason = record {
  finalized_kept = λ c. ground arith;
  reason_kept = λ c h. ground arith;
}

Marks-trans : {a b c : ℕ → Cells} → Marks a b → Marks b c → Marks a c
Marks-trans p q = record {
  finalized_kept = λ cell. q.finalized_kept cell ∙ p.finalized_kept cell;
  reason_kept = λ cell h. ground (arith, p.reason_kept cell, q.reason_kept cell);
}

mark_gap-Marks :
    (source : SourceProgram) (observed_at : ℤ) (reason : WindowIncompleteReason) (heap : ℕ → Cells)
    (count : ℕ) (ts : List Token)
    → Marks heap (mark_gap source observed_at reason heap count ts).0
unfolding mark_gap
mark_gap-Marks source observed_at reason heap count [] = record {
  finalized_kept = λ c. refl;
  reason_kept = λ c h. refl;
}
mark_gap-Marks source observed_at reason heap count (t ∷ ts) =
    let reached = gap_reaches heap source observed_at t in
    let marked = mark_incomplete (heap t.cell) reason in
    Marks-trans (mark_one-Marks heap reached t.cell reason) (
      mark_gap-Marks source observed_at reason
        (if reached then write heap t.cell marked.0 else heap)
        (if reached && marked.1 then suc count else count) ts)

mark_one-reached :
    (heap : ℕ → Cells) (b : Bool) (cell : ℕ) (reason : WindowIncompleteReason)
    → b ≡ true
    → 0
      < ((if b then write heap cell (mark_incomplete (heap cell) reason).0 else heap)
          cell).incomplete_reason
unfolding mark_incomplete code
mark_one-reached heap b cell reason h = ground arith

gap_reaches_same :
    (before after : ℕ → Cells) (source : SourceProgram) (observed_at : ℤ) (t : Token)
    → Marks before after
    → gap_reaches before source observed_at t ≡ true
    → gap_reaches after source observed_at t ≡ true
gap_reaches_same before after source observed_at t m h = ground (arith, m.finalized_kept t.cell)

-- Each token that the gap reaches is marked.
mark_gap-reached :
    (source : SourceProgram) (observed_at : ℤ) (reason : WindowIncompleteReason) (heap : ℕ → Cells)
    (count : ℕ) (ts : List Token) (t : Token)
    → IsIn t ts
    → gap_reaches heap source observed_at t ≡ true
    → 0 < ((mark_gap source observed_at reason heap count ts).0 t.cell).incomplete_reason
unfolding mark_gap
mark_gap-reached source observed_at reason heap count [] t m h = absurd m
mark_gap-reached source observed_at reason heap count (u ∷ ts) t m h =
    let reached = gap_reaches heap source observed_at u in
    let marked = mark_incomplete (heap u.cell) reason in
    let heap_with = if reached then write heap u.cell marked.0 else heap in
    let count_with = if reached && marked.1 then suc count else count in
    elim m [
      | inl same ↦
          let one =
            mark_one-reached heap reached u.cell reason
              (subst (λ v. gap_reaches heap source observed_at v ≡ true) same h) in
          let kept =
            (mark_gap-Marks source observed_at reason heap_with count_with ts).reason_kept in
          subst
            (λ (c : ℕ).
              0
              < ((mark_gap source observed_at reason heap_with count_with ts).0
                  c).incomplete_reason)
            (sym (ap (λ v. v.cell) same)) (rw (kept u.cell one) one)
      | inr later ↦ mark_gap-reached source observed_at reason heap_with count_with ts t later (
          gap_reaches_same heap heap_with source observed_at t
            (mark_one-Marks heap reached u.cell reason) h)
    ]

-- After a coverage gap of a source, every active or retained token of the source that is not finalized
-- and whose window covers the time of the gap has an incomplete reason.
pub record_source_coverage_gap-reached :
    (r : Registry) (source : SourceProgram) (observed_at : ℤ) (reason : WindowIncompleteReason)
    (t : Token)
    → IsIn t (map (λ e. e.1) r.windows ++ r.retained)
    → source_eq (target_source_program t.window.target) source ≡ true
    → (r.heap t.cell).finalized ≡ false
    → covers t.window observed_at ≡ true
    → 0 < ((record_source_coverage_gap r source observed_at reason).0.heap t.cell).incomplete_reason
unfolding record_source_coverage_gap
record_source_coverage_gap-reached r source observed_at reason t held same open_yet covered =
    mark_gap-reached source observed_at reason r.heap 0 (map (λ e. e.1) r.windows ++ r.retained) t
      held (ground arith)
