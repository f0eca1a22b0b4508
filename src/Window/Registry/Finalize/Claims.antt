-- ===== src/Window/Registry/Finalize/Claims.antt =====
-- What a finalization claim guarantees (crates/discovery-engine/src/lib.rs).
use soldisco.Prelude.{
  ◌≡◌, ◌&&◌, ◌==◌, subst, sym, ◌∙◌, refl, inl, inr, List, [], ◌∷◌, Option, none, some, Bool, true,
  false, Bool-cases, arith, ℕ,
}
use soldisco.Window.Target.{target_source_program}
use soldisco.Window.Cells.{
  Cells, was_confirmed, is_settled, try_claim_finalization, read_incomplete_reason,
}
use soldisco.Prelude.Int.{ℤ}
use soldisco.Window.Target.{WindowIncompleteReason}
use soldisco.Window.Registry.{Token, IsIn, Registry}
use soldisco.Window.Registry.Finalize.{
  token_eq, has_durable_id, is_finalizable, find_claimed, is_behind, waits, take_claim,
  FinalizationClaim, claim_found, claim_finalization,
}

record IsFound (heap : ℕ → Cells) (candidate : Token) (ts : List Token) (t : Token) : Type 0 where
  pub held : IsIn t ts
  pub same_cell : t.cell ≡ candidate.cell
  pub same_token : token_eq t candidate ≡ true
  pub finalizable : is_finalizable (heap t.cell) ≡ true

find_claimed-IsFound :
    (heap : ℕ → Cells) (candidate : Token) (ts : List Token) (t : Token)
    → find_claimed heap candidate ts ≡ some t
    → IsFound heap candidate ts t
unfolding find_claimed
find_claimed-IsFound heap candidate [] t e = ground arith
find_claimed-IsFound heap candidate (u ∷ rest) t e = elim (Bool-cases (matched u)) [
  | inl hit ↦
      let same : u ≡ t = some_inj (rw hit at e) in
      subst (IsFound heap candidate (u ∷ rest)) same (record {
        held = inl refl;
        same_cell = ground arith;
        same_token = ground arith;
        finalizable = ground arith;
      })
  | inr miss ↦ later (find_claimed-IsFound heap candidate rest t (rw miss at e))
]
  where
    matched : Token → Bool
    matched v = token_eq v candidate && v.cell == candidate.cell && is_finalizable (heap v.cell)

    some_inj : {a b : Token} → some a ≡ some b → a ≡ b
    some_inj q = ground arith

    later : {v : Token} → IsFound heap candidate rest v → IsFound heap candidate (u ∷ rest) v
    later f = record {
      held = inr f.held;
      same_cell = f.same_cell;
      same_token = f.same_token;
      finalizable = f.finalizable;
    }

take_claim_refused :
    (r : Registry) (t : Token) (reason : Option WindowIncompleteReason) (wait : Bool)
    → (r.heap t.cell).finalization_claimed ≡ true
    → (take_claim r t reason wait).1 ≡ none
unfolding take_claim try_claim_finalization
take_claim_refused r t reason wait h = ground arith

-- The claim of a found token, on every outcome of the lookup.
claim_found_refused :
    (r : Registry) (found : Option Token)
    → ((t : Token) → found ≡ some t → (r.heap t.cell).finalization_claimed ≡ true)
    → (claim_found r found).1 ≡ none
unfolding claim_found
claim_found_refused r none claimed = refl
claim_found_refused r (some t) claimed =
    take_claim_refused r t (read_incomplete_reason (r.heap t.cell)) _ (claimed t refl)

-- A token whose cells are claimed is not claimed again.
claim_finalization_refused :
    (r : Registry) (candidate : Token)
    → (r.heap candidate.cell).finalization_claimed ≡ true
    → (claim_finalization r candidate).1 ≡ none
unfolding claim_finalization
claim_finalization_refused r candidate taken =
    claim_found_refused r (find_claimed r.heap candidate r.retained)
      (λ t e. rw ((find_claimed-IsFound r.heap candidate r.retained t e).same_cell) taken)

-- What a claim `claim` of `candidate` says of the registry `r` before and `after` it.
pub record IsSafeClaim (r : Registry) (candidate : Token) (after : Registry)
    (claim : FinalizationClaim) : Type 0 where
  pub held : IsIn claim.token r.retained
  pub same_token : token_eq claim.token candidate ≡ true
  pub same_cell : claim.token.cell ≡ candidate.cell
  pub was_ever_confirmed : was_confirmed (r.heap claim.token.cell) ≡ true
  pub has_durable : has_durable_id (r.heap claim.token.cell).durable_window_id ≡ true
  pub every_admission_settled : is_settled (r.heap claim.token.cell) ≡ true
  pub not_finalized : (r.heap claim.token.cell).finalized ≡ false
  pub was_unclaimed : (r.heap claim.token.cell).finalization_claimed ≡ false
  pub is_claimed : (after.heap claim.token.cell).finalization_claimed ≡ true
  pub progress_reached :
      claim.incomplete_reason ≡ none
      → is_behind
          (r.latest_source_progress (target_source_program claim.token.window.target))
          claim.token.window.closes_at_unix_ms
        ≡ false

waits_reached :
    (reason : Option WindowIncompleteReason) (watermark : Option ℤ) (closes_at : ℤ)
    → waits reason watermark closes_at ≡ false
    → reason ≡ none
    → is_behind watermark closes_at ≡ false
waits_reached (some reason) watermark closes_at h e = ground arith
waits_reached none watermark closes_at h e = h

-- What a successful claim tells of the token.
record IsTaken (r : Registry) (t : Token) (reason : Option WindowIncompleteReason) (wait : Bool)
    (after : Registry) (claim : FinalizationClaim) : Type 0 where
  pub made : record { token = t; incomplete_reason = reason } ≡ claim
  pub no_wait : wait ≡ false
  pub was_free : (r.heap t.cell).finalization_claimed ≡ false
  pub now_claimed : (after.heap t.cell).finalization_claimed ≡ true

take_claim-IsTaken :
    (r : Registry) (t : Token) (reason : Option WindowIncompleteReason) (wait : Bool)
    (claim : FinalizationClaim)
    → (take_claim r t reason wait).1 ≡ some claim
    → IsTaken r t reason wait (take_claim r t reason wait).0 claim
unfolding take_claim try_claim_finalization
take_claim-IsTaken r t reason wait claim e = record {
  made = ground arith;
  no_wait = ground arith;
  was_free = ground arith;
  now_claimed = ground arith;
}

IsTaken-IsSafeClaim :
    (r : Registry) (candidate : Token) (t : Token) (after : Registry) (claim : FinalizationClaim)
    → IsFound r.heap candidate r.retained t
    → IsTaken r t
        (read_incomplete_reason (r.heap t.cell))
        (waits
          (read_incomplete_reason (r.heap t.cell))
          (r.latest_source_progress (target_source_program t.window.target))
          t.window.closes_at_unix_ms)
        after
        claim
    → IsSafeClaim r candidate after claim
unfolding is_finalizable
IsTaken-IsSafeClaim r candidate t after claim found taken =
    subst (IsSafeClaim r candidate after) taken.made (record {
      held = found.held;
      same_token = found.same_token;
      same_cell = found.same_cell;
      was_ever_confirmed = ground (arith, found.finalizable);
      has_durable = ground (arith, found.finalizable);
      every_admission_settled = ground (arith, found.finalizable);
      not_finalized = ground (arith, found.finalizable);
      was_unclaimed = taken.was_free;
      is_claimed = taken.now_claimed;
      progress_reached = waits_reached _ _ _ taken.no_wait;
    })

claim_found-IsSafeClaim :
    (r : Registry) (candidate : Token) (found : Option Token) (claim : FinalizationClaim)
    → ((t : Token) → found ≡ some t → IsFound r.heap candidate r.retained t)
    → (claim_found r found).1 ≡ some claim
    → IsSafeClaim r candidate (claim_found r found).0 claim
unfolding claim_found
claim_found-IsSafeClaim r candidate none claim h e = ground arith
claim_found-IsSafeClaim r candidate (some t) claim h e =
    IsTaken-IsSafeClaim r candidate t _ claim (h t refl)
      (take_claim-IsTaken r t (read_incomplete_reason (r.heap t.cell)) _ claim e)

-- A claim that `claim_finalization` returns is of a retained token equal to the candidate and with its
-- cells, which was confirmed, has a durable id, has settled every admission, is not finalized and was
-- not claimed before; it is claimed after it; and without an incomplete reason the progress of its
-- source had reached the window's close.
pub claim_finalization-IsSafeClaim :
    (r : Registry) (candidate : Token) (claim : FinalizationClaim)
    → (claim_finalization r candidate).1 ≡ some claim
    → IsSafeClaim r candidate (claim_finalization r candidate).0 claim
unfolding claim_finalization
claim_finalization-IsSafeClaim r candidate claim e =
    claim_found-IsSafeClaim r candidate (find_claimed r.heap candidate r.retained) claim
      (find_claimed-IsFound r.heap candidate r.retained) e

-- After a claim that `claim_finalization` returns, a claim of any candidate with the same cells is
-- refused.
claim_finalization_exclusive :
    (r : Registry) (candidate other : Token) (claim : FinalizationClaim)
    → (claim_finalization r candidate).1 ≡ some claim
    → other.cell ≡ candidate.cell
    → (claim_finalization (claim_finalization r candidate).0 other).1 ≡ none
claim_finalization_exclusive r candidate other claim e same =
    let safe = claim_finalization-IsSafeClaim r candidate claim e in
    claim_finalization_refused (claim_finalization r candidate).0 other (
      subst (λ c. ((claim_finalization r candidate).0.heap c).finalization_claimed ≡ true)
        (safe.same_cell ∙ sym same) safe.is_claimed)
