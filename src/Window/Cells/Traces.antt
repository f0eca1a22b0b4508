-- ===== src/Window/Cells/Traces.antt =====
-- What holds of a token's cells over every sequence of the atomic steps of its methods, in any interleaving
-- of callers (crates/discovery-engine/src/lib.rs).
use soldisco.Prelude.{
  ℕ, ◌+◌, ◌-◌, ◌==◌, Option, if◌then◌else◌, ◌≤◌, ◌<◌, ◌^◌, ◌≡◌, ◌⊎◌, refl, inl, inr, Bool-cases,
  List, [], ◌∷◌, none, some, true, false, arith,
}
use soldisco.Prelude.Int.{ℤ}
use soldisco.Window.Target.{code}
use soldisco.Window.Cells.{
  WindowState, Cells, new_cells, is_live, is_ever_confirmed, is_finalized, count_admission,
  mark_admitted,
}
use soldisco.Window.Cells.Steps.{
  TokenCall, begins_admission, admits, SharedToken, opened_token, write_step, with_first, pick,
  update, call, call_all,
}

-- What holds between two calls.
pub record IsCoherent (self : Cells) : Type 0 where
  pub settled_le : self.settled ≤ self.admitted
  pub admitted_word : self.admitted < 2 ^ 64
  pub durable_confirmed : (self.durable_window_id ≡ none) ⊎ (is_ever_confirmed self.state ≡ true)
  pub cancelled_incomplete :
      self.state ≡ WindowState.cancelled_confirmed → 0 < self.incomplete_reason
  pub reason_known : self.incomplete_reason ≤ 8

write_step-IsCoherent :
    (self : Cells) (c : TokenCall) → IsCoherent self → IsCoherent (write_step self c)
unfolding write_step code
write_step-IsCoherent self c v = ground arith

mark_admitted-IsCoherent :
    (seen self : Cells) → IsCoherent self → IsCoherent (mark_admitted seen self).0
unfolding mark_admitted count_admission
mark_admitted-IsCoherent seen self v = ground arith

update-IsCoherent :
    (cells : Cells) (loaded : List Cells) (picked : Option (Cells × List Cells))
    → IsCoherent cells
    → IsCoherent (update cells loaded picked).cells
update-IsCoherent cells loaded none v = v
update-IsCoherent cells loaded (some (seen, rest)) v = mark_admitted-IsCoherent seen cells v

call-IsCoherent :
    (self : SharedToken) (c : TokenCall) → IsCoherent self.cells → IsCoherent (call self c).cells
unfolding call
call-IsCoherent self begins_admission v = v
call-IsCoherent self (admits n) v = update-IsCoherent self.cells self.loaded (pick n self.loaded) v
call-IsCoherent self c v = write_step-IsCoherent self.cells c v

-- What later cells keep of earlier ones.
pub record Keeps (before after : Cells) : Type 0 where
  pub first_reason_kept :
      0 < before.incomplete_reason → after.incomplete_reason ≡ before.incomplete_reason
  pub cancelled_kept : is_live before.state ≡ false → after.state ≡ before.state
  pub confirmed_kept : is_ever_confirmed before.state ≡ true → is_ever_confirmed after.state ≡ true
  pub durable_kept :
      (id : ℤ) → before.durable_window_id ≡ some id → after.durable_window_id ≡ some id
  pub settled_grows : before.settled ≤ after.settled
  pub admitted_grows : before.admitted ≤ after.admitted
  pub finalized_kept : before.finalized ≡ true → after.finalized ≡ true

write_step-Keeps : (self : Cells) (c : TokenCall) → Keeps self (write_step self c)
unfolding write_step
write_step-Keeps self c = record {
  first_reason_kept = λ h. ground arith;
  cancelled_kept = λ h. ground arith;
  confirmed_kept = λ h. ground arith;
  durable_kept = λ id h. ground arith;
  settled_grows = ground arith;
  admitted_grows = ground arith;
  finalized_kept = λ h. ground arith;
}

Keeps-refl : (a : Cells) → Keeps a a
Keeps-refl a = record {
  first_reason_kept = λ h. refl;
  cancelled_kept = λ h. refl;
  confirmed_kept = λ h. h;
  durable_kept = λ id h. h;
  settled_grows = omega arith;
  admitted_grows = omega arith;
  finalized_kept = λ h. h;
}

Keeps-trans : {a b c : Cells} → Keeps a b → Keeps b c → Keeps a c
Keeps-trans p q = record {
  first_reason_kept = λ h. ground (arith, p.first_reason_kept h, q.first_reason_kept);
  cancelled_kept = λ h. ground (arith, p.cancelled_kept h, q.cancelled_kept);
  confirmed_kept = λ h. q.confirmed_kept (p.confirmed_kept h);
  durable_kept = λ id h. q.durable_kept id (p.durable_kept id h);
  settled_grows = omega (arith, p.settled_grows, q.settled_grows);
  admitted_grows = omega (arith, p.admitted_grows, q.admitted_grows);
  finalized_kept = λ h. q.finalized_kept (p.finalized_kept h);
}

mark_admitted-Keeps : (seen self : Cells) → Keeps self (mark_admitted seen self).0
unfolding mark_admitted count_admission
mark_admitted-Keeps seen self = record {
  first_reason_kept = λ h. ground arith;
  cancelled_kept = λ h. ground arith;
  confirmed_kept = λ h. ground arith;
  durable_kept = λ id h. ground arith;
  settled_grows = ground arith;
  admitted_grows = ground arith;
  finalized_kept = λ h. ground arith;
}

-- How many of the callers that stand before their update found the token not finalized.
abbrev pub open_loads : List Cells → ℕ
open_loads [] = 0
open_loads (seen ∷ rest) = (if seen.finalized then 0 else 1) + open_loads rest

-- What later states of a shared token keep of earlier ones.
pub record KeepsShared (before after : SharedToken) : Type 0 where
  pub cells_kept : Keeps before.cells after.cells
  pub admission_closes :
      before.cells.finalized ≡ true
      → after.cells.admitted + open_loads after.loaded
        ≤ before.cells.admitted + open_loads before.loaded

KeepsShared-refl : (self : SharedToken) → KeepsShared self self
KeepsShared-refl self = record {
  cells_kept = Keeps-refl self.cells;
  admission_closes = λ h. omega arith;
}

-- The caller that is picked and the others are those that stood there.
abbrev Accounts : List Cells → Option (Cells × List Cells) → Type 0
Accounts loaded none = Unit
Accounts loaded (some (seen, rest)) =
    open_loads loaded ≡ open_loads rest + (if seen.finalized then 0 else 1)

with_first-Accounts :
    (first : Cells) (loaded : List Cells) (picked : Option (Cells × List Cells))
    → Accounts loaded picked
    → Accounts (first ∷ loaded) (with_first first picked)
with_first-Accounts first loaded none h = tt
with_first-Accounts first loaded (some (seen, rest)) h = omega (arith, h)

pick-Accounts : (n : ℕ) (loaded : List Cells) → Accounts loaded (pick n loaded)
pick-Accounts n [] = tt
pick-Accounts n (first ∷ loaded) = elim (Bool-cases (n == 0)) [
  | inl chosen ↦ rw chosen (omega arith)
  | inr later ↦
      rw later
        (with_first-Accounts first loaded (pick (n - 1) loaded) (pick-Accounts (n - 1) loaded))
]

mark_admitted_counts :
    (seen self : Cells)
    → (mark_admitted seen self).0.admitted ≤ self.admitted + (if seen.finalized then 0 else 1)
unfolding mark_admitted is_finalized count_admission
mark_admitted_counts seen self = ground arith

update-KeepsShared :
    (self : SharedToken) (picked : Option (Cells × List Cells))
    → Accounts self.loaded picked
    → KeepsShared self (update self.cells self.loaded picked)
update-KeepsShared self none e = KeepsShared-refl self
update-KeepsShared self (some (seen, rest)) e = record {
  cells_kept = mark_admitted-Keeps seen self.cells;
  admission_closes = λ h. omega (arith, mark_admitted_counts seen self.cells, e);
}

write-KeepsShared :
    (self : SharedToken) (c : TokenCall)
    → KeepsShared self (record self { cells = write_step self.cells c })
unfolding write_step
write-KeepsShared self c = record {
  cells_kept = write_step-Keeps self.cells c;
  admission_closes = λ h. ground arith;
}

call-KeepsShared : (self : SharedToken) (c : TokenCall) → KeepsShared self (call self c)
unfolding call
call-KeepsShared self begins_admission = record {
  cells_kept = Keeps-refl self.cells;
  admission_closes = λ h. ground arith;
}
call-KeepsShared self (admits n) =
    update-KeepsShared self (pick n self.loaded) (pick-Accounts n self.loaded)
call-KeepsShared self c = write-KeepsShared self c

KeepsShared-trans : {a b c : SharedToken} → KeepsShared a b → KeepsShared b c → KeepsShared a c
KeepsShared-trans p q = record {
  cells_kept = Keeps-trans p.cells_kept q.cells_kept;
  admission_closes =
      λ h. omega (arith, p.admission_closes h, q.admission_closes (p.cells_kept.finalized_kept h));
}

-- Over every sequence of steps the first recorded reason stays, a cancelled window stays cancelled, a
-- confirmed one stays confirmed or cancelled, the durable id and the finalization are permanent, the
-- counters only grow, and after finalization only those admissions are counted whose caller had found the
-- token not finalized before.
pub call_all-Keeps :
    (self : SharedToken) (cs : List TokenCall) → KeepsShared self (call_all self cs)
unfolding call_all
call_all-Keeps self [] = KeepsShared-refl self
call_all-Keeps self (c ∷ cs) =
    KeepsShared-trans (call-KeepsShared self c) (call_all-Keeps (call self c) cs)

call_all-IsCoherent_from :
    (self : SharedToken) (cs : List TokenCall)
    → IsCoherent self.cells
    → IsCoherent (call_all self cs).cells
unfolding call_all
call_all-IsCoherent_from self [] v = v
call_all-IsCoherent_from self (c ∷ cs) v =
    call_all-IsCoherent_from (call self c) cs (call-IsCoherent self c v)

new_cells-IsCoherent : IsCoherent new_cells
new_cells-IsCoherent = record {
  settled_le = omega arith;
  admitted_word = omega arith;
  durable_confirmed = inl refl;
  cancelled_incomplete = λ e. cc;
  reason_known = omega arith;
}

-- A token that was opened pending never settles more than it admitted, has a durable id only if it
-- was confirmed, and carries a reason whenever a confirmed window was cancelled.
pub call_all-IsCoherent : (cs : List TokenCall) → IsCoherent (call_all opened_token cs).cells
call_all-IsCoherent cs = call_all-IsCoherent_from opened_token cs new_cells-IsCoherent
