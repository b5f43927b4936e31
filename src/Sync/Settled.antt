-- ===== src/Sync/Settled.antt =====
-- The one-time result of levent/lock.lua keeps its first outcome.
use levent.Prelude.{
  ℕ, zero, suc, ◌≡◌, refl, sym, ◌∙◌, Bool, true, false, Option, none, some, List, [], ◌∷◌,
}
use levent.Sync.Queue.{pick}
use levent.Sync.LockEvent.{without}
use levent.Sync.AsyncResult.{
  Outcome, AsyncResult, set_outcome, give, get_outcome, result_wake, result_round, result_start,
  Use, settles, gets, starts, times_out, rounds, or_same, use_result, uses,
}

module _ {ℓ} {V E : Type ℓ} where
  settled-outcome :
      (was : Option (Outcome V E)) (o p : Outcome V E) (r : AsyncResult V E)
      → r.outcome ≡ was
      → r.outcome ≡ some o
      → (or_same r (set_outcome was p r)).outcome ≡ some o
  unfolding or_same set_outcome
  settled-outcome none o p r now e = let no_one : none ≡ some o = sym now ∙ e in cc
  settled-outcome (some q) o p r now e = e

  got-outcome :
      (was : Option (Outcome V E)) (r : AsyncResult V E) → (get_outcome was r).outcome ≡ r.outcome
  unfolding get_outcome give
  got-outcome none r = refl
  got-outcome (some o) r = refl

  started-outcome :
      (n : ℕ) (busy : Bool) (r : AsyncResult V E) → (result_start n busy r).outcome ≡ r.outcome
  unfolding result_start
  started-outcome zero busy r = refl
  started-outcome (suc n) true r = refl
  started-outcome (suc n) false r = refl

  woken-outcome :
      (o : Option (ℕ × List ℕ)) (r : AsyncResult V E) → (result_wake o r).outcome ≡ r.outcome
  unfolding result_wake give
  woken-outcome none r = refl
  woken-outcome (some (c, rest)) r = refl

  round-outcome :
      (busy : Bool) (k : ℕ) (r : AsyncResult V E) → (result_round busy k r).outcome ≡ r.outcome
  unfolding result_round
  round-outcome true k r = woken-outcome (pick k r.links) r
  round-outcome false k r = refl

  pub uses-outcome :
      (o : Outcome V E) (more : List (Use V E)) (r : AsyncResult V E)
      → r.outcome ≡ some o
      → (uses more r).outcome ≡ some o
  unfolding uses use_result
  uses-outcome o [] r e = e
  uses-outcome o (settles p ∷ more) r e =
      uses-outcome o more (or_same r (set_outcome r.outcome p r))
        (settled-outcome r.outcome o p r refl e)
  uses-outcome o (gets ∷ more) r e =
      uses-outcome o more (get_outcome r.outcome r) (got-outcome r.outcome r ∙ e)
  uses-outcome o (starts ∷ more) r e =
      uses-outcome o more (result_start r.callbacks r.running r)
        (started-outcome r.callbacks r.running r ∙ e)
  uses-outcome o (times_out c ∷ more) r e =
      uses-outcome o more (record r { links = without c r.links }) e
  uses-outcome o (rounds k ∷ more) r e =
      uses-outcome o more (result_round r.running k r) (round-outcome r.running k r ∙ e)

  pub settle-outcome :
      (was : Option (Outcome V E)) (o : Outcome V E) (r : AsyncResult V E)
      → was ≡ none
      → (or_same r (set_outcome was o r)).outcome ≡ some o
  unfolding or_same set_outcome
  settle-outcome none o r e = refl
  settle-outcome (some p) o r e = cc
