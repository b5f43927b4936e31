-- ===== src/Sync/Delivered.antt =====
-- What the one-time result of levent/lock.lua gives to those who get it.
use levent.Prelude.{
  ℕ, zero, suc, ◌≡◌, refl, sym, ap, ◌∙◌, subst, Bool, true, false, not, ◌||◌, ◌==◌, Option, none,
  some, List, [], ◌∷◌, length, ◌⊎◌, inl, inr, arith,
}
use levent.Sync.Queue.{pick}
use levent.Sync.LockEvent.{without}
use levent.Sync.Links.{pick-none_left}
use levent.Sync.Settled.{uses-outcome, settle-outcome}
use levent.Sync.AsyncResult.{
  Outcome, AsyncResult, init_result, set_outcome, give, get_outcome, result_wake, result_round,
  result_start, Use, settles, gets, starts, times_out, rounds, or_same, use_result, uses,
}

-- This many times the same.
unfoldable pub repeated {ℓ} : {A : Type ℓ} → A → ℕ → List A
repeated x zero = []
repeated x (suc n) = x ∷ repeated x n

-- A call of `_notify` is in its loop or before the loop.
abbrev pub is_noting {ℓ} : {V E : Type ℓ} → AsyncResult V E → Bool
is_noting r = r.running || not (r.callbacks == 0)

-- Nothing was given before it was set; then the outcome, to every one, and who waits is noted.
pub record IsDelivered {ℓ} {V E : Type ℓ} (r : AsyncResult V E) : Type ℓ where
  pub unset : r.outcome ≡ none → (r.given ≡ []) × (is_noting r ≡ false)
  pub same : r.given ≡ repeated r.outcome (length r.given)
  pub woken : (is_noting r ≡ true) ⊎ (r.outcome ≡ none) ⊎ (r.links ≡ [])

give-same {ℓ} :
    {V E : Type ℓ} (r : AsyncResult V E)
    → IsDelivered r
    → (give r).given ≡ repeated (give r).outcome (length (give r).given)
unfolding give repeated
give-same r h = ap (λ os. r.outcome ∷ os) h.same

module _ {ℓ} {V E : Type ℓ} where
  set-IsDelivered :
      (was : Option (Outcome V E)) (o : Outcome V E) (r : AsyncResult V E)
      → r.outcome ≡ was
      → IsDelivered r
      → IsDelivered (or_same r (set_outcome was o r))
  unfolding or_same set_outcome repeated
  set-IsDelivered none o r now h = record {
    unset = λ e. cc;
    same =
        let nothing : r.given ≡ [] = (h.unset now).0 in
        subst (λ os. os ≡ repeated (some o) (length os)) (sym nothing) refl;
    woken = inl (ground arith);
  }
  set-IsDelivered (some p) o r now h = h

  get-IsDelivered :
      (was : Option (Outcome V E)) (r : AsyncResult V E)
      → r.outcome ≡ was
      → IsDelivered r
      → IsDelivered (get_outcome was r)
  unfolding get_outcome give
  get-IsDelivered none r now h = record { unset = h.unset; same = h.same; woken = inr (inl now) }
  get-IsDelivered (some o) r now h = record {
    unset = λ e. let no_one : some o ≡ none = sym now ∙ e in cc;
    same = give-same r h;
    woken = h.woken;
  }

  start-IsDelivered :
      (n : ℕ) (busy : Bool) (r : AsyncResult V E)
      → r.callbacks ≡ n
      → IsDelivered r
      → IsDelivered (result_start n busy r)
  unfolding result_start
  start-IsDelivered zero busy r n_calls h = h
  start-IsDelivered (suc n) true r n_calls h = h
  start-IsDelivered (suc n) false r n_calls h = record {
    unset = λ e.
        let quiet = (h.unset e).1 in
        let busy : is_noting r ≡ true = ground (arith, n_calls) in
        let no_one : true ≡ false = sym busy ∙ quiet in cc;
    same = h.same;
    woken = inl refl;
  }

  busy-IsSet :
      (r : AsyncResult V E) → r.running ≡ true → IsDelivered r → r.outcome ≡ none → true ≡ false
  busy-IsSet r busy h e = ap (λ b. b || not (r.callbacks == 0)) (sym busy) ∙ (h.unset e).1

  wake-IsDelivered :
      (k : ℕ) (o : Option (ℕ × List ℕ)) (r : AsyncResult V E)
      → pick k r.links ≡ o
      → r.running ≡ true
      → IsDelivered r
      → IsDelivered (result_wake o r)
  unfolding result_wake give
  wake-IsDelivered k none r picked busy h = record {
    unset = λ e. let no_one : true ≡ false = busy-IsSet r busy h e in cc;
    same = h.same;
    woken = inr (inr (pick-none_left k r.links picked));
  }
  wake-IsDelivered k (some (c, rest)) r picked busy h = record {
    unset = λ e. let no_one : true ≡ false = busy-IsSet r busy h e in cc;
    same = give-same r h;
    woken = inl (ap (λ b. b || not (r.callbacks == 0)) busy);
  }

  round-IsDelivered :
      (busy : Bool) (k : ℕ) (r : AsyncResult V E)
      → r.running ≡ busy
      → IsDelivered r
      → IsDelivered (result_round busy k r)
  unfolding result_round
  round-IsDelivered true k r now h = wake-IsDelivered k (pick k r.links) r refl now h
  round-IsDelivered false k r now h = h

  unlinked-woken :
      (c : ℕ) (r : AsyncResult V E)
      → (is_noting r ≡ true) ⊎ (r.outcome ≡ none) ⊎ (r.links ≡ [])
      → (is_noting r ≡ true) ⊎ (r.outcome ≡ none) ⊎ (without c r.links ≡ [])
  unfolding without
  unlinked-woken c r (inl noted) = inl noted
  unlinked-woken c r (inr (inl unset)) = inr (inl unset)
  unlinked-woken c r (inr (inr no_links)) = inr (inr (ap (without c) no_links))

  uses-IsDelivered :
      (more : List (Use V E)) (r : AsyncResult V E) → IsDelivered r → IsDelivered (uses more r)
  unfolding uses use_result
  uses-IsDelivered [] r h = h
  uses-IsDelivered (settles o ∷ more) r h =
      uses-IsDelivered more (or_same r (set_outcome r.outcome o r))
        (set-IsDelivered r.outcome o r refl h)
  uses-IsDelivered (gets ∷ more) r h =
      uses-IsDelivered more (get_outcome r.outcome r) (get-IsDelivered r.outcome r refl h)
  uses-IsDelivered (starts ∷ more) r h =
      uses-IsDelivered more (result_start r.callbacks r.running r)
        (start-IsDelivered r.callbacks r.running r refl h)
  uses-IsDelivered (times_out c ∷ more) r h =
      uses-IsDelivered more (record r { links = without c r.links })
        (record { unset = h.unset; same = h.same; woken = unlinked-woken c r h.woken })
  uses-IsDelivered (rounds k ∷ more) r h =
      uses-IsDelivered more (result_round r.running k r) (round-IsDelivered r.running k r refl h)

  init-IsDelivered : IsDelivered (init_result {V = V} {E = E})
  unfolding init_result repeated
  init-IsDelivered = record { unset = λ e. (refl, refl); same = refl; woken = inr (inl refl) }

  noted-or_empty :
      (r : AsyncResult V E) (o : Outcome V E)
      → r.outcome ≡ some o
      → (is_noting r ≡ true) ⊎ (r.outcome ≡ none) ⊎ (r.links ≡ [])
      → (is_noting r ≡ true) ⊎ (r.links ≡ [])
  noted-or_empty r o now (inl noted) = inl noted
  noted-or_empty r o now (inr (inl unset)) = let no_one : some o ≡ none = sym now ∙ unset in cc
  noted-or_empty r o now (inr (inr no_links)) = inr no_links

-- From the moment at which a new result is first set, in any history: it keeps this outcome, whatever it is
-- set to later; every `get` that has ended, other than by a timeout, has given it; and no coroutine waits
-- unless a `_notify` is called or running.
pub settles_lem {ℓ} :
    {V E : Type ℓ} (before after : List (Use V E)) (o : Outcome V E)
    → (uses before init_result).outcome ≡ none
    → let s = uses (settles o ∷ after) (uses before init_result) in
      (s.outcome ≡ some o)
      × (s.given ≡ repeated (some o) (length s.given))
      × ((is_noting s ≡ true) ⊎ (s.links ≡ []))
unfolding uses use_result
settles_lem before after o unset =
    let r = uses before init_result in
    let s = uses (settles o ∷ after) r in
    let now : s.outcome ≡ some o =
      uses-outcome o after (or_same r (set_outcome r.outcome o r))
        (settle-outcome r.outcome o r unset) in
    let h : IsDelivered s =
      uses-IsDelivered (settles o ∷ after) r
        (uses-IsDelivered before init_result init-IsDelivered) in
    (now, h.same ∙ ap (λ u. repeated u (length s.given)) now, noted-or_empty s o now h.woken)
