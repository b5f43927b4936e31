-- ===== src/Sync/Rest.antt =====
-- The rest after a `_notify` of levent/lock.lua, and the way there.
use levent.Prelude.{
  ℕ, zero, suc, ◌≡◌, refl, sym, ap, subst, ◌∙◌, Bool, true, false, Option, none, some, List, [],
  ◌∷◌, inl, inr, Bool-cases,
}
use levent.Sync.Queue.{pick, or_first}
use levent.Sync.Links.{pick-Picked, pick-none_left}
use levent.Sync.LockEvent.{
  LockEvent, event_clear, event_wait, clears, waits, times_out, switch, event_round, event_start,
  Act, sets, starts, rounds, act, acts,
}
use levent.Sync.Notified.{IsNotifying}
use levent.Prelude.{length}

-- Nobody calls `set`, and nobody times out.
unfoldable pub is_calm : List Act → Bool
is_calm [] = true
is_calm (sets ∷ more) = false
is_calm (times_out c ∷ more) = false
is_calm (clears ∷ more) = is_calm more
is_calm (waits ∷ more) = is_calm more
is_calm (starts ∷ more) = is_calm more
is_calm (rounds k ∷ more) = is_calm more

unfoldable pub count_rounds : List Act → ℕ
count_rounds [] = 0
count_rounds (rounds k ∷ more) = suc (count_rounds more)
count_rounds (sets ∷ more) = count_rounds more
count_rounds (times_out c ∷ more) = count_rounds more
count_rounds (clears ∷ more) = count_rounds more
count_rounds (waits ∷ more) = count_rounds more
count_rounds (starts ∷ more) = count_rounds more

-- The loop has nothing of this event to do.
pub record IsAtRest (e : LockEvent) : Type 0 where
  pub notified : e.todo ≡ []
  pub lowered : e.notifier ≡ false
  pub idle : e.running ≡ false
  pub no_calls : e.callbacks ≡ 0

pub or_first-length :
    (x : ℕ) (xs : List ℕ) (o : Option (ℕ × List ℕ)) (c : ℕ) (rest : List ℕ)
    → ((d : ℕ) (more : List ℕ) → o ≡ some (d, more) → length xs ≡ suc (length more))
    → or_first x xs o ≡ some (c, rest)
    → length (x ∷ xs) ≡ suc (length rest)
unfolding or_first
or_first-length x xs none c rest ih h = let tails : xs ≡ rest = cc in ap (λ l. suc (length l)) tails
or_first-length x xs (some (d, more)) c rest ih h =
    let tails : x ∷ more ≡ rest = cc in ap suc (ih d more refl) ∙ ap (λ l. suc (length l)) tails

pub pick-length :
    (k : ℕ) (xs : List ℕ) (c : ℕ) (rest : List ℕ)
    → pick k xs ≡ some (c, rest)
    → length xs ≡ suc (length rest)
unfolding pick
pick-length k [] c rest h = cc
pick-length zero (x ∷ xs) c rest h = let tails : xs ≡ rest = cc in ap (λ l. suc (length l)) tails
pick-length (suc k) (x ∷ xs) c rest h =
    or_first-length x xs (pick k xs) c rest (λ d more. pick-length k xs d more) h

pub idle-round : (busy : Bool) (k : ℕ) (e : LockEvent) → busy ≡ false → event_round busy k e ≡ e
unfolding event_round
idle-round true k e idle = cc
idle-round false k e idle = refl

pub idle-start : (n : ℕ) (busy : Bool) (e : LockEvent) → n ≡ 0 → event_start n busy e ≡ e
unfolding event_start
idle-start zero busy e none_called = refl
idle-start (suc n) busy e none_called = cc

pub busy-start : (n : ℕ) (busy : Bool) (e : LockEvent) → busy ≡ true → event_start n busy e ≡ e
unfolding event_start
busy-start zero busy e now = refl
busy-start (suc n) true e now = refl
busy-start (suc n) false e now = cc

pub wait-same :
    (e : LockEvent)
    → ((event_wait e).todo ≡ e.todo)
      × ((event_wait e).notifier ≡ e.notifier)
      × ((event_wait e).running ≡ e.running)
      × ((event_wait e).callbacks ≡ e.callbacks)
unfolding event_wait
wait-same e = elim (Bool-cases e.flag) [
  | inl up ↦ rw up (refl, refl, refl, refl)
  | inr down ↦ rw down (refl, refl, refl, refl)
]

pub wait-IsAtRest : (e : LockEvent) → IsAtRest e → IsAtRest (event_wait e)
wait-IsAtRest e h =
    let same = wait-same e in
    record {
      notified = same.0 ∙ h.notified;
      lowered = same.1 ∙ h.lowered;
      idle = same.2 ∙ h.idle;
      no_calls = same.3 ∙ h.no_calls;
    }

pub calm-IsAtRest :
    (more : List Act) (e : LockEvent) → is_calm more ≡ true → IsAtRest e → IsAtRest (acts more e)
unfolding acts act is_calm event_clear
calm-IsAtRest [] e calm h = h
calm-IsAtRest (sets ∷ more) e calm h = cc
calm-IsAtRest (times_out c ∷ more) e calm h = cc
calm-IsAtRest (clears ∷ more) e calm h =
    calm-IsAtRest more (event_clear e) calm
      (record { notified = h.notified; lowered = h.lowered; idle = h.idle; no_calls = h.no_calls })
calm-IsAtRest (waits ∷ more) e calm h = calm-IsAtRest more (event_wait e) calm (wait-IsAtRest e h)
calm-IsAtRest (starts ∷ more) e calm h =
    calm-IsAtRest more (event_start e.callbacks e.running e) calm
      (subst IsAtRest (sym (idle-start e.callbacks e.running e h.no_calls)) h)
calm-IsAtRest (rounds k ∷ more) e calm h =
    calm-IsAtRest more (event_round e.running k e) calm
      (subst IsAtRest (sym (idle-round e.running k e h.idle)) h)

pub none-IsAtRest :
    (k : ℕ) (e : LockEvent) → pick k e.todo ≡ none → e.callbacks ≡ 0 → IsAtRest (switch e none)
unfolding switch
none-IsAtRest k e picked alone = record {
  notified = pick-none_left k e.todo picked;
  lowered = refl;
  idle = refl;
  no_calls = alone;
}

pub switch-shorter :
    (k c : ℕ) (rest : List ℕ) (e : LockEvent)
    → pick k e.todo ≡ some (c, rest)
    → e.running ≡ true
    → IsNotifying e
    → ((switch e (some (c, rest))).running ≡ true)
      × (length e.todo ≡ suc (length (switch e (some (c, rest))).todo))
unfolding switch
switch-shorter k c rest e picked busy h =
    rw (h.waiting c (pick-Picked k e.todo c rest picked).there)
      (busy, pick-length k e.todo c rest picked)

pub round-busy :
    (busy : Bool) (k : ℕ) (e : LockEvent)
    → busy ≡ true
    → event_round busy k e ≡ switch e (pick k e.todo)
unfolding event_round
round-busy true k e now = refl
round-busy false k e now = cc
