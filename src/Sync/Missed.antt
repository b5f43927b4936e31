-- ===== src/Sync/Missed.antt =====
-- The event of levent/lock.lua when a waiter times out between `set` and `_notify`.
use levent.Prelude.{
  ℕ, zero, suc, ◌≡◌, refl, sym, ap, subst, ◌∙◌, ◌==◌, Bool, true, false, not, ◌&&◌, some, List, [],
  ◌∷◌, inl, inr, Bool-cases, arith,
}
use levent.Sync.Queue.{pick}
use levent.Sync.Links.{member-append, member-without}
use levent.Sync.LockEvent.{
  LockEvent, init_event, member, without, event_set, event_clear, event_wait, switch, event_round,
  event_start, Act, sets, clears, waits, starts, times_out, rounds, act, acts,
}
use levent.Sync.Single.{IsSingle, acts-IsSingle, init-IsSingle}

-- `set` schedules no `_notify`, because one counts as scheduled, and there is none.
pub record IsMute (e : LockEvent) : Type 0 where
  pub raised : e.notifier ≡ true
  pub no_calls : e.callbacks ≡ 0
  pub idle : e.running ≡ false

-- This waiter does not time out.
unfoldable pub spares : ℕ → List Act → Bool
spares w [] = true
spares w (times_out c ∷ more) = not (c == w) && spares w more
spares w (sets ∷ more) = spares w more
spares w (clears ∷ more) = spares w more
spares w (waits ∷ more) = spares w more
spares w (starts ∷ more) = spares w more
spares w (rounds k ∷ more) = spares w more

-- Mute, and this waiter waits.
abbrev IsLeft : ℕ → LockEvent → Type 0
IsLeft w e = IsMute e × (member w e.links ≡ true)

set-IsLeft : (w : ℕ) (e : LockEvent) → IsLeft w e → IsLeft w (event_set e)
unfolding event_set
set-IsLeft w e (m, waits_now) =
    rw m.raised (record { raised = refl; no_calls = m.no_calls; idle = m.idle }, waits_now)

wait-IsLeft : (w : ℕ) (e : LockEvent) → IsLeft w e → IsLeft w (event_wait e)
unfolding event_wait
wait-IsLeft w e (m, waits_now) = elim (Bool-cases e.flag) [
  | inl up ↦ rw up (record { raised = m.raised; no_calls = m.no_calls; idle = m.idle }, waits_now)
  | inr down ↦ rw down (
    record { raised = m.raised; no_calls = m.no_calls; idle = m.idle },
    ground (arith, member-append w e.links (e.fresh ∷ []), waits_now),
  )
]

start-same : (n : ℕ) (busy : Bool) (e : LockEvent) → n ≡ 0 → event_start n busy e ≡ e
unfolding event_start
start-same zero busy e none_called = refl
start-same (suc n) busy e none_called = cc

round-same : (k : ℕ) (busy : Bool) (e : LockEvent) → busy ≡ false → event_round busy k e ≡ e
unfolding event_round
round-same k true e idle = cc
round-same k false e idle = refl

acts-IsLeft :
    (w : ℕ) (more : List Act) (e : LockEvent)
    → spares w more ≡ true
    → IsLeft w e
    → IsLeft w (acts more e)
unfolding acts act event_clear spares
acts-IsLeft w [] e spared h = h
acts-IsLeft w (times_out c ∷ more) e spared (m, waits_now) =
    let apart : (c == w) ≡ false = ground (arith, spared) in
    let rest : spares w more ≡ true = ground (arith, spared) in
    acts-IsLeft w more (record e { links = without c e.links }) rest
      (
        record { raised = m.raised; no_calls = m.no_calls; idle = m.idle },
        member-without w c e.links apart ∙ waits_now,
      )
acts-IsLeft w (sets ∷ more) e spared h = acts-IsLeft w more (event_set e) spared (set-IsLeft w e h)
acts-IsLeft w (clears ∷ more) e spared (m, waits_now) =
    acts-IsLeft w more (event_clear e) spared
      (record { raised = m.raised; no_calls = m.no_calls; idle = m.idle }, waits_now)
acts-IsLeft w (waits ∷ more) e spared h =
    acts-IsLeft w more (event_wait e) spared (wait-IsLeft w e h)
acts-IsLeft w (starts ∷ more) e spared (m, waits_now) =
    acts-IsLeft w more (event_start e.callbacks e.running e) spared
      (subst (IsLeft w) (sym (start-same e.callbacks e.running e m.no_calls)) (m, waits_now))
acts-IsLeft w (rounds k ∷ more) e spared (m, waits_now) =
    acts-IsLeft w more (event_round e.running k e) spared
      (subst (IsLeft w) (sym (round-same k e.running e m.idle)) (m, waits_now))

abort-IsMute :
    (k c : ℕ) (rest : List ℕ) (e : LockEvent)
    → IsSingle e
    → e.running ≡ true
    → pick k e.todo ≡ some (c, rest)
    → member c e.links ≡ false
    → IsMute (act (rounds k) e) × ((act (rounds k) e).links ≡ e.links)
unfolding act event_round switch
abort-IsMute k c rest e h busy next gone =
    rw busy
      (rw next (rw gone (record { raised = raised; no_calls = h.alone busy; idle = refl }, refl)))
  where
    raised : e.notifier ≡ true
    raised = elim (Bool-cases e.notifier) [
      | inl up ↦ up
      | inr down ↦ let no_one : true ≡ false = sym busy ∙ (h.quiet down).0 in cc
    ]

-- In any history from a new event: when `_notify` comes to a waiter whose wait has ended by a timeout, then
-- whoever waits at that moment waits on, whatever follows, for as long as it does not time out itself, and
-- no `_notify` is called or running any more.
pub missed-set :
    (before more : List Act) (k c w : ℕ) (rest : List ℕ)
    → (acts before init_event).running ≡ true
    → pick k (acts before init_event).todo ≡ some (c, rest)
    → member c (acts before init_event).links ≡ false
    → member w (acts before init_event).links ≡ true
    → spares w more ≡ true
    → IsMute (acts more (act (rounds k) (acts before init_event)))
      × (member w (acts more (act (rounds k) (acts before init_event))).links ≡ true)
missed-set before more k c w rest busy next gone waits_now spared =
    let e = acts before init_event in
    let mute =
      abort-IsMute k c rest e (acts-IsSingle before init_event init-IsSingle) busy next gone in
    acts-IsLeft w more (act (rounds k) e) spared (mute.0, ap (member w) mute.1 ∙ waits_now)
