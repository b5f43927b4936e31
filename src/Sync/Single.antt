-- ===== src/Sync/Single.antt =====
-- At most one `_notify` of an event of levent/lock.lua is called or running.
use levent.Prelude.{
  ℕ, zero, suc, ◌≡◌, ◌≤◌, refl, sym, ◌∙◌, Bool, true, false, Option, none, some, List, [], ◌∷◌, inl,
  inr, Bool-cases, arith,
}
use levent.Sync.Queue.{pick}
use levent.Sync.LockEvent.{
  LockEvent, init_event, member, without, event_set, event_clear, event_wait, switch, event_round,
  event_start, Act, sets, clears, waits, starts, times_out, rounds, act, acts,
}

-- At most one `_notify` is called or running, and none without `notifier`.
pub record IsSingle (e : LockEvent) : Type 0 where
  pub quiet : e.notifier ≡ false → (e.running ≡ false) × (e.callbacks ≡ 0)
  pub few : e.callbacks ≤ 1
  pub alone : e.running ≡ true → e.callbacks ≡ 0

pub set-IsSingle : (e : LockEvent) → IsSingle e → IsSingle (event_set e)
unfolding event_set
set-IsSingle e h = elim (Bool-cases e.notifier) [
  | inl up ↦ rw up (record { quiet = λ q. cc; few = h.few; alone = h.alone })
  | inr down ↦
      let idle = h.quiet down in
      rw down (record {
        quiet = λ q. cc;
        few = let none_called : e.callbacks ≡ 0 = idle.1 in omega arith;
        alone = λ b. let now : true ≡ false = sym b ∙ idle.0 in cc;
      })
]

pub wait-IsSingle : (e : LockEvent) → IsSingle e → IsSingle (event_wait e)
unfolding event_wait
wait-IsSingle e h = elim (Bool-cases e.flag) [
  | inl up ↦ rw up (record { quiet = h.quiet; few = h.few; alone = h.alone })
  | inr down ↦ rw down (record { quiet = h.quiet; few = h.few; alone = h.alone })
]

pub start-IsSingle :
    (n : ℕ) (busy : Bool) (e : LockEvent)
    → e.callbacks ≡ n
    → e.running ≡ busy
    → IsSingle e
    → IsSingle (event_start n busy e)
unfolding event_start
start-IsSingle zero busy e n_calls now h = h
start-IsSingle (suc n) true e n_calls now h = h
start-IsSingle (suc n) false e n_calls now h =
    let few : e.callbacks ≤ 1 = h.few in
    record {
      quiet = λ q.
          let n_zero : e.callbacks ≡ 0 = (h.quiet q).1 in
          let no_call : suc n ≡ 0 = sym n_calls ∙ n_zero in (cc, cc);
      few = omega arith;
      alone = λ b. omega arith;
    }

pub switch-IsSingle :
    (e : LockEvent) (o : Option (ℕ × List ℕ))
    → e.running ≡ true
    → IsSingle e
    → IsSingle (switch e o)
unfolding switch
switch-IsSingle e none now h = record {
  quiet = λ q. (refl, h.alone now);
  few = h.few;
  alone = λ b. h.alone now;
}
switch-IsSingle e (some (c, rest)) now h = elim (Bool-cases (member c e.links)) [
  | inl linked ↦ rw linked (record { quiet = h.quiet; few = h.few; alone = h.alone })
  | inr gone ↦
      rw gone (record { quiet = λ q. (refl, (h.quiet q).1); few = h.few; alone = λ b. h.alone now })
]

pub round-IsSingle :
    (busy : Bool) (k : ℕ) (e : LockEvent)
    → e.running ≡ busy
    → IsSingle e
    → IsSingle (event_round busy k e)
unfolding event_round
round-IsSingle true k e now h = switch-IsSingle e (pick k e.todo) now h
round-IsSingle false k e now h = h

pub acts-IsSingle : (more : List Act) (e : LockEvent) → IsSingle e → IsSingle (acts more e)
unfolding acts act event_clear
acts-IsSingle [] e h = h
acts-IsSingle (times_out c ∷ more) e h =
    acts-IsSingle more (record e { links = without c e.links })
      (record { quiet = h.quiet; few = h.few; alone = h.alone })
acts-IsSingle (sets ∷ more) e h = acts-IsSingle more (event_set e) (set-IsSingle e h)
acts-IsSingle (clears ∷ more) e h =
    acts-IsSingle more (event_clear e) (record { quiet = h.quiet; few = h.few; alone = h.alone })
acts-IsSingle (waits ∷ more) e h = acts-IsSingle more (event_wait e) (wait-IsSingle e h)
acts-IsSingle (starts ∷ more) e h =
    acts-IsSingle more (event_start e.callbacks e.running e)
      (start-IsSingle e.callbacks e.running e refl refl h)
acts-IsSingle (rounds k ∷ more) e h =
    acts-IsSingle more (event_round e.running k e) (round-IsSingle e.running k e refl h)

pub init-IsSingle : IsSingle init_event
unfolding init_event
init-IsSingle = record { quiet = λ q. (refl, refl); few = omega arith; alone = λ b. refl }
