-- ===== src/Sync/Woken.antt =====
-- Whom `set` of the event of levent/lock.lua wakes.
use levent.Prelude.{
  ℕ, zero, suc, ◌≡◌, ◌<◌, ◌⊎◌, refl, sym, ap, subst, ◌∙◌, ◌==◌, ==_iff, Bool, true, false, Option,
  none, some, List, [], ◌∷◌, inl, inr, Bool-cases, arith,
}
use levent.Sync.Queue.{pick}
use levent.Sync.Links.{member-append, without-gone, Picked, pick-Picked, without-member}
use levent.Sync.LockEvent.{
  LockEvent, init_event, member, without, copy_links, event_set, event_clear, event_wait, switch,
  event_round, event_start, Act, sets, clears, waits, starts, times_out, rounds, act, acts,
}
use levent.Sync.Notified.{
  copy_links-member, is_called, IsNotifying, set-IsNotifying, wait-IsNotifying, start-IsNotifying,
  round-IsNotifying, is_patient, acts-IsNotifying, init-IsNotifying,
}

-- If this waiter still waits, it is among those to be notified; and it is no waiter to come.
record IsDue (w : ℕ) (e : LockEvent) : Type 0 where
  listed : member w e.links ≡ true → member w e.todo ≡ true
  known : w < e.fresh

set-IsDue :
    (w : ℕ) (e : LockEvent)
    → w < e.fresh
    → (w < (event_set e).fresh)
      × ((event_set e).links ≡ e.links)
      × ((event_set e).todo ≡ copy_links e.links e.todo)
unfolding event_set
set-IsDue w e known = elim (Bool-cases e.notifier) [
  | inl up ↦ rw up (known, refl, refl)
  | inr down ↦ rw down (known, refl, refl)
]

set_again-IsDue : (w : ℕ) (e : LockEvent) → w < e.fresh → IsDue w (event_set e)
set_again-IsDue w e known =
    let links_todo = set-IsDue w e known in
    record {
      listed = λ m.
          rw links_todo.2 (copy_links-member w e.links e.todo ∙ ground (arith, m, links_todo.1));
      known = links_todo.0;
    }

wait-IsDue : (w : ℕ) (e : LockEvent) → IsDue w e → IsDue w (event_wait e)
unfolding event_wait member
wait-IsDue w e d = elim (Bool-cases e.flag) [
  | inl up ↦ rw up (record { listed = d.listed; known = d.known })
  | inr down ↦ rw down (record {
    listed = λ m.
        d.listed
          (ground (arith, m, member-append w e.links (e.fresh ∷ []), ==_iff e.fresh w, d.known));
    known = ground (arith, d.known);
  })
]

switch-IsDue :
    (w k : ℕ) (e : LockEvent) (o : Option (ℕ × List ℕ))
    → pick k e.todo ≡ o
    → IsNotifying e
    → IsDue w e
    → IsDue w (switch e o)
unfolding switch
switch-IsDue w k e none picked h d = record { listed = d.listed; known = d.known }
switch-IsDue w k e (some (c, rest)) picked h d =
    let p = pick-Picked k e.todo c rest picked in
    rw (h.waiting c p.there) (record { listed = λ m. still_listed c rest p m; known = d.known })
  where
    still_listed :
        (c : ℕ) (rest : List ℕ)
        → Picked c rest e.todo
        → member w (without c e.links) ≡ true
        → member w rest ≡ true
    still_listed c rest p m = elim (Bool-cases (c == w)) [
      | inl same ↦
          let gone : member w (without w e.links) ≡ true =
            subst (λ u. member w (without u e.links) ≡ true) ((==_iff c w).0 same) m in
          let no_one : true ≡ false = sym gone ∙ without-gone w e.links in cc
      | inr apart ↦
          let there : member w e.todo ≡ true = d.listed (without-member w c e.links m) in
          ground (arith, p.others w, there, apart)
    ]

start-IsDue : (w n : ℕ) (busy : Bool) (e : LockEvent) → IsDue w e → IsDue w (event_start n busy e)
unfolding event_start
start-IsDue w zero busy e d = d
start-IsDue w (suc n) true e d = d
start-IsDue w (suc n) false e d = record { listed = d.listed; known = d.known }

round-IsDue :
    (w : ℕ) (busy : Bool) (k : ℕ) (e : LockEvent)
    → IsNotifying e
    → IsDue w e
    → IsDue w (event_round busy k e)
unfolding event_round
round-IsDue w true k e h d = switch-IsDue w k e (pick k e.todo) refl h d
round-IsDue w false k e h d = d

acts-IsDue :
    (w : ℕ) (more : List Act) (e : LockEvent)
    → is_patient more ≡ true
    → IsNotifying e
    → IsDue w e
    → IsDue w (acts more e)
unfolding acts act is_patient event_clear
acts-IsDue w [] e calm h d = d
acts-IsDue w (times_out c ∷ more) e calm h d = cc
acts-IsDue w (sets ∷ more) e calm h d =
    acts-IsDue w more (event_set e) calm (set-IsNotifying e h) (set_again-IsDue w e d.known)
acts-IsDue w (clears ∷ more) e calm h d =
    acts-IsDue w more (event_clear e) calm (acts-IsNotifying (clears ∷ []) e refl h)
      (record { listed = d.listed; known = d.known })
acts-IsDue w (waits ∷ more) e calm h d =
    acts-IsDue w more (event_wait e) calm (wait-IsNotifying e h) (wait-IsDue w e d)
acts-IsDue w (starts ∷ more) e calm h d =
    acts-IsDue w more (event_start e.callbacks e.running e) calm
      (start-IsNotifying e.callbacks e.running e refl refl h)
      (start-IsDue w e.callbacks e.running e d)
acts-IsDue w (rounds k ∷ more) e calm h d =
    acts-IsDue w more (event_round e.running k e) calm (round-IsNotifying e.running k e refl h)
      (round-IsDue w e.running k e h d)

-- Nothing is left to do when no `_notify` is called.
rest-todo :
    (e : LockEvent)
    → IsNotifying e
    → is_called e ≡ false
    → (e.todo ≡ []) ⊎ (e.notifier ≡ true)
    → e.todo ≡ []
rest-todo e h rest (inl none_left) = none_left
rest-todo e h rest (inr up) = let no_one : true ≡ false = sym (h.called up) ∙ rest in cc

-- In a history in which nobody times out, everyone who waits at a call of `set` is woken: whatever follows,
-- once no `_notify` is called or running, that wait has ended.
pub set-wakes :
    (before after : List Act) (w : ℕ)
    → is_patient before ≡ true
    → is_patient after ≡ true
    → member w (acts before init_event).links ≡ true
    → is_called (acts after (event_set (acts before init_event))) ≡ false
    → member w (acts after (event_set (acts before init_event))).links ≡ false
unfolding member
set-wakes before after w calm_before calm_after waits_now rest =
    let e = acts before init_event in
    let s = acts after (event_set e) in
    let h : IsNotifying e = acts-IsNotifying before init_event calm_before init-IsNotifying in
    let h2 : IsNotifying (event_set e) = set-IsNotifying e h in
    let h3 : IsNotifying s = acts-IsNotifying after (event_set e) calm_after h2 in
    let d : IsDue w s =
      acts-IsDue w after (event_set e) calm_after h2 (set_again-IsDue w e (h.older w waits_now)) in
    let nobody : member w s.todo ≡ false = ap (member w) (rest-todo s h3 rest h3.raised) in
    elim (Bool-cases (member w s.links)) [
      | inl waits_still ↦ let no_one : true ≡ false = sym (d.listed waits_still) ∙ nobody in cc
      | inr gone ↦ gone
    ]
