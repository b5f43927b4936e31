-- ===== src/Sync/Notified.antt =====
-- Whom the event of levent/lock.lua wakes.
use levent.Prelude.{
  ℕ, zero, suc, ◌+◌, ◌≡◌, ◌<◌, ◌⊎◌, refl, sym, ap, ◌∙◌, ◌==◌, ==_iff, Bool, true, false, not, ◌||◌,
  Option, none, some, List, [], ◌∷◌, ◌++◌, inl, inr, Bool-cases, arith,
}
use levent.Sync.Queue.{pick}
use levent.Sync.Links.{
  distinct, member-append, member-without, distinct-snoc, pick-Picked, pick-none_left,
  without-member,
}
use levent.Sync.LockEvent.{
  LockEvent, init_event, member, copy_links, event_set, event_clear, event_wait, switch,
  event_round, event_start, Act, sets, clears, waits, starts, times_out, rounds, act, acts,
}

-- A call of `_notify` is in its loop or before the loop.
abbrev pub is_called : LockEvent → Bool
is_called e = e.running || not (e.callbacks == 0)

-- The waiters to be notified wait, none twice, and a call for them was made and is under way.
pub record IsNotifying (e : LockEvent) : Type 0 where
  pub waiting : (c : ℕ) → member c e.todo ≡ true → member c e.links ≡ true
  pub once : distinct e.todo ≡ true
  pub raised : (e.todo ≡ []) ⊎ (e.notifier ≡ true)
  pub called : e.notifier ≡ true → is_called e ≡ true
  pub older : (c : ℕ) → member c e.links ≡ true → c < e.fresh

pub copy_links-member :
    (c : ℕ) (links todo : List ℕ)
    → member c (copy_links links todo) ≡ (member c links || member c todo)
unfolding copy_links member
copy_links-member c [] todo = refl
copy_links-member c (d ∷ links) todo = elim (Bool-cases (member d todo)) [
  | inl e ↦ rw e (ground (arith, copy_links-member c links todo, ==_iff d c, e))
  | inr e ↦
      rw e (
        ground (arith, copy_links-member c links (todo ++ (d ∷ [])), member-append c todo (d ∷ [])))
]

copy_links-distinct :
    (links todo : List ℕ) → distinct todo ≡ true → distinct (copy_links links todo) ≡ true
unfolding copy_links
copy_links-distinct [] todo h = h
copy_links-distinct (d ∷ links) todo h = elim (Bool-cases (member d todo)) [
  | inl e ↦ rw e (copy_links-distinct links todo h)
  | inr e ↦ rw e (copy_links-distinct links (todo ++ (d ∷ [])) (distinct-snoc d todo e h))
]

pub set-IsNotifying : (e : LockEvent) → IsNotifying e → IsNotifying (event_set e)
unfolding event_set
set-IsNotifying e h = elim (Bool-cases e.notifier) [
  | inl up ↦ rw up (record {
    waiting = λ c m. ground (arith, h.waiting c, copy_links-member c e.links e.todo, m);
    once = copy_links-distinct e.links e.todo h.once;
    raised = inr refl;
    called = λ u. h.called up;
    older = h.older;
  })
  | inr down ↦ rw down (record {
    waiting = λ c m. ground (arith, h.waiting c, copy_links-member c e.links e.todo, m);
    once = copy_links-distinct e.links e.todo h.once;
    raised = inr refl;
    called = λ u. ground arith;
    older = h.older;
  })
]

older_still :
    (e : LockEvent) (c : ℕ)
    → member c (e.links ++ (e.fresh ∷ [])) ≡ true
    → (member c e.links ≡ true → c < e.fresh)
    → c < e.fresh + 1
unfolding member
older_still e c m older = elim (Bool-cases (member c e.links)) [
  | inl linked ↦ let below : c < e.fresh = older linked in omega arith
  | inr unlinked ↦ ground (arith, member-append c e.links (e.fresh ∷ []), ==_iff e.fresh c)
]

pub wait-IsNotifying : (e : LockEvent) → IsNotifying e → IsNotifying (event_wait e)
unfolding event_wait
wait-IsNotifying e h = elim (Bool-cases e.flag) [
  | inl up ↦ rw up (record {
    waiting = h.waiting;
    once = h.once;
    raised = h.raised;
    called = h.called;
    older = h.older;
  })
  | inr down ↦ rw down (record {
    waiting = λ c m. ground (arith, h.waiting c m, member-append c e.links (e.fresh ∷ []));
    once = h.once;
    raised = h.raised;
    called = h.called;
    older = λ c m. older_still e c m (h.older c);
  })
]

still_raised :
    (e : LockEvent) (c : ℕ)
    → member c e.todo ≡ true
    → (e.todo ≡ []) ⊎ (e.notifier ≡ true)
    → e.notifier ≡ true
unfolding member
still_raised e c there (inl none_left) =
    let no_one : false ≡ true = ap (member c) (sym none_left) ∙ there in cc
still_raised e c there (inr up) = up

pub switch-IsNotifying :
    (k : ℕ) (e : LockEvent) (o : Option (ℕ × List ℕ))
    → pick k e.todo ≡ o
    → e.running ≡ true
    → IsNotifying e
    → IsNotifying (switch e o)
unfolding switch
switch-IsNotifying k e none picked busy h = record {
  waiting = h.waiting;
  once = h.once;
  raised = inl (pick-none_left k e.todo picked);
  called = λ u. cc;
  older = h.older;
}
switch-IsNotifying k e (some (c, rest)) picked busy h =
    let p = pick-Picked k e.todo c rest picked in
    rw (h.waiting c p.there) (record {
      waiting = λ d m.
          let apart : (c == d) ≡ false = ground (arith, ==_iff c d, m, (p.apart h.once).1) in
          ground (arith, member-without d c e.links apart, h.waiting d, p.others d, m);
      once = (p.apart h.once).0;
      raised = inr (still_raised e c p.there h.raised);
      called = λ u. h.called u;
      older = λ d m. h.older d (without-member d c e.links m);
    })

pub start-IsNotifying :
    (n : ℕ) (busy : Bool) (e : LockEvent)
    → e.callbacks ≡ n
    → e.running ≡ busy
    → IsNotifying e
    → IsNotifying (event_start n busy e)
unfolding event_start
start-IsNotifying zero busy e n_calls now h = h
start-IsNotifying (suc n) true e n_calls now h = h
start-IsNotifying (suc n) false e n_calls now h = record {
  waiting = h.waiting;
  once = h.once;
  raised = h.raised;
  called = λ u. refl;
  older = h.older;
}

pub round-IsNotifying :
    (busy : Bool) (k : ℕ) (e : LockEvent)
    → e.running ≡ busy
    → IsNotifying e
    → IsNotifying (event_round busy k e)
unfolding event_round
round-IsNotifying true k e now h = switch-IsNotifying k e (pick k e.todo) refl now h
round-IsNotifying false k e now h = h

-- Nobody times out.
unfoldable pub is_patient : List Act → Bool
is_patient [] = true
is_patient (times_out c ∷ more) = false
is_patient (sets ∷ more) = is_patient more
is_patient (clears ∷ more) = is_patient more
is_patient (waits ∷ more) = is_patient more
is_patient (starts ∷ more) = is_patient more
is_patient (rounds k ∷ more) = is_patient more

pub acts-IsNotifying :
    (more : List Act) (e : LockEvent)
    → is_patient more ≡ true
    → IsNotifying e
    → IsNotifying (acts more e)
unfolding acts act is_patient event_clear
acts-IsNotifying [] e calm h = h
acts-IsNotifying (times_out c ∷ more) e calm h = cc
acts-IsNotifying (sets ∷ more) e calm h =
    acts-IsNotifying more (event_set e) calm (set-IsNotifying e h)
acts-IsNotifying (clears ∷ more) e calm h = acts-IsNotifying more (event_clear e) calm (record {
  waiting = h.waiting;
  once = h.once;
  raised = h.raised;
  called = h.called;
  older = h.older;
})
acts-IsNotifying (waits ∷ more) e calm h =
    acts-IsNotifying more (event_wait e) calm (wait-IsNotifying e h)
acts-IsNotifying (starts ∷ more) e calm h =
    acts-IsNotifying more (event_start e.callbacks e.running e) calm
      (start-IsNotifying e.callbacks e.running e refl refl h)
acts-IsNotifying (rounds k ∷ more) e calm h =
    acts-IsNotifying more (event_round e.running k e) calm (round-IsNotifying e.running k e refl h)

pub init-IsNotifying : IsNotifying init_event
unfolding init_event member distinct
init-IsNotifying = record {
  waiting = λ c m. cc;
  once = refl;
  raised = inl refl;
  called = λ u. cc;
  older = λ c m. cc;
}
