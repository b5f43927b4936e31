-- ===== src/Ev/Listed.antt =====
-- Which watchers libev lists, in every history of calls of src/lua-ev.c that keeps to the manual: a
-- watcher is not initialised again, nor collected, while it is active, as in levent/loop.lua.
use levent.Prelude.{ℕ, ◌≡◌, refl, sym, ap, ◌∙◌, true, false, Option, none, some, List}
use levent.Prelude.Result.{ok, Gives, Gives-bind, Gives-ok}
use levent.Ev.Loop.{setloop}
use levent.Ev.Libev.{Kind, timer, Libev, Numbers}
use levent.Ev.Watcher.{
  Arg, watcher_ud, loop_ud, WatcherMethod, id, start, stop, init, is_active, is_pending,
  get_priority, set_priority, again, has_method, argument, Cell, free, raw, ready, World, store,
  get_watcher, initialised, read_setup, on_loop, look, checkinteger, new_watcher, watcher_id,
  watcher_start, watcher_stop, timer_again, watcher_init, watcher_is_active, watcher_is_pending,
  watcher_get_priority, watcher_set_priority, assign_priority, call,
}
use levent.Ev.Agreement.{
  active, Agrees, Holds, changed-Agrees, get_watcher-ok, on_loop-Agrees, start-own, stop-own,
  again-own,
}

module _ (v : Libev) (n : Numbers) where
  -- What the manual asks of a call: it is about the loop `l`, and no active v n watcher is initialised.
  abbrev pub Proper : ℕ → WatcherMethod → List Arg → World v n → Type 0
  Proper l start args w = argument 2 args ≡ loop_ud (setloop (some l))
  Proper l stop args w = argument 2 args ≡ loop_ud (setloop (some l))
  Proper l again args w = argument 2 args ≡ loop_ud (setloop (some l))
  Proper l init args w = (a : ℕ) → argument 1 args ≡ watcher_ud a → active v n (w.heap a) ≡ false
  Proper l _ args w = Unit {0}

  abbrev AgreesAfter : ℕ → List Arg × World v n → Type 0
  AgreesAfter l out = Agrees v n l out.1

  look-Agrees :
      (see : v.Watcher → Arg) (k : Kind) (args : List Arg) (w : World v n) (l : ℕ)
      → Agrees v n l w
      → Gives (AgreesAfter l) (look v n see k args w)
  unfolding look
  look-Agrees see k args w l agrees =
      Gives-bind (AgreesAfter l) (get_watcher v n k args w) _
        λ p found. Gives-bind (AgreesAfter l) (initialised v n p.1) _ λ x is_ready. agrees

  init-Agrees :
      (k : Kind) (args : List Arg) (w : World v n) (l : ℕ)
      → Proper l init args w
      → Agrees v n l w
      → Gives (AgreesAfter l) (watcher_init v n k args w)
  unfolding watcher_init active
  init-Agrees k args w l proper agrees =
      Gives-bind (AgreesAfter l) (get_watcher v n k args w) _ λ p found.
        Gives-bind (AgreesAfter l) (read_setup v n k args) _ λ s read.
          changed-Agrees v n l p.0 w w.core (ready k (v.init s)) agrees
            (agrees p.0
              ∙ proper p.0 (get_watcher-ok v n k args w p.0 p.1 found).0
              ∙ sym (v.init_active s))
            (λ b apart. refl)

  assign_priority-Agrees :
      (k : Kind) (a : ℕ) (o : Option v.Watcher) (p : ℕ) (w : World v n) (l : ℕ)
      → Holds v n k o (w.heap a)
      → Agrees v n l w
      → Agrees v n l (assign_priority v n k a o p w)
  unfolding assign_priority active
  assign_priority-Agrees k a none p w l holds agrees = agrees
  assign_priority-Agrees k a (some x) p w l holds agrees =
      changed-Agrees v n l a w w.core (ready k (v.set_priority p x)) agrees
        (agrees a ∙ ap (active v n) holds ∙ sym (v.active_set p x)) (λ b apart. refl)

  set_priority-Agrees :
      (k : Kind) (args : List Arg) (w : World v n) (l : ℕ)
      → Agrees v n l w
      → Gives (AgreesAfter l) (watcher_set_priority v n k args w)
  unfolding watcher_set_priority
  set_priority-Agrees k args w l agrees =
      Gives-bind (AgreesAfter l) (get_watcher v n k args w) _ λ p found.
        Gives-bind (AgreesAfter l) (checkinteger v n (argument 2 args)) _ λ i read.
          assign_priority-Agrees k p.0 p.1 _ w l (get_watcher-ok v n k args w p.0 p.1 found).1
            agrees

  id-Agrees :
      (k : Kind) (args : List Arg) (w : World v n) (l : ℕ)
      → Agrees v n l w
      → Gives (AgreesAfter l) (watcher_id v n k args w)
  unfolding watcher_id
  id-Agrees k args w l agrees =
      Gives-bind (AgreesAfter l) (get_watcher v n k args w) _ λ p found. agrees

  start-Agrees :
      (k : Kind) (args : List Arg) (w : World v n) (l : ℕ)
      → Proper l start args w
      → Agrees v n l w
      → Gives (AgreesAfter l) (watcher_start v n k args w)
  unfolding watcher_start
  start-Agrees k args w l proper agrees =
      Gives-bind (AgreesAfter l) (on_loop v n v.accepts_start v.start k args w) _ λ u done.
        Gives-ok (Agrees v n l) _ u
          (on_loop-Agrees v n v.accepts_start v.start (start-own v n) v.start_others k args w l
            proper agrees)
          done

  stop-Agrees :
      (k : Kind) (args : List Arg) (w : World v n) (l : ℕ)
      → Proper l stop args w
      → Agrees v n l w
      → Gives (AgreesAfter l) (watcher_stop v n k args w)
  unfolding watcher_stop
  stop-Agrees k args w l proper agrees =
      Gives-bind (AgreesAfter l) (on_loop v n v.accepts_stop v.stop k args w) _ λ u done.
        Gives-ok (Agrees v n l) _ u
          (on_loop-Agrees v n v.accepts_stop v.stop (stop-own v n) v.stop_others k args w l proper
            agrees)
          done

  again-Agrees :
      (args : List Arg) (w : World v n) (l : ℕ)
      → Proper l again args w
      → Agrees v n l w
      → Gives (AgreesAfter l) (timer_again v n args w)
  unfolding timer_again
  again-Agrees args w l proper agrees =
      Gives-bind (AgreesAfter l) (on_loop v n v.accepts_again v.again timer args w) _ λ u done.
        Gives-ok (Agrees v n l) _ u
          (on_loop-Agrees v n v.accepts_again v.again (again-own v n) v.again_others timer args w l
            proper agrees)
          done

  -- Every method that returns keeps the agreement between libev and the watchers: the loop lists exactly
  -- the addresses of active v n watchers, if the call is on that loop and initialises no active v n watcher.
  pub call-Agrees :
      (k : Kind) (m : WatcherMethod) (args : List Arg) (w : World v n) (l : ℕ)
      → Proper l m args w
      → Agrees v n l w
      → Gives (AgreesAfter l) (call v n k m args w)
  unfolding call has_method watcher_is_active watcher_is_pending watcher_get_priority
  call-Agrees k id args w l proper agrees = id-Agrees k args w l agrees
  call-Agrees k start args w l proper agrees = start-Agrees k args w l proper agrees
  call-Agrees k stop args w l proper agrees = stop-Agrees k args w l proper agrees
  call-Agrees k init args w l proper agrees = init-Agrees k args w l proper agrees
  call-Agrees k is_active args w l proper agrees = look-Agrees _ k args w l agrees
  call-Agrees k is_pending args w l proper agrees = look-Agrees _ k args w l agrees
  call-Agrees k get_priority args w l proper agrees = look-Agrees _ k args w l agrees
  call-Agrees k set_priority args w l proper agrees = set_priority-Agrees k args w l agrees
  call-Agrees timer again args w l proper agrees = again-Agrees args w l proper agrees
  call-Agrees _ again args w l proper agrees = tt

  -- The history of a program with one loop, as levent/hub.lua has it: userdata are allocated, methods are
  -- called, watchers that are not active v n are collected, and libev itself stops a timer that has
  -- run out.
  pub data Step (l : ℕ) (w : World v n) : World v n → Type 0 where
    allocate : (k : Kind) (a : ℕ) → w.heap a ≡ free → Step l w (new_watcher v n k a w).1
    invoke :
        (k : Kind) (m : WatcherMethod) (args out : List Arg) {u : World v n}
        → Proper l m args w
        → call v n k m args w ≡ ok (out, u)
        → Step l w u
    collect :
        (a : ℕ)
        → active v n (w.heap a) ≡ false
        → Step l w (record w { heap = store v n a free w.heap })
    expire :
        (a : ℕ) (x : v.Watcher)
        → w.heap a ≡ ready timer x
        → Step l w (record {
          core = (v.stop w.core l a x).0;
          heap = store v n a (ready timer (v.stop w.core l a x).1) w.heap;
        })

  pub data Reach (l : ℕ) (c : v.Core) : World v n → Type 0 where
    begin : Reach l c (record { core = c; heap = λ a. free })
    later : {w u : World v n} → Reach l c w → Step l w u → Reach l c u

  Step-Agrees : {l : ℕ} {w u : World v n} → Step l w u → Agrees v n l w → Agrees v n l u
  unfolding active new_watcher
  Step-Agrees {l} {w} (allocate k a unused) agrees =
      changed-Agrees v n l a w w.core (raw k) agrees (agrees a ∙ ap (active v n) unused)
        (λ b apart. refl)
  Step-Agrees {l} {w} (invoke k m args out {u} proper done) agrees =
      Gives-ok (AgreesAfter l) _ (out, u) (call-Agrees k m args w l proper agrees) done
  Step-Agrees {l} {w} (collect a idle) agrees =
      changed-Agrees v n l a w w.core free agrees (agrees a ∙ idle) (λ b apart. refl)
  Step-Agrees {l} {w} (expire a x here) agrees =
      changed-Agrees v n l a w (v.stop w.core l a x).0 (ready timer (v.stop w.core l a x).1) agrees
        (stop-own v n w.core l a x (agrees a ∙ ap (active v n) here))
        (λ b. v.stop_others w.core l a b x)

  Reach-Agrees :
      {l : ℕ} {c : v.Core} {w : World v n}
      → ((a : ℕ) → v.lists c l a ≡ false)
      → Reach l c w
      → Agrees v n l w
  unfolding active
  Reach-Agrees none_yet begin = none_yet
  Reach-Agrees none_yet (later r st) = Step-Agrees st (Reach-Agrees none_yet r)

  active-ready :
      (cell : Cell v n)
      → active v n cell ≡ true
      → (k : Kind) × (x : v.Watcher) × (cell ≡ ready k x) × (v.is_active x ≡ true)
  unfolding active
  active-ready free h = cc
  active-ready (raw k) h = cc
  active-ready (ready k x) h = (k, x, refl, h)

  -- In every history that starts with an empty loop, initialises and collects no active watcher and uses that
  -- loop, an address that libev lists as active is that of a userdata that is alive, initialised and active.
  pub listed_alive :
      {l : ℕ} {c : v.Core} {w : World v n} (a : ℕ)
      → ((b : ℕ) → v.lists c l b ≡ false)
      → Reach l c w
      → v.lists w.core l a ≡ true
      → (k : Kind) × (x : v.Watcher) × (w.heap a ≡ ready k x) × (v.is_active x ≡ true)
  listed_alive {w} a none_yet r h = active-ready (w.heap a) (sym (Reach-Agrees none_yet r a) ∙ h)
