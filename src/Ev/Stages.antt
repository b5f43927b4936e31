-- ===== src/Ev/Stages.antt =====
-- A watcher of src/lua-ev.c as a state machine, and what its methods do to it.
use levent.Prelude.{
  ℕ, ◌%◌, ◌^◌, ◌≡◌, ◌≢◌, refl, sym, ap, subst, ◌∙◌, if◌then◌else◌, Bool, false, Option, none, some,
  List, [], ◌∷◌,
}
use levent.Prelude.Result.{fault, ok, Gives, Gives-bind, Gives-ok, ◌>>=◌}
use levent.Ev.Libev.{Kind, timer, Libev, Numbers}
use levent.Ev.Watcher.{
  Arg, watcher_ud, int, bool, WatcherMethod, id, start, stop, init, is_active, is_pending,
  get_priority, set_priority, again, has_method, argument, get_loop, pointed, push_int, Cell, free,
  raw, ready, World, store, get_watcher, initialised, read_setup, on_loop, look, checkinteger,
  watcher_id, watcher_start, watcher_stop, timer_again, watcher_init, watcher_is_active,
  watcher_is_pending, watcher_get_priority, watcher_set_priority, assign_priority, call,
}
use levent.Ev.Agreement.{Gives-if, store-here, store-there, Holds, get_watcher-ok, ready-Holds}

-- The life of a watcher: `fresh` is one that was never initialised.
pub data Stage : Type 0 where
  gone fresh stopped started : Stage

-- The state machine. `repeating` is what `ev_timer` has in its `repeat`.
unfoldable pub next : WatcherMethod → Bool → Stage → Stage
next start repeating s = started
next stop repeating s = stopped
next init repeating s = stopped
next again repeating s = if repeating then started else stopped
next _ repeating s = s

module _ (v : Libev) (n : Numbers) where
  abbrev pub of_watcher : v.Watcher → Stage
  of_watcher x = if v.is_active x then started else stopped

  unfoldable pub stage : Cell v n → Stage
  stage free = gone
  stage (raw k) = fresh
  stage (ready k x) = of_watcher x

  unfoldable pub repeating : Cell v n → Bool
  repeating free = false
  repeating (raw k) = false
  repeating (ready k x) = v.repeats x

  -- A step of the machine at one address.
  abbrev pub Moves : WatcherMethod → ℕ → World v n → World v n → Type 0
  Moves m a w u =
      (stage (u.heap a) ≡ next m (repeating (w.heap a)) (stage (w.heap a)))
      × ((b : ℕ) → b ≢ a → u.heap b ≡ w.heap b)

  abbrev MovesTo : WatcherMethod → ℕ → World v n → List Arg × World v n → Type 0
  MovesTo m a w out = Moves m a w out.1

  stored-Moves :
      (m : WatcherMethod) (a : ℕ) (w : World v n) (c : v.Core) (cell : Cell v n)
      → stage cell ≡ next m (repeating (w.heap a)) (stage (w.heap a))
      → Moves m a w (record { core = c; heap = store v n a cell w.heap })
  stored-Moves m a w c cell h = (
    ap stage (store-here v n a cell w.heap) ∙ h,
    λ b apart. store-there v n a b cell w.heap apart,
  )

  on_loop-Moves :
      (m : WatcherMethod) (accepts : v.Core → ℕ → v.Watcher → Bool)
      (ev : v.Core → ℕ → ℕ → v.Watcher → v.Core × v.Watcher)
      (own : (c : v.Core) (l a : ℕ) (x : v.Watcher) (s : Stage)
        → of_watcher (ev c l a x).1 ≡ next m (v.repeats x) s)
      (k : Kind) (a : ℕ) (args : List Arg) (w : World v n)
      → Gives (Moves m a w) (on_loop v n accepts ev k (watcher_ud a ∷ args) w)
  unfolding on_loop stage repeating
  on_loop-Moves m accepts ev own k a args w =
      Gives-bind (Moves m a w) (get_watcher v n k (watcher_ud a ∷ args) w) _ λ p found.
        Gives-bind (Moves m a w) (get_loop (argument 2 (watcher_ud a ∷ args))) _ λ lo is_loop.
          Gives-bind (Moves m a w) (initialised v n p.1) _ λ x is_ready.
            Gives-bind (Moves m a w) (pointed lo) _ λ l there.
              let (at, holds) = get_watcher-ok v n k (watcher_ud a ∷ args) w p.0 p.1 found in
              let same : p.0 ≡ a = cc in
              let here : w.heap p.0 ≡ ready k x =
                ready-Holds v n k p.1 x (w.heap p.0) is_ready holds in
              let y = (ev w.core l p.0 x).1 in
              let u : World v n = record {
                core = (ev w.core l p.0 x).0;
                heap = store v n p.0 (ready k y) w.heap;
              } in
              Gives-if (Moves m a w) (accepts w.core l x) (ok u) fault
                (subst (λ b. Moves m b w u) same
                  (stored-Moves m p.0 w (ev w.core l p.0 x).0 (ready k (ev w.core l p.0 x).1)
                    (rw here (own w.core l p.0 x (of_watcher x)))))
                tt

  stays :
      (m : WatcherMethod) (a : ℕ) (w : World v n)
      → ((r : Bool) (s : Stage) → next m r s ≡ s)
      → Moves m a w w
  stays m a w h = (sym (h _ _), λ b apart. refl)

  look-Moves :
      (m : WatcherMethod) (see : v.Watcher → Arg) (k : Kind) (a : ℕ) (args : List Arg)
      (w : World v n)
      → ((r : Bool) (s : Stage) → next m r s ≡ s)
      → Gives (MovesTo m a w) (look v n see k (watcher_ud a ∷ args) w)
  unfolding look
  look-Moves m see k a args w h =
      Gives-bind (MovesTo m a w) (get_watcher v n k (watcher_ud a ∷ args) w) _
        λ p found. Gives-bind (MovesTo m a w) (initialised v n p.1) _ λ x is_ready. stays m a w h

  assign_priority-Moves :
      (k : Kind) (a : ℕ) (o : Option v.Watcher) (p : ℕ) (w : World v n)
      → Holds v n k o (w.heap a)
      → Moves set_priority a w (assign_priority v n k a o p w)
  unfolding assign_priority stage repeating next
  assign_priority-Moves k a none p w holds = stays set_priority a w (λ r s. refl)
  assign_priority-Moves k a (some x) p w holds =
      stored-Moves set_priority a w w.core (ready k (v.set_priority p x))
        (rw (holds, v.active_set p x) refl)

  set_priority-Moves :
      (k : Kind) (a : ℕ) (args : List Arg) (w : World v n)
      → Gives (MovesTo set_priority a w) (watcher_set_priority v n k (watcher_ud a ∷ args) w)
  unfolding watcher_set_priority argument
  set_priority-Moves k a args w =
      Gives-bind (MovesTo set_priority a w) (get_watcher v n k (watcher_ud a ∷ args) w) _ λ p found.
        Gives-bind (MovesTo set_priority a w) (checkinteger v n (argument 1 args)) _ λ i read.
          let (at, holds) = get_watcher-ok v n k (watcher_ud a ∷ args) w p.0 p.1 found in
          let same : p.0 ≡ a = cc in
          subst (λ b. Moves set_priority b w (assign_priority v n k p.0 p.1 (i % 2 ^ 32) w)) same
            (assign_priority-Moves k p.0 p.1 (i % 2 ^ 32) w holds)

  init-Moves :
      (k : Kind) (a : ℕ) (args : List Arg) (w : World v n)
      → Gives (MovesTo init a w) (watcher_init v n k (watcher_ud a ∷ args) w)
  unfolding watcher_init stage next argument
  init-Moves k a args w =
      Gives-bind (MovesTo init a w) (get_watcher v n k (watcher_ud a ∷ args) w) _ λ p found.
        Gives-bind (MovesTo init a w) (read_setup v n k (watcher_ud a ∷ args)) _ λ s read.
          let (at, holds) = get_watcher-ok v n k (watcher_ud a ∷ args) w p.0 p.1 found in
          let same : p.0 ≡ a = cc in
          subst
            (λ b. Moves init b w (record w { heap = store v n p.0 (ready k (v.init s)) w.heap }))
            same (stored-Moves init p.0 w w.core (ready k (v.init s)) (rw (v.init_active s) refl))

  on_loop-MovesTo :
      (m : WatcherMethod) (accepts : v.Core → ℕ → v.Watcher → Bool)
      (ev : v.Core → ℕ → ℕ → v.Watcher → v.Core × v.Watcher)
      (own : (c : v.Core) (l a : ℕ) (x : v.Watcher) (s : Stage)
        → of_watcher (ev c l a x).1 ≡ next m (v.repeats x) s)
      (out : List Arg) (k : Kind) (a : ℕ) (args : List Arg) (w : World v n)
      → Gives
          (MovesTo m a w)
          (on_loop v n accepts ev k (watcher_ud a ∷ args) w >>= (λ u. ok (out, u)))
  on_loop-MovesTo m accepts ev own out k a args w =
      Gives-bind (MovesTo m a w) (on_loop v n accepts ev k (watcher_ud a ∷ args) w) _
        λ u done. Gives-ok (Moves m a w) _ u (on_loop-Moves m accepts ev own k a args w) done

  -- Every method that returns moves its watcher as the state machine says: `start` makes it started,
  -- `stop` and `init` stopped, `again` the one or the other by the timer's `repeat`, and all other
  -- methods leave it; and no other userdata changes.
  pub call-Moves :
      (k : Kind) (m : WatcherMethod) (a : ℕ) (args : List Arg) (w : World v n)
      → Gives (MovesTo m a w) (call v n k m (watcher_ud a ∷ args) w)
  unfolding call has_method next watcher_id watcher_start watcher_stop timer_again watcher_is_active
      watcher_is_pending watcher_get_priority
  call-Moves k id a args w =
      Gives-bind (MovesTo id a w) (get_watcher v n k (watcher_ud a ∷ args) w) _
        λ p found. stays id a w (λ r s. refl)
  call-Moves k start a args w =
      on_loop-MovesTo start v.accepts_start v.start (λ c l a x s. rw (v.start_active c l a x) refl)
        _ k a args w
  call-Moves k stop a args w =
      on_loop-MovesTo stop v.accepts_stop v.stop (λ c l a x s. rw (v.stop_active c l a x) refl) _ k
        a args w
  call-Moves k init a args w = init-Moves k a args w
  call-Moves k is_active a args w =
      look-Moves is_active (λ x. bool (v.is_active x)) k a args w (λ r s. refl)
  call-Moves k is_pending a args w =
      look-Moves is_pending (λ x. bool (v.is_pending x)) k a args w (λ r s. refl)
  call-Moves k get_priority a args w =
      look-Moves get_priority (λ x. int (push_int (v.priority x))) k a args w (λ r s. refl)
  call-Moves k set_priority a args w = set_priority-Moves k a args w
  call-Moves timer again a args w =
      on_loop-MovesTo again v.accepts_again v.again (λ c l a x s. rw (v.again_active c l a x) refl)
        [] timer a args w
  call-Moves _ again a args w = tt
