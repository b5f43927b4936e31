-- ===== src/Ev/Agreement.antt =====
-- The agreement between what libev lists and the watchers of src/lua-ev.c, and what one change does to it.
use levent.Prelude.{
  ℕ, ◌≡◌, ◌≢◌, subst, sym, ap, ◌∙◌, ◌==◌, ==_iff, Bool-cases, inl, inr, Bool, true, false, Option,
  none, some, if◌then◌else◌, List, [], ◌∷◌, arith,
}
use levent.Prelude.Result.{Result, ok, fault, Gives, Gives-bind}
use levent.Ev.Loop.{setloop}
use levent.Ev.Libev.{Kind, Libev, Numbers}
use levent.Ev.Watcher.{
  Arg, watcher_ud, loop_ud, metatable, argument, get_loop, pointed, Cell, free, raw, ready, World,
  store, check_userdata, get_watcher, initialised, on_loop,
}

pub Gives-if {ℓ κ} :
    {A : Type ℓ} (P : A → Type κ) (b : Bool) (x y : Result A)
    → Gives P x
    → Gives P y
    → Gives P (if b then x else y)
Gives-if P true x y hx hy = hx
Gives-if P false x y hx hy = hy

pub ==-false : (b a : ℕ) → (b == a) ≡ false → b ≢ a
==-false b a e same = absurd (ground arith)

metatable-injective : (j k : Kind) → (metatable j == metatable k) ≡ true → j ≡ k
unfolding metatable
metatable-injective j k e = ground arith

module _ (v : Libev) (n : Numbers) where
  -- Whether a cell holds an active watcher.
  unfoldable pub active : Cell v n → Bool
  active free = false
  active (raw k) = false
  active (ready k x) = v.is_active x

  -- The loop lists exactly the addresses of active watchers.
  abbrev pub Agrees : ℕ → World v n → Type 0
  Agrees l w = (a : ℕ) → v.lists w.core l a ≡ active (w.heap a)

  pub store-here : (a : ℕ) (c : Cell v n) (h : ℕ → Cell v n) → store v n a c h a ≡ c
  unfolding store
  store-here a c h = ground arith

  pub store-there : (a b : ℕ) (c : Cell v n) (h : ℕ → Cell v n) → b ≢ a → store v n a c h b ≡ h b
  unfolding store
  store-there a b c h apart = elim (Bool-cases (b == a)) [
    | inl e ↦ absurd (apart ((==_iff b a).0 e))
    | inr e ↦ rw e
  ]

  -- A change at one address keeps the agreement when it does there, and libev leaves the others alone.
  pub changed-Agrees :
      (l a : ℕ) (w : World v n) (c : v.Core) (cell : Cell v n)
      → Agrees l w
      → v.lists c l a ≡ active cell
      → ((b : ℕ) → b ≢ a → v.lists c l b ≡ v.lists w.core l b)
      → Agrees l (record { core = c; heap = store v n a cell w.heap })
  changed-Agrees l a w c cell agrees here others b = elim (Bool-cases (b == a)) [
    | inl e ↦ let same = (==_iff b a).0 e in rw same (rw (store-here a cell w.heap) here)
    | inr e ↦
        let apart = ==-false b a e in
        rw (store-there a b cell w.heap apart) (others b apart ∙ agrees b)
  ]

  -- What is at the address of a userdata that `get_*` accepts.
  abbrev pub Holds : Kind → Option v.Watcher → Cell v n → Type 0
  Holds k none cell = cell ≡ raw k
  Holds k (some x) cell = cell ≡ ready k x

  pub check_userdata-ok :
      (k : Kind) (b a : ℕ) (cell : Cell v n) (o : Option v.Watcher)
      → check_userdata v n k b cell ≡ ok (a, o)
      → (b ≡ a) × Holds k o cell
  unfolding check_userdata
  check_userdata-ok k b a free o h = cc
  check_userdata-ok k b a (raw j) none h = ground (arith, metatable-injective j k)
  check_userdata-ok k b a (raw j) (some y) h = ground arith
  check_userdata-ok k b a (ready j x) none h = ground (arith, metatable-injective j k)
  check_userdata-ok k b a (ready j x) (some y) h = ground (arith, metatable-injective j k)

  pub ready-Holds :
      (k : Kind) (o : Option v.Watcher) (x : v.Watcher) (cell : Cell v n)
      → initialised v n o ≡ ok x
      → Holds k o cell
      → cell ≡ ready k x
  unfolding initialised
  ready-Holds k none x cell h holds = cc
  ready-Holds k (some y) x cell h holds = cc

  pub get_watcher-ok :
      (k : Kind) (args : List Arg) (w : World v n) (a : ℕ) (o : Option v.Watcher)
      → get_watcher v n k args w ≡ ok (a, o)
      → (argument 1 args ≡ watcher_ud a) × Holds k o (w.heap a)
  unfolding get_watcher argument
  get_watcher-ok k [] w a o h = cc
  get_watcher-ok k (watcher_ud b ∷ rest) w a o h =
      let (same, holds) = check_userdata-ok k b a (w.heap b) o h in
      (ap watcher_ud same, subst (λ c. Holds k o (w.heap c)) same holds)
  get_watcher-ok k (x ∷ rest) w a o h = cc

  -- A call of libev on the loop `l` keeps the agreement, if libev itself keeps it for the watcher.
  pub on_loop-Agrees :
      (accepts : v.Core → ℕ → v.Watcher → Bool)
      (ev : v.Core → ℕ → ℕ → v.Watcher → v.Core × v.Watcher)
      (own : (c : v.Core) (l a : ℕ) (x : v.Watcher)
        → v.lists c l a ≡ v.is_active x
        → v.lists (ev c l a x).0 l a ≡ v.is_active (ev c l a x).1)
      (others : (c : v.Core) (l a b : ℕ) (x : v.Watcher)
        → b ≢ a
        → v.lists (ev c l a x).0 l b ≡ v.lists c l b)
      (k : Kind) (args : List Arg) (w : World v n) (l : ℕ)
      → argument 2 args ≡ loop_ud (setloop (some l))
      → Agrees l w
      → Gives (Agrees l) (on_loop v n accepts ev k args w)
  unfolding on_loop get_loop pointed setloop active
  on_loop-Agrees accepts ev own others k args w l second agrees =
      Gives-bind (Agrees l) (get_watcher v n k args w) _ λ p found.
        let (at, holds) = get_watcher-ok k args w p.0 p.1 found in
        rw second (
          Gives-bind (Agrees l) (initialised v n p.1) _ λ x is_ready.
            let here : w.heap p.0 ≡ ready k x = ready-Holds k p.1 x (w.heap p.0) is_ready holds in
            Gives-if (Agrees l) (accepts w.core l x) _ fault
              (changed-Agrees l p.0 w (ev w.core l p.0 x).0 (ready k (ev w.core l p.0 x).1) agrees
                (own w.core l p.0 x (agrees p.0 ∙ ap active here)) (λ b. others w.core l p.0 b x))
              tt)

  pub start-own :
      (c : v.Core) (l a : ℕ) (x : v.Watcher)
      → v.lists c l a ≡ v.is_active x
      → v.lists (v.start c l a x).0 l a ≡ v.is_active (v.start c l a x).1
  start-own c l a x h = elim (Bool-cases (v.is_active x)) [
    | inl e ↦ rw (v.start_twice c l a x e) h
    | inr e ↦ v.start_lists c l a x e ∙ sym (v.start_active c l a x)
  ]

  pub stop-own :
      (c : v.Core) (l a : ℕ) (x : v.Watcher)
      → v.lists c l a ≡ v.is_active x
      → v.lists (v.stop c l a x).0 l a ≡ v.is_active (v.stop c l a x).1
  stop-own c l a x h = elim (Bool-cases (v.is_active x)) [
    | inl e ↦ v.stop_lists c l a x e ∙ sym (v.stop_active c l a x)
    | inr e ↦ v.stop_twice c l a x e ∙ h ∙ e ∙ sym (v.stop_active c l a x)
  ]

  pub again-own :
      (c : v.Core) (l a : ℕ) (x : v.Watcher)
      → v.lists c l a ≡ v.is_active x
      → v.lists (v.again c l a x).0 l a ≡ v.is_active (v.again c l a x).1
  again-own c l a x h = rw (v.again_active c l a x) (elim (Bool-cases (v.is_active x)) [
    | inl e ↦ elim (Bool-cases (v.repeats x)) [
      | inl r ↦ v.again_same c l a x (e ∙ sym r) ∙ h ∙ e ∙ sym r
      | inr r ↦ v.again_stops c l a x e r ∙ sym r
    ]
    | inr e ↦ elim (Bool-cases (v.repeats x)) [
      | inl r ↦ v.again_starts c l a x e r ∙ sym r
      | inr r ↦ v.again_same c l a x (e ∙ sym r) ∙ h ∙ e ∙ sym r
    ]
  ])
