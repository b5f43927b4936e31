-- ===== src/Ev/Loop.antt =====
-- The loop userdata of src/lua-ev.c. A `struct ev_loop` is its address, and `destroyed` are the
-- addresses that `ev_loop_destroy` was called on, the last one first.
use levent.Prelude.{ℕ, Option, none, some, List, ◌∷◌}
use levent.Prelude.Result.{Result, ok, fault}

-- `loop_t`; `none` is a null pointer.
pub record Loop : Type 0 where
  pub loop : Option ℕ

-- `setloop`, with which `default_loop` and `new_loop` end.
unfoldable pub setloop : Option ℕ → Loop
setloop loop = record { loop = loop }

unfoldable pub loop_destroy : Loop → List ℕ → Loop × List ℕ
loop_destroy lo destroyed = elim lo.loop [
  | none ↦ (lo, destroyed)
  | some loop ↦ (record lo { loop = none }, loop ∷ destroyed)
]

-- A method of the macros `LOOP_METHOD_*`: libev is called on the loop, which a null pointer is not.
unfoldable pub loop_method {ℓ} : {A : Type ℓ} → (ℕ → A) → Loop → Result A
loop_method ev lo = elim lo.loop [ none ↦ fault | some loop ↦ ok (ev loop) ]
