-- ===== src/Sync/Fits.antt =====
-- The size of a queue of levent/queue.lua, and what its operations add and take.
use levent.Prelude.{
  ℕ, zero, suc, ◌+◌, ◌≤◌, ◌≡◌, refl, ap, true, false, Option, none, some, List, [], ◌∷◌, ◌++◌,
  length, arith, ltb→lt,
}
use levent.Sync.Queue.{Queue, some_entry, assign, call_putters, call_getters, room_at, full_at}

abbrev pub Fits : Option ℕ → ℕ → Type 0
Fits none n = Unit {0}
Fits (some m) n = n ≤ m

pub Fits-smaller : (m : Option ℕ) (a b : ℕ) → a ≤ b → Fits m b → Fits m a
Fits-smaller none a b h fits = tt
Fits-smaller (some m) a b h fits = omega arith

pub room_at-Fits : (m : Option ℕ) (n : ℕ) → room_at m n ≡ true → Fits m (n + 1)
unfolding room_at
room_at-Fits none n h = tt
room_at-Fits (some m) n h = omega (arith, ltb→lt n m h)

pub not_full-Fits :
    (m : Option ℕ) (n k : ℕ) → n ≡ k → Fits m n → full_at m k ≡ false → Fits m (n + 1)
unfolding full_at
not_full-Fits none n k same fits h = tt
not_full-Fits (some m) n k same fits h = ground arith

module _ {ℓ} {A : Type ℓ} where
  pub assign-end : (x : A) (xs : List A) (n : ℕ) → n ≡ length xs → assign n x xs ≡ xs ++ (x ∷ [])
  unfolding assign
  assign-end x [] n h = refl
  assign-end x (y ∷ ys) zero h = absurd (omega (arith, h))
  assign-end x (y ∷ ys) (suc n) h = ap (λ zs. y ∷ zs) (assign-end x ys n (omega (arith, h)))

  -- What the ends of `_put` and `_get` leave alone.
  pub call_getters-same :
      (q : Queue A)
      → ((call_getters q).items ≡ q.items)
        × ((call_getters q).size ≡ q.size)
        × ((call_getters q).maxsize ≡ q.maxsize)
  unfolding call_getters some_entry
  call_getters-same q = ground arith

  pub call_putters-same :
      (q : Queue A)
      → ((call_putters q).items ≡ q.items)
        × ((call_putters q).size ≡ q.size)
        × ((call_putters q).maxsize ≡ q.maxsize)
  unfolding call_putters some_entry
  call_putters-same q = ground arith
