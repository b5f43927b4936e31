-- ===== src/Prelude/Result.antt =====
-- The outcome of a C function that may leave by a Lua error or have undefined behaviour.
use mathlib.Core.Path.{◌≡◌, refl, subst}
use mathlib.Core.Bool.{Bool, true, false}

-- The messages with which the sources call `luaL_error`, `luaL_argerror` or `lua_error`.
pub data Error : Type 0 where
  bad_argument : Error
  concat_nil : Error
  bad_family : Error
  invalid_block : Error
  invalid_end : Error
  invalid_string : Error
  too_long : Error
  invalid_type : Error
  invalid_subtype : Error
  invalid_object : Error
  invalid_key : Error
  invalid_array_key : Error
  no_next_key : Error
  not_a_string : Error
  invalid_value : Error
  too_deep : Error
  not_indexed : Error
  invalid_cursor : Error
  invalid_document : Error
  missing_method : Error

-- `fault` is undefined behaviour of the C code (an access outside an object, a signed overflow).
-- `moved_back` is a reader that a negative length in its input has moved backwards: the code goes on, and the
-- model follows it no further.
-- `out_of_fuel` has no counterpart in the program: a loop of the model ran out of rounds.
pub data Result {ℓ} (A : Type ℓ) : Type ℓ where
  ok : A → Result A
  raised : Error → Result A
  fault : Result A
  moved_back : Result A
  out_of_fuel : Result A

-- Sequencing, for `do` blocks.
module _ {ℓ κ} {A : Type ℓ} {B : Type κ} where
  infixl 5 ◌>>=◌
  abbrev pub ◌>>=◌ : Result A → (A → Result B) → Result B
  fault >>= next = fault
  moved_back >>= next = moved_back
  out_of_fuel >>= next = out_of_fuel
  raised why >>= next = raised why
  ok value >>= next = next value

module _ {κ} {B : Type κ} where
  infixl 5 ◌>>◌
  abbrev pub ◌>>◌ : Result (Unit {0}) → Result B → Result B
  first >> then_ = first >>= (λ done. then_)

-- `if (!test) luaL_error(...)`
abbrev pub guard : (test : Bool) (why : Error) → Result (Unit {0})
guard false why = raised why
guard true why = ok tt

-- The run ends without undefined behaviour and within its fuel: with a value, or by a Lua error.
abbrev pub IsDefined {ℓ} : {A : Type ℓ} → Result A → Type 0
IsDefined (ok a) = Unit {0}
IsDefined (raised e) = Unit {0}
IsDefined fault = ⊥
IsDefined moved_back = ⊥
IsDefined out_of_fuel = ⊥

-- A sequence gives a value only when its first part does.
module _ {ℓ κ} {A : Type ℓ} {B : Type κ} where
  pub >>=-eq-ok :
      (first : Result A) (next : A → Result B) {b : B}
      → (first >>= next) ≡ ok b
      → (a : A) × (first ≡ ok a) × (next a ≡ ok b)
  >>=-eq-ok fault next h = cc
  >>=-eq-ok moved_back next h = cc
  >>=-eq-ok out_of_fuel next h = cc
  >>=-eq-ok (raised why) next h = cc
  >>=-eq-ok (ok value) next h = (value, refl, h)

module _ {ℓ} {A : Type ℓ} {a b : A} where
  pub ok-injective : Result.ok a ≡ ok b → a ≡ b
  ok-injective h = cc

-- If a run gives a value, that value satisfies the predicate.
abbrev pub Gives {ℓ κ} : {A : Type ℓ} → (A → Type κ) → Result A → Type κ
Gives P (ok a) = P a
Gives P (raised e) = Unit {κ}
Gives P fault = Unit {κ}
Gives P moved_back = Unit {κ}
Gives P out_of_fuel = Unit {κ}

module _ {ℓ κ μ} {A : Type ℓ} {B : Type κ} where
  pub Gives-bind :
      (P : B → Type μ) (first : Result A) (next : A → Result B)
      → ((a : A) → first ≡ ok a → Gives P (next a))
      → Gives P (first >>= next)
  Gives-bind P (ok a) next h = h a refl
  Gives-bind P (raised e) next h = tt
  Gives-bind P fault next h = tt
  Gives-bind P moved_back next h = tt
  Gives-bind P out_of_fuel next h = tt

module _ {ℓ κ} {A : Type ℓ} where
  pub Gives-ok : (P : A → Type κ) (r : Result A) (a : A) → Gives P r → r ≡ ok a → P a
  Gives-ok P r a gives e = subst (Gives P) e gives

-- A sequence is defined when its parts are.
module _ {ℓ κ} {A : Type ℓ} {B : Type κ} where
  pub IsDefined-bind :
      (first : Result A) (next : A → Result B)
      → IsDefined first
      → ((a : A) → first ≡ ok a → IsDefined (next a))
      → IsDefined (first >>= next)
  IsDefined-bind (ok a) next h rest = rest a refl
  IsDefined-bind (raised e) next h rest = tt
  IsDefined-bind fault next h rest = absurd h
  IsDefined-bind moved_back next h rest = absurd h
  IsDefined-bind out_of_fuel next h rest = absurd h
