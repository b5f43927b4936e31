-- ===== src/Sync/AsyncResult.antt =====
-- The one-time result of levent/lock.lua, and its histories: coroutines set it, get it and time out in any
-- order, and the loop runs the callbacks.
use levent.Prelude.{ℕ, zero, suc, ◌+◌, Bool, true, false, Option, none, some, List, [], ◌∷◌, ◌++◌}
use levent.Sync.Queue.{pick}
use levent.Sync.LockEvent.{without}

-- What `set` or `set_exception` got.
pub data Outcome {ℓ} (V E : Type ℓ) : Type ℓ where
  value : V → Outcome V E
  exception : E → Outcome V E

-- `outcome` is none while the field `exception` is false. `callbacks` is the number of calls of `_notify`
-- that the loop has before it, `running` says that one is in its loop, and `fresh` is the number of the
-- next waiter. `given` is no field of the code: what each `get` has returned or raised, the last one in
-- front, where none is the value nil of a result that is not set.
pub record AsyncResult {ℓ} (V E : Type ℓ) : Type ℓ where
  pub links : List ℕ
  pub outcome : Option (Outcome V E)
  pub callbacks : ℕ
  pub running : Bool
  pub fresh : ℕ
  pub given : List (Option (Outcome V E))

-- `AsyncResult:_init`
unfoldable pub init_result {ℓ} : {V E : Type ℓ} → AsyncResult V E
init_result = record {
  links = [];
  outcome = none;
  callbacks = 0;
  running = false;
  fresh = 0;
  given = [];
}

-- `AsyncResult:_set`: none where the assertion fails.
unfoldable pub set_outcome {ℓ} :
    {V E : Type ℓ} → Option (Outcome V E) → Outcome V E → AsyncResult V E → Option (AsyncResult V E)
set_outcome none o r = some (record r { outcome = some o; callbacks = r.callbacks + 1 })
set_outcome (some p) o r = none

-- The end of `AsyncResult:get`.
unfoldable pub give {ℓ} : {V E : Type ℓ} → AsyncResult V E → AsyncResult V E
give r = record r { given = r.outcome ∷ r.given }

-- `AsyncResult:get` up to its end, or to its wait.
unfoldable pub get_outcome {ℓ} :
    {V E : Type ℓ} → Option (Outcome V E) → AsyncResult V E → AsyncResult V E
unfolding give
get_outcome none r = record r { links = r.links ++ (r.fresh ∷ []); fresh = r.fresh + 1 }
get_outcome (some o) r = give r

-- A waiter is switched to, and its coroutine ends its `get`; or the loop of `_notify` ends.
unfoldable pub result_wake {ℓ} :
    {V E : Type ℓ} → Option (ℕ × List ℕ) → AsyncResult V E → AsyncResult V E
unfolding give without
result_wake none r = record r { running = false }
result_wake (some (c, rest)) r = give (record r { links = without c r.links })

-- A round of the loop of `_notify`, if it is in its loop.
unfoldable pub result_round {ℓ} : {V E : Type ℓ} → Bool → ℕ → AsyncResult V E → AsyncResult V E
unfolding pick result_wake
result_round true k r = result_wake (pick k r.links) r
result_round false k r = r

-- The loop starts a `_notify`, if it has one before it and none is running.
unfoldable pub result_start {ℓ} : {V E : Type ℓ} → ℕ → Bool → AsyncResult V E → AsyncResult V E
result_start zero busy r = r
result_start (suc n) true r = r
result_start (suc n) false r = record r { callbacks = n; running = true }

pub data Use {ℓ} (V E : Type ℓ) : Type ℓ where
  settles : Outcome V E → Use V E
  gets starts : Use V E
  times_out rounds : ℕ → Use V E

-- A failed assertion changes nothing.
unfoldable pub or_same {ℓ} :
    {V E : Type ℓ} → AsyncResult V E → Option (AsyncResult V E) → AsyncResult V E
or_same r none = r
or_same r (some s) = s

unfoldable pub use_result {ℓ} : {V E : Type ℓ} → Use V E → AsyncResult V E → AsyncResult V E
unfolding set_outcome get_outcome result_start result_round or_same without
use_result (settles o) r = or_same r (set_outcome r.outcome o r)
use_result gets r = get_outcome r.outcome r
use_result starts r = result_start r.callbacks r.running r
use_result (times_out c) r = record r { links = without c r.links }
use_result (rounds k) r = result_round r.running k r

unfoldable pub uses {ℓ} : {V E : Type ℓ} → List (Use V E) → AsyncResult V E → AsyncResult V E
unfolding use_result
uses [] r = r
uses (u ∷ more) r = uses more (use_result u r)
