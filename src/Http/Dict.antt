-- ===== src/Http/Dict.antt =====
-- The string-keyed Lua table under `headers`: `lua_settable` overwrites, and a lookup reads.
use levent.Prelude.{
  ◌≡◌, refl, Option, none, some, List, [], ◌∷◌, arith, Bytes, bytes_eq, bytes_eq_iff, if◌then◌else◌,
  subst,
}

abbrev pub Dict : Type 0
Dict = List (Bytes × Bytes)

unfoldable pub insert : Bytes → Bytes → Dict → Dict
insert k v [] = (k, v) ∷ []
insert k v ((j, w) ∷ d) = if bytes_eq j k then (k, v) ∷ d else (j, w) ∷ insert k v d

unfoldable pub lookup : Bytes → Dict → Option Bytes
lookup k [] = none
lookup k ((j, w) ∷ d) = if bytes_eq j k then some w else lookup k d

pub lookup-insert :
    (k j v : Bytes) (d : Dict)
    → lookup j (insert k v d) ≡ (if bytes_eq k j then some v else lookup j d)
unfolding insert lookup
lookup-insert k j v [] = refl
lookup-insert k j v ((i, w) ∷ d) =
    ground (arith, bytes_eq_iff k j, bytes_eq_iff i k, bytes_eq_iff i j, lookup-insert k j v d)

-- All pairs, in order.
unfoldable pub insert_all : Dict → Dict → Dict
insert_all [] d = d
insert_all ((k, v) ∷ ps) d = insert_all ps (insert k v d)

-- The value of the last pair with the key `k`, or `other`.
unfoldable pub last_value : Bytes → Dict → Option Bytes → Option Bytes
last_value k [] other = other
last_value k ((j, v) ∷ ps) other = last_value k ps (if bytes_eq j k then some v else other)

pub lookup-insert_all :
    (k : Bytes) (ps d : Dict) → lookup k (insert_all ps d) ≡ last_value k ps (lookup k d)
unfolding insert_all last_value
lookup-insert_all k [] d = refl
lookup-insert_all k ((j, v) ∷ ps) d =
    subst (λ o. lookup k (insert_all ps (insert j v d)) ≡ last_value k ps o) (lookup-insert j k v d)
      (lookup-insert_all k ps (insert j v d))
