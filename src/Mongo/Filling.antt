-- ===== src/Mongo/Filling.antt =====
-- The loop of `op_reply` in cext/lua-mongo.c over documents that state their own lengths.
use levent.Prelude.{
  ℕ, zero, suc, ◌+◌, ◌-◌, ◌^◌, ◌<◌, ◌≡◌, false, true, refl, ap, ◌∙◌, some, List, [], ◌∷◌, ◌++◌,
  append_assoc, arith, Bytes, length, length-append, drop-append, drop, All, leb, le→leb,
}
use levent.Prelude.Result.{ok}
use levent.Bson.Scalars.{first_word}
use levent.Mongo.Reply.{rawseti, less, fill}

-- A document that states its own length.
abbrev pub IsExact : Bytes → Type 0
IsExact doc = (4 < length doc) × (first_word doc ≡ length doc)

abbrev pub joined : List Bytes → Bytes
joined [] = []
joined (doc ∷ docs) = doc ++ joined docs

-- Where documents stand that follow each other from an address on.
abbrev pub addresses : ℕ → List Bytes → List ℕ
addresses at [] = []
addresses at (doc ∷ docs) = at ∷ addresses (at + length doc) docs

pub first_word-append :
    (doc rest : Bytes) → 4 < length doc → first_word (doc ++ rest) ≡ first_word doc
unfolding first_word
first_word-append (a ∷ b ∷ c ∷ d ∷ doc) rest h = refl
first_word-append [] rest h = absurd (omega arith)
first_word-append (a ∷ []) rest h = absurd (omega arith)
first_word-append (a ∷ b ∷ []) rest h = absurd (omega arith)
first_word-append (a ∷ b ∷ c ∷ []) rest h = absurd (omega arith)

pub rawseti_lem :
    (front rest : List ℕ) (v : ℕ)
    → rawseti (suc (length front)) v (front ++ rest) ≡ (front ++ (v ∷ [])) ++ drop 1 rest
unfolding rawseti
rawseti_lem [] [] v = refl
rawseti_lem [] (x ∷ rest) v = refl
rawseti_lem (y ∷ []) [] v = refl
rawseti_lem (y ∷ []) (x ∷ rest) v = refl
rawseti_lem (y ∷ z ∷ front) rest v = ap (λ r. y ∷ r) (rawseti_lem (z ∷ front) rest v)

pub drop-drop : (n : ℕ) (xs : List ℕ) → drop n (drop 1 xs) ≡ drop (suc n) xs
drop-drop zero [] = refl
drop-drop (suc n) [] = refl
drop-drop n (x ∷ xs) = refl

pub fill_lem :
    (rounds at i : ℕ) (docs : List Bytes) (front rest : List ℕ)
    → All IsExact docs
    → length docs < rounds
    → length (joined docs) < 2 ^ 31
    → i ≡ suc (length front)
    → fill rounds at (joined docs) (some (length (joined docs))) i (front ++ rest)
      ≡ ok (i + length docs, some 0, front ++ (addresses at docs ++ drop (length docs) rest))
unfolding fill less
fill_lem zero at i docs front rest exact enough small here = absurd (omega arith)
fill_lem (suc rounds) at i [] front rest exact enough small here =
    ap (λ k. ok (k, some 0, front ++ rest)) (omega arith)
fill_lem (suc rounds) at i (doc ∷ docs) front rest exact enough small here =
    let lengths = length-append doc (joined docs) in
    let n = length doc in
    let same : first_word (doc ++ joined docs) ≡ n =
      first_word-append doc (joined docs) exact.0.0 ∙ exact.0.1 in
    let long : leb (length (doc ++ joined docs)) 4 ≡ false = ground arith in
    let positive : leb (2 ^ 31) n ≡ false = ground arith in
    let whole : leb n (length (doc ++ joined docs)) ≡ true = le→leb _ _ (omega arith) in
    let left : length (doc ++ joined docs) - n ≡ length (joined docs) = omega arith in
    let later =
      fill_lem rounds (at + n) (suc i) docs (front ++ (at ∷ [])) (drop 1 rest) exact.1 (omega arith)
        (omega arith) (omega (arith, length-append front (at ∷ []))) in
    let place : rawseti i at (front ++ rest) ≡ (front ++ (at ∷ [])) ++ drop 1 rest =
      rw here (rawseti_lem front rest at) in
    let count : suc i + length docs ≡ i + suc (length docs) = omega arith in
    rw (
      same,
      long,
      positive,
      whole,
      left,
      drop-append doc (joined docs),
      place,
      later,
      drop-drop (length docs) rest,
      append_assoc front (at ∷ []),
      count,
    )
