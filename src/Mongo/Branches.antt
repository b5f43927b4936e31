-- ===== src/Mongo/Branches.antt =====
-- The branches of `op_reply` in cext/lua-mongo.c, on bytes with given fields and documents.
use levent.Prelude.{
  ℕ, zero, suc, ◌+◌, ◌-◌, ◌/◌, ◌%◌, ◌^◌, ◌<◌, ◌≡◌, ◌≢◌, false, true, refl, subst, ap, ◌∙◌, Option,
  none, some, List, [], ◌∷◌, ◌++◌, arith, Bytes, length, length-append, take-append, take, drop,
  All, ltb, leb, ◌==◌, ==_iff, ltb-false, if◌then◌else◌, ◌&&◌, not, Bool-cases, inl, inr,
}
use levent.Prelude.Result.{Result, ok, raised, invalid_document}
use levent.Bson.Wire.{bytes32}
use levent.Bson.Scalars.{first_word}
use levent.Bson.Decode.{sign_extend}
use levent.Mongo.Reply.{
  less, field, rest_size, is_single, succeed, into_table, op_reply, Reply, success, mismatch,
  query_failure,
}
use levent.Mongo.Filling.{IsExact, joined, addresses, fill_lem, first_word-append}
use levent.Mongo.Replies.{cursor_of, length-joined, length-addresses, rest_size_lem}

-- The answer to a reply with these fields: without a result table `number` is not compared, and one document
-- at most is allowed.
abbrev pub answer_to :
    ℕ → ℕ → ℕ → ℕ → ℕ → ℕ → ℕ → List Bytes → Option (List ℕ) → Result (Reply × Option (List ℕ))
answer_to base response flags low high starting number docs result =
    let done =
      success (sign_extend response) (if number == 0 then none else some (base + 32))
        (cursor_of low high) (sign_extend starting) in
    if flags / 2 % 2 == 1
    then ok (query_failure (sign_extend response) (base + 32), result)
    else elim result [
      | some t ↦
          if length docs == number
          then ok (done, some (addresses (base + 32) docs))
          else ok (
            mismatch (sign_extend response),
            some (addresses (base + 32) docs ++ drop (length docs) t),
          )
      | none ↦ if leb (length docs) 1 then ok (done, none) else raised invalid_document
    ]

less-same : (n : ℕ) → less n n ≡ some 0
unfolding less
less-same n = let whole : leb n n ≡ true = ground arith in rw whole (ap some (omega arith))

less-more : (n m : ℕ) → less (n + m) n ≡ some m
unfolding less
less-more n m = let whole : leb n (n + m) ≡ true = ground arith in rw whole (ap some (omega arith))

succeed-left :
    (base n : ℕ) (reply : Bytes) → 0 < n → succeed base reply (some n) ≡ raised invalid_document
unfolding succeed
succeed-left base zero reply more = absurd (omega arith)
succeed-left base (suc n) reply more = refl

-- After one document its followers are left.
single_lem :
    (docs : List Bytes)
    → All IsExact docs
    → length (joined docs) < 2 ^ 31
    → is_single (some (length (joined docs))) (joined docs)
      ≡ ok (some (length (joined (drop 1 docs))))
unfolding is_single
single_lem [] exact small = refl
single_lem (doc ∷ docs) exact small =
    let lengths = length-append doc (joined docs) in
    let word : first_word (joined (doc ∷ docs)) ≡ length doc =
      first_word-append doc (joined docs) exact.0.0 ∙ exact.0.1 in
    let room : ltb (length (doc ++ joined docs)) 4 ≡ false =
      ltb-false _ _ (let long = exact.0.0 in omega arith) in
    let positive : leb (2 ^ 31) (length doc) ≡ false = ground arith in
    rw (room, word, positive, lengths, less-more (length doc) (length (joined docs))) refl

module _ (base response flags low high starting number : ℕ) (reply : Bytes) (docs : List Bytes)
    (exact : All IsExact docs) (small : length (joined docs) < 2 ^ 31)
    (size : length reply ≡ 32 + length (joined docs)) (behind : drop 32 reply ≡ joined docs)
    (cursor : take 8 (drop 16 reply) ≡ bytes32 low ++ bytes32 high) (f4 : field 4 reply ≡ response)
    (f12 : field 12 reply ≡ flags) (f16 : field 16 reply ≡ low) (f20 : field 20 reply ≡ high)
    (f24 : field 24 reply ≡ starting) (f28 : field 28 reply ≡ number) where
  succeed_lem :
      succeed base reply (some 0)
      ≡ ok (
          success
            (sign_extend response)
            (if number == 0 then none else some (base + 32))
            (cursor_of low high)
            (sign_extend starting))
  unfolding succeed
  succeed_lem = rw (f4, f28, f16, f20, cursor, f24) refl

  size_lem : rest_size (length reply) ≡ some (length (joined docs))
  size_lem = rw size (rest_size_lem _ small)

  -- Without a result table.
  no_table_lem :
      (ds : List Bytes)
      → docs ≡ ds
      → All IsExact ds
      → succeed base reply (some (length (joined (drop 1 ds)))) ≡ (
          if leb (length ds) 1
          then ok (
              success
                (sign_extend response)
                (if number == 0 then none else some (base + 32))
                (cursor_of low high)
                (sign_extend starting))
          else raised invalid_document)
  no_table_lem [] same fine = succeed_lem
  no_table_lem (doc ∷ []) same fine = succeed_lem
  no_table_lem (doc ∷ more ∷ others) same fine =
      let long = fine.1.0.0 in
      let many : leb (length (doc ∷ more ∷ others)) 1 ≡ false = ground arith in
      rw many (succeed-left base _ reply (omega (arith, length-append more (joined others))))

  table_lem :
      (rounds : ℕ) (t : List ℕ)
      → length docs < rounds
      → number < 2 ^ 32
      → number ≢ 2 ^ 31 - 1
      → into_table rounds base reply t ≡ (
          if length docs == number
          then ok (
            success
                (sign_extend response)
                (if number == 0 then none else some (base + 32))
                (cursor_of low high)
                (sign_extend starting),
            addresses (base + 32) docs,
          )
          else ok
              (mismatch (sign_extend response), addresses (base + 32) docs ++ drop (length docs) t))
  unfolding into_table
  table_lem rounds t enough small_number no_overflow =
      let count = length docs in
      let few = length-joined docs exact in
      let filled = fill_lem rounds (base + 32) 1 docs [] t exact enough small refl in
      let bounded : (number == 2 ^ 31 - 1) ≡ false =
        ground (arith, no_overflow, ==_iff number (2 ^ 31 - 1)) in
      let addrs = addresses (base + 32) docs in
      let kept : take (1 + count - 1) (addrs ++ drop count t) ≡ addrs =
        subst (λ k. take k (addrs ++ drop count t) ≡ addrs)
          (omega (arith, length-addresses (base + 32) docs)) (take-append addrs (drop count t)) in
      elim (Bool-cases (count == number)) [
        | inl all ↦
            let number_is : count ≡ number = (==_iff count number).0 all in
            let positive : leb (2 ^ 31) number ≡ false = ground arith in
            let test : (1 + count == number + 1) ≡ true = ground arith in
            rw
              (
                size_lem, behind, filled, f28, bounded, positive, test, f4, f16, f20, f24, cursor,
                kept, all,
              )
              refl
        | inr others ↦
            let test : (not (leb (2 ^ 31) number) && (1 + count == number + 1)) ≡ false =
              ground (arith, ==_iff count number, others) in
            rw (size_lem, behind, filled, f28, bounded, test, f4, others) refl
      ]

  -- The same for any bytes with these fields.
  pub answer_lem :
      (rounds : ℕ) (result : Option (List ℕ))
      → length docs < rounds
      → number < 2 ^ 32
      → number ≢ 2 ^ 31 - 1
      → op_reply rounds base reply result
        ≡ answer_to base response flags low high starting number docs result
  unfolding op_reply
  answer_lem rounds (some t) enough small_number no_overflow =
      let long : ltb (length reply) 32 ≡ false = ltb-false _ _ (omega arith) in
      let filled = table_lem rounds t enough small_number no_overflow in
      elim (Bool-cases (flags / 2 % 2 == 1)) [
        | inl failed ↦ rw (long, f12, failed, f4) refl
        | inr sound ↦ elim (Bool-cases (length docs == number)) [
          | inl all ↦ rw (long, f12, sound, filled, all) refl
          | inr others ↦ rw (long, f12, sound, filled, others) refl
        ]
      ]
  answer_lem rounds none enough small_number no_overflow =
      let long : ltb (length reply) 32 ≡ false = ltb-false _ _ (omega arith) in
      let single = single_lem docs exact small in
      let done = no_table_lem docs refl exact in
      elim (Bool-cases (flags / 2 % 2 == 1)) [
        | inl failed ↦ rw (long, f12, failed, f4) refl
        | inr sound ↦ elim (Bool-cases (leb (length docs) 1)) [
          | inl alone ↦ rw (long, f12, sound, size_lem, behind, single, done, alone) refl
          | inr several ↦ rw (long, f12, sound, size_lem, behind, single, done, several) refl
        ]
      ]
