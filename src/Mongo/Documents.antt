-- ===== src/Mongo/Documents.antt =====
-- Tables that cext/lua-bson.c encodes, in a reply that cext/lua-mongo.c takes apart, and decoded at the
-- addresses that it gives.
use levent.Prelude.{
  ℕ, suc, ◌+◌, ◌-◌, ◌/◌, ◌%◌, ◌^◌, ◌≤◌, ◌<◌, ◌≡◌, refl, sym, subst, ap, ◌∙◌, some, List, [], ◌∷◌,
  ◌++◌, map, arith, Bytes, length, length-append, take-append, drop, drop-append, drop_add, false,
  All, ltb, ltb-false,
}
use levent.Prelude.Result.{Result, ok, ◌>>=◌}
use levent.Lua.{Entries, table, LuaLib}
use levent.Bson.Wire.{max_depth}
use levent.Bson.Scalars.{first_word}
use levent.Bson.Encode.{encode}
use levent.Bson.Format.{PlainDict, document, elements, nesting_entries}
use levent.Bson.Appends.{safe_limit}
use levent.Bson.Ordered.{document-length, take-whole}
use levent.Bson.Decode.{CLib, decode, sign_extend}
use levent.Bson.Refines.{encode_lem}
use levent.Bson.RoundTrip.{first_word-document, decode-encoded}
use levent.Mongo.Reply.{op_reply, success}
use levent.Mongo.Filling.{IsExact, joined, addresses, first_word-append}
use levent.Mongo.Replies.{reply_text, first_of, cursor_of}
use levent.Mongo.Answers.{op_reply_lem}

-- The tables whose documents are read back.
abbrev pub IsSmall : Entries → Type 0
IsSmall es =
    PlainDict es × (nesting_entries es ≤ max_depth) × (length (document (elements es)) < safe_limit)

module _ (c : CLib) (lua : LuaLib) (stale : ℕ → ℕ) where
  -- The documents that `encode` makes of tables.
  abbrev pub Encoded : List Entries → List Bytes → Type 0
  Encoded [] [] = Unit {0}
  Encoded (es ∷ tables) (doc ∷ docs) = (encode lua stale (table es) ≡ ok doc) × Encoded tables docs
  Encoded _ _ = ⊥

  -- What `decode` gives at addresses of a block of memory that starts at `base`.
  abbrev pub decoded : ℕ → Bytes → List ℕ → List (Result Entries)
  decoded base memory at = map (λ a. decode c (drop (a - base) memory)) at

  Encoded-document :
      (es : Entries) (doc : Bytes)
      → IsSmall es
      → encode lua stale (table es) ≡ ok doc
      → doc ≡ document (elements es)
  Encoded-document es doc (plain, shallow, small) e =
      let made = encode_lem lua stale es plain shallow small in cc

  document-IsExact : (xs : Bytes) → length (document xs) < safe_limit → IsExact (document xs)
  document-IsExact xs small =
      let sized = document-length xs in
      (omega arith, first_word-document c xs (omega arith) ∙ sym sized)

  Encoded-IsExact :
      (tables : List Entries) (docs : List Bytes)
      → All IsSmall tables
      → Encoded tables docs
      → All IsExact docs
  Encoded-IsExact [] [] small made = tt
  Encoded-IsExact [] (doc ∷ docs) small made = absurd made
  Encoded-IsExact (es ∷ tables) [] small made = absurd made
  Encoded-IsExact (es ∷ tables) (doc ∷ docs) (this, others) (first, rest) = (
    subst IsExact (sym (Encoded-document es doc this first))
        (document-IsExact (elements es) this.2),
    Encoded-IsExact tables docs others rest,
  )

  -- What stands behind a document does not matter to `decode`.
  decode-append : (doc rest : Bytes) → IsExact doc → decode c (doc ++ rest) ≡ decode c doc
  unfolding decode
  decode-append doc rest (long, exact) =
      let n = length doc in
      let word : first_word (doc ++ rest) ≡ n = first_word-append doc rest long ∙ exact in
      let sized = length-append doc rest in
      let far : ltb (length (doc ++ rest)) 4 ≡ false =
        ltb-false (length (doc ++ rest)) 4 (omega arith) in
      let near : ltb (length doc) 4 ≡ false = ltb-false (length doc) 4 (omega arith) in
      let fits : ltb (length (doc ++ rest)) n ≡ false =
        ltb-false (length (doc ++ rest)) n (omega arith) in
      let itself : ltb n n ≡ false = ltb-false n n (omega arith) in
      rw (word, exact, far, near, fits, itself, take-append doc rest, take-whole n doc refl)

  decoded_lem :
      (base start : ℕ) (memory : Bytes) (tables : List Entries) (docs : List Bytes)
      → drop start memory ≡ joined docs
      → All IsSmall tables
      → Encoded tables docs
      → decoded base memory (addresses (base + start) docs) ≡ map ok tables
  decoded_lem base start memory [] [] here small made = refl
  decoded_lem base start memory [] (doc ∷ docs) here small made = absurd made
  decoded_lem base start memory (es ∷ tables) [] here small made = absurd made
  decoded_lem base start memory (es ∷ tables) (doc ∷ docs) here (this, others) (first, rest) =
      let exact = Encoded-IsExact (es ∷ []) (doc ∷ []) (this, tt) (first, tt) in
      let back : decode c doc ≡ ok es =
        ap (λ r. r >>= decode c) (sym first) ∙ decode-encoded c lua stale es this.0 this.1 this.2 in
      let offset : base + start - base ≡ start = omega arith in
      let next : base + start + length doc ≡ base + (start + length doc) = omega arith in
      let behind : drop (start + length doc) memory ≡ joined docs =
        drop_add start (length doc) memory
        ∙ ap (drop (length doc)) here
        ∙ drop-append doc (joined docs) in
      rw (offset, here, next, decode-append doc (joined docs) exact.0, back)
        (ap (λ r. ok es ∷ r)
          (decoded_lem base (start + length doc) memory tables docs behind others rest))

  length-Encoded :
      (tables : List Entries) (docs : List Bytes)
      → Encoded tables docs
      → length docs ≡ length tables
  length-Encoded [] [] made = refl
  length-Encoded [] (doc ∷ docs) made = absurd made
  length-Encoded (es ∷ tables) [] made = absurd made
  length-Encoded (es ∷ tables) (doc ∷ docs) (first, rest) = ap suc (length-Encoded tables docs rest)

  -- When a server sends back the documents that `encode` made of some tables, `op_reply` gives their
  -- addresses, and decoding at each gives back its table, in their order: for tables as `encode` and
  -- `decode` keep them, documents that take less than 2^31 bytes, and the reply and the rounds of the
  -- loop as it wants them.
  pub reply-decode :
      (rounds base request response opcode flags low high starting : ℕ) (tables : List Entries)
      (docs : List Bytes) (t : List ℕ)
      → All IsSmall tables
      → Encoded tables docs
      → length tables < rounds
      → length (joined docs) < 2 ^ 31
      → response < 2 ^ 32
      → flags < 2 ^ 32
      → low < 2 ^ 32
      → high < 2 ^ 32
      → starting < 2 ^ 32
      → flags / 2 % 2 ≡ 0
      → let reply = reply_text request response opcode flags low high starting (length docs) docs in
        (op_reply rounds base reply (some t)
          ≡ ok (
            success
                (sign_extend response)
                (first_of (base + 32) docs)
                (cursor_of low high)
                (sign_extend starting),
            some (addresses (base + 32) docs),
          ))
        × (decoded base reply (addresses (base + 32) docs) ≡ map ok tables)
  reply-decode rounds base request response opcode flags low high starting tables docs t small made
        enough fits hr hf hl hh hs sound =
      (
        op_reply_lem rounds base request response opcode flags low high starting docs t
            (Encoded-IsExact tables docs small made)
            (omega (arith, length-Encoded tables docs made)) fits hr hf hl hh hs sound,
        decoded_lem base 32 _ tables docs refl small made,
      )
