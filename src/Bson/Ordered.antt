-- ===== src/Bson/Ordered.antt =====
-- Tables as `lua_next` orders them: keys that are new are put behind the others, and documents that
-- follow each other. Both are what the decoder of cext/lua-bson.c builds on.
use levent.Prelude.{
  ℕ, zero, suc, ◌+◌, ◌-◌, ◌^◌, ◌<◌, ◌≡◌, refl, ap, Bool, true, false, ◌&&◌, [], ◌∷◌, ◌++◌,
  append_assoc, arith, Bytes, length, take, length-append, leb, bytes_eq_iff,
}
use levent.Prelude.Result.{ok}
use levent.Lua.{Value, Entries, integer, string, empty, entry, raw_equal, rawset}
use levent.Bson.Wire.{bytes32}
use levent.Bson.Format.{absent, PlainDict, dict_empty, dict_entry, document}
use levent.Bson.Reader.{read_byte, read_int32, read_bytes, is_negative}
use levent.Bson.Decode.{read_elements}
use levent.Bson.Reads.{read_int32-bytes32, read_bytes-append}

-- Entries behind entries.
unfoldable pub append_entries : Entries → Entries → Entries
append_entries empty es = es
append_entries (entry k v acc) es = entry k v (append_entries acc es)

pub append_entries-empty : (es : Entries) → append_entries es empty ≡ es
unfolding append_entries
append_entries-empty empty = refl
append_entries-empty (entry k v es) = ap (λ r. entry k v r) (append_entries-empty es)

pub append_entries_assoc :
    (a b c : Entries)
    → append_entries (append_entries a b) c ≡ append_entries a (append_entries b c)
unfolding append_entries
append_entries_assoc empty b c = refl
append_entries_assoc (entry k v a) b c = ap (λ r. entry k v r) (append_entries_assoc a b c)

-- A new key is put behind the others.
pub rawset-absent :
    (k v : Value) (acc : Entries)
    → absent k acc ≡ true
    → rawset k v acc ≡ append_entries acc (entry k v empty)
unfolding rawset absent append_entries
rawset-absent k v empty h = refl
rawset-absent k v (entry j w acc) h =
    let other_key : raw_equal j k ≡ false = ground arith in
    rw (other_key, rawset-absent k v acc (ground arith))

pub absent-snoc :
    (k j v : Value) (acc : Entries)
    → absent k acc ≡ true
    → raw_equal j k ≡ false
    → absent k (append_entries acc (entry j v empty)) ≡ true
unfolding absent append_entries
absent-snoc k j v empty h ne = rw ne
absent-snoc k j v (entry i w acc) h ne =
    let other_key : raw_equal i k ≡ false = ground arith in
    rw (other_key, absent-snoc k j v acc (ground arith) ne)

-- No key of the second table occurs in the first.
pub disjoint : Entries → Entries → Bool
disjoint acc empty = true
disjoint acc (entry k v es) = absent k acc && disjoint acc es

pub raw_equal_text :
    (a b : Bytes)
    → raw_equal (string a) (string b) ≡ false
    → raw_equal (string b) (string a) ≡ false
unfolding raw_equal
raw_equal_text a b h = ground (arith, bytes_eq_iff a b, bytes_eq_iff b a)

-- The rest of a document's keys are new also behind the key that was just read.
pub disjoint-snoc :
    (k : Bytes) (v : Value) (acc : Entries) {es : Entries}
    → PlainDict es
    → absent (string k) es ≡ true
    → disjoint acc es ≡ true
    → disjoint (append_entries acc (entry (string k) v empty)) es ≡ true
unfolding disjoint absent
disjoint-snoc k v acc dict_empty new apart = refl
disjoint-snoc k v acc (dict_entry j w es nz fresh pw ps) new apart =
    let ne : raw_equal (string j) (string k) ≡ false = ground arith in
    rw (
      absent-snoc (string j) (string k) v acc (ground arith) (raw_equal_text j k ne),
      disjoint-snoc k v acc ps (ground arith) (ground arith),
    )

pub document-length : (xs : Bytes) → length (document xs) ≡ length xs + 5
document-length xs = omega (arith, length-append xs (0 ∷ []))

-- The elements of a document, and what follows it.
pub read_elements-document :
    (xs t : Bytes) → length xs + 5 < 2 ^ 31 → read_elements (document xs ++ t) ≡ ok (xs, t)
unfolding read_elements
read_elements-document xs t h =
    let n = length xs + 5 in
    let read : read_int32 (bytes32 n ++ ((xs ++ (0 ∷ [])) ++ t)) ≡ ok (n, (xs ++ (0 ∷ [])) ++ t) =
      read_int32-bytes32 n _ (omega arith) in
    let sign : is_negative n ≡ false = ground arith in
    let large : leb 5 n ≡ true = ground arith in
    let less : n - 5 ≡ length xs = omega arith in
    let whole : read_bytes (n - 5) (xs ++ (0 ∷ t)) ≡ ok (xs, 0 ∷ t) =
      read_bytes-append (n - 5) xs (0 ∷ t) less in
    rw (read, sign, large, append_assoc xs (0 ∷ []) t, whole) (unfold read_byte in refl)

pub append_entries-snoc :
    (acc : Entries) (k v : Value) (es : Entries)
    → append_entries (append_entries acc (entry k v empty)) es ≡ append_entries acc (entry k v es)
unfolding append_entries
append_entries-snoc acc k v es = append_entries_assoc acc (entry k v empty) es

pub disjoint-head :
    (k v : Value) (acc es : Entries) → disjoint acc (entry k v es) ≡ true → absent k acc ≡ true
unfolding disjoint
disjoint-head k v acc es h = ground arith

pub disjoint-tail :
    (k v : Value) (acc es : Entries) → disjoint acc (entry k v es) ≡ true → disjoint acc es ≡ true
unfolding disjoint
disjoint-tail k v acc es h = ground arith

pub absent-empty : (k : Value) → absent k empty ≡ true
unfolding absent
absent-empty k = refl

pub disjoint-empty : (es : Entries) → disjoint empty es ≡ true
unfolding disjoint absent
disjoint-empty empty = refl
disjoint-empty (entry k v es) = disjoint-empty es

pub integer_keys : (k j : ℕ) → k < j → raw_equal (integer k) (integer j) ≡ false
unfolding raw_equal
integer_keys k j h = ground arith

pub take-whole : (n : ℕ) (xs : Bytes) → n ≡ length xs → take n xs ≡ xs
take-whole zero [] h = refl
take-whole zero (x ∷ xs) h = absurd (omega arith)
take-whole (suc n) [] h = refl
take-whole (suc n) (x ∷ xs) h = ap (λ r. x ∷ r) (take-whole n xs (omega arith))
