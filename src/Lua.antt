-- ===== src/Lua.antt =====
-- The Lua values that the bindings of cext/ take and build, and what they ask of the Lua library.
-- A table is the sequence of its entries. Where a binding reads a table, that is the order of `lua_next`,
-- whatever it is; where one builds a table, Lua leaves the order open, the sequence is one of those it may be,
-- and `SameEntries` says which others are the same table.
use levent.Prelude.{ℕ, suc, ◌+◌, ◌≡◌, Bool, true, false, ◌&&◌, Bytes, bytes_eq, ◌==◌, if◌then◌else◌}

-- An integer is its 64-bit two's complement pattern, and a number (a double) is its 64-bit pattern.
-- `other` is a value of any type that the bindings refuse.
mutual
  pub data Value : Type 0 where
    nil : Value
    boolean : Bool → Value
    integer : ℕ → Value
    number : ℕ → Value
    string : Bytes → Value
    table : Entries → Value
    userdata : Bytes → Value
    other : Value

  pub data Entries : Type 0 where
    empty : Entries
    entry : Value → Value → Entries → Entries

-- `lua_rawequal`, on the types that the bindings use as keys.
unfoldable pub raw_equal : Value → Value → Bool
raw_equal (integer a) (integer b) = a == b
raw_equal (number a) (number b) = a == b
raw_equal (string a) (string b) = bytes_eq a b
raw_equal _ _ = false

-- `lua_rawset`. A key that was there keeps its place, and where a new one comes is left open by Lua: behind the
-- others is as good as any place.
unfoldable pub rawset : Value → Value → Entries → Entries
unfolding raw_equal
rawset k v empty = entry k v empty
rawset k v (entry j w es) = if raw_equal j k then entry k v es else entry j w (rawset k v es)

-- The same table but for the order of `lua_next`, and so for the tables in it.
mutual
  pub data SameValue : Value → Value → Type 0 where
    same_value : (v : Value) → SameValue v v
    same_table : (es fs : Entries) → SameEntries es fs → SameValue (table es) (table fs)

  pub data SameEntries : Entries → Entries → Type 0 where
    both_empty : SameEntries empty empty
    same_entry :
        (k v w : Value) (es fs : Entries)
        → SameValue v w
        → SameEntries es fs
        → SameEntries (entry k v es) (entry k w fs)
    swapped :
        (k v l w : Value) (es : Entries)
        → raw_equal k l ≡ false
        → SameEntries (entry k v (entry l w es)) (entry l w (entry k v es))
    same_as : (es fs gs : Entries) → SameEntries es fs → SameEntries fs gs → SameEntries es gs

pub SameEntries-refl : (es : Entries) → SameEntries es es
SameEntries-refl empty = both_empty
SameEntries-refl (entry k v es) = same_entry k v v es es (same_value v) (SameEntries-refl es)

-- All keys are strings.
unfoldable pub has_string_keys : Entries → Bool
has_string_keys empty = true
has_string_keys (entry (string k) v es) = has_string_keys es
has_string_keys (entry _ v es) = false

-- The keys are the integers from `i` on, and `n` is the last of them.
unfoldable pub counts_up : ℕ → ℕ → Entries → Bool
counts_up i n empty = n + 1 == i
counts_up i n (entry (integer k) v es) = (k == i) && counts_up (suc i) n es
counts_up i n (entry _ v es) = false

-- What the bindings ask of the C library and of Lua. `rawlen` is a border of the table: of a table
-- with string keys only that is 0, and of a sequence it is its length. `number_key` is the text
-- that `lua_tolstring` makes of a numeric key.
pub record LuaLib : Type 0 where
  pub rawlen : Entries → ℕ
  pub number_key : Value → Bytes
  pub rawlen_strings : (es : Entries) → has_string_keys es ≡ true → rawlen es ≡ 0
  pub rawlen_sequence : (n : ℕ) (es : Entries) → counts_up 1 n es ≡ true → rawlen es ≡ n
