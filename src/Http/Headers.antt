-- ===== src/Http/Headers.antt =====
-- The headers that `execute` gathers do not depend on how the parser cuts them into pieces.
use levent.Prelude.{
  ℕ, ◌+◌, ◌%◌, ◌≡◌, refl, sym, ap, ◌∙◌, Bool, true, false, some, List, [], ◌∷◌, ◌++◌, append-nil,
  append_assoc, arith, Bytes, length, length-append,
}
use levent.Prelude.Result.{ok}
use levent.Http.Dict.{Dict, insert_all, lookup, last_value, lookup-insert_all}
use levent.Http.Callbacks.{
  Message, Event, ParserLib, message_begin, url, status, header_field, header_value,
  headers_complete, body, message_complete, append_last, on_header_field, on_header_value, compose,
  headers_table, completed, on_message_complete, dispatch, on_message_begin, on_url, on_status,
  on_headers_complete, on_body,
}
use levent.Http.Execute.{Trace, call, run}

-- The array part that a list of headers makes: field, value, field, value.
abbrev pub flat : Dict → List Bytes
flat [] = []
flat ((f, v) ∷ d) = f ∷ v ∷ flat d

append_last-snoc :
    (xs : List Bytes) (x at : Bytes) → append_last (xs ++ (x ∷ [])) at ≡ ok (xs ++ ((x ++ at) ∷ []))
unfolding append_last
append_last-snoc [] x at = refl
append_last-snoc (y ∷ []) x at = refl
append_last-snoc (y ∷ z ∷ xs) x at = rw (append_last-snoc (z ∷ xs) x at)

compose-flat : (d h : Dict) → compose (flat d) h ≡ ([], insert_all d h)
unfolding compose insert_all
compose-flat [] h = refl
compose-flat ((f, v) ∷ d) h = compose-flat d _

length-flat : (d : Dict) → length (flat d) % 2 ≡ 0
length-flat [] = refl
length-flat ((f, v) ∷ d) = omega (arith, length-flat d)

length-snoc : (xs : List Bytes) (x : Bytes) → length (xs ++ (x ∷ [])) ≡ length xs + 1
length-snoc [] x = omega arith
length-snoc (y ∷ xs) x = omega (arith, length-snoc xs x)

abbrev is_header_part : Event → Bool
is_header_part (header_field at) = true
is_header_part (header_value at) = true
is_header_part message_complete = true
is_header_part _ = false

module _ (lib : ParserLib) where
  open lib use {Parser}

  -- One or more callbacks `mk` whose pieces make up the string, and what follows them.
  pub data Pieces (mk : Bytes → Event) : Trace lib → Bytes → Trace lib → Type 0 where
    last :
        (at : Bytes) (p : Parser) (n : ℕ) {t : Trace lib}
        → lib.errno p ≡ 0
        → Pieces mk (call (mk at) p n t) at t
    more :
        (at s : Bytes) (p : Parser) (n : ℕ) {t u : Trace lib} {r : Bytes}
        → lib.errno p ≡ 0
        → Pieces mk t s u
        → r ≡ at ++ s
        → Pieces mk (call (mk at) p n t) r u

  -- The callbacks up to some point of a message: headers, each cut into pieces, and in between
  -- callbacks of the other kinds.
  pub data HeaderCalls : Trace lib → Dict → Trace lib → Type 0 where
    done : {t : Trace lib} → HeaderCalls t [] t
    header :
        (f v : Bytes) {d : Dict} {t u w x : Trace lib}
        → Pieces header_field t f u
        → Pieces header_value u v w
        → HeaderCalls w d x
        → HeaderCalls t ((f, v) ∷ d) x
    other :
        (e : Event) (p : Parser) (n : ℕ) {d : Dict} {t u : Trace lib}
        → lib.errno p ≡ 0
        → is_header_part e ≡ false
        → HeaderCalls t d u
        → HeaderCalls (call e p n t) d u

  abbrev with_slots : Message → List Bytes → Message
  with_slots m xs = record m { slots = xs }

  field_start :
      (at : Bytes) (p : Parser) (n : ℕ) (t : Trace lib) (m : Message) (xs : List Bytes)
      → lib.errno p ≡ 0
      → length xs % 2 ≡ 0
      → run lib (call (header_field at) p n t) (with_slots m xs)
        ≡ run lib t (with_slots m (xs ++ (at ∷ [])))
  unfolding run dispatch on_header_field
  field_start at p n t m xs e even = rw (even, e)

  field_next :
      (at x : Bytes) (p : Parser) (n : ℕ) (t : Trace lib) (m : Message) (xs : List Bytes)
      → lib.errno p ≡ 0
      → length xs % 2 ≡ 0
      → run lib (call (header_field at) p n t) (with_slots m (xs ++ (x ∷ [])))
        ≡ run lib t (with_slots m (xs ++ ((x ++ at) ∷ [])))
  unfolding run dispatch on_header_field
  field_next at x p n t m xs e even =
      let odd : length (xs ++ (x ∷ [])) % 2 ≡ 1 = omega (arith, length-snoc xs x) in
      rw (odd, append_last-snoc, e)

  value_start :
      (at x : Bytes) (p : Parser) (n : ℕ) (t : Trace lib) (m : Message) (xs : List Bytes)
      → lib.errno p ≡ 0
      → length xs % 2 ≡ 0
      → run lib (call (header_value at) p n t) (with_slots m (xs ++ (x ∷ [])))
        ≡ run lib t (with_slots m (xs ++ (x ∷ at ∷ [])))
  unfolding run dispatch on_header_value
  value_start at x p n t m xs e even =
      let odd : length (xs ++ (x ∷ [])) % 2 ≡ 1 = omega (arith, length-snoc xs x) in
      rw (odd, e, append_assoc)

  value_next :
      (at x v : Bytes) (p : Parser) (n : ℕ) (t : Trace lib) (m : Message) (xs : List Bytes)
      → lib.errno p ≡ 0
      → length xs % 2 ≡ 0
      → run lib (call (header_value at) p n t) (with_slots m (xs ++ (x ∷ v ∷ [])))
        ≡ run lib t (with_slots m (xs ++ (x ∷ (v ++ at) ∷ [])))
  unfolding run dispatch on_header_value
  value_next at x v p n t m xs e even =
      let even' : length (xs ++ (x ∷ v ∷ [])) % 2 ≡ 0 =
        omega (arith, length-append xs (x ∷ v ∷ [])) in
      rw (even', ← append_assoc xs (x ∷ []) (v ∷ []), append_last-snoc, e, append_assoc)

  run-fields :
      {t u : Trace lib} {s : Bytes} (x : Bytes) (m : Message) (xs : List Bytes)
      → Pieces header_field t s u
      → length xs % 2 ≡ 0
      → run lib t (with_slots m (xs ++ (x ∷ []))) ≡ run lib u (with_slots m (xs ++ ((x ++ s) ∷ [])))
  run-fields x m xs (last at p n {t} e) even = field_next at x p n t m xs e even
  run-fields x m xs (more at s p n {t} {u} e ps r) even =
      field_next at x p n t m xs e even
      ∙ run-fields (x ++ at) m xs ps even
      ∙ rw (r, append_assoc x at s)

  run-values :
      {t u : Trace lib} {s : Bytes} (x v : Bytes) (m : Message) (xs : List Bytes)
      → Pieces header_value t s u
      → length xs % 2 ≡ 0
      → run lib t (with_slots m (xs ++ (x ∷ v ∷ [])))
        ≡ run lib u (with_slots m (xs ++ (x ∷ (v ++ s) ∷ [])))
  run-values x v m xs (last at p n {t} e) even = value_next at x v p n t m xs e even
  run-values x v m xs (more at s p n {t} {u} e ps r) even =
      value_next at x v p n t m xs e even
      ∙ run-values x (v ++ at) m xs ps even
      ∙ rw (r, append_assoc v at s)

  run-field :
      {t u : Trace lib} {s : Bytes} (m : Message) (xs : List Bytes)
      → Pieces header_field t s u
      → length xs % 2 ≡ 0
      → run lib t (with_slots m xs) ≡ run lib u (with_slots m (xs ++ (s ∷ [])))
  run-field m xs (last at p n {t} e) even = field_start at p n t m xs e even
  run-field m xs (more at s p n {t} {u} e ps r) even =
      field_start at p n t m xs e even ∙ run-fields at m xs ps even ∙ rw r

  run-value :
      {t u : Trace lib} {s : Bytes} (x : Bytes) (m : Message) (xs : List Bytes)
      → Pieces header_value t s u
      → length xs % 2 ≡ 0
      → run lib t (with_slots m (xs ++ (x ∷ []))) ≡ run lib u (with_slots m (xs ++ (x ∷ s ∷ [])))
  run-value x m xs (last at p n {t} e) even = value_start at x p n t m xs e even
  run-value x m xs (more at s p n {t} {u} e ps r) even =
      value_start at x p n t m xs e even ∙ run-values x at m xs ps even ∙ rw r

  abbrev Others : Message → Trace lib → Trace lib → List Bytes → Type 0
  Others m t u xs =
      (m' : Message) × (run lib t m ≡ run lib u m') × (m'.slots ≡ xs) × (m'.headers ≡ m.headers)

  -- A callback of another kind leaves the slots and the headers.
  run-other :
      (e : Event) (p : Parser) (n : ℕ) (t : Trace lib) (m : Message)
      → lib.errno p ≡ 0
      → is_header_part e ≡ false
      → Others m (call e p n t) t m.slots
  unfolding run dispatch on_message_begin on_url on_status on_headers_complete on_body
  run-other message_begin p n t m e h = (on_message_begin m, rw e, refl, refl)
  run-other (url at) p n t m e h = (on_url at m, rw e, refl, refl)
  run-other (status at) p n t m e h = (on_status at m, rw e, refl, refl)
  run-other (header_field at) p n t m e h = cc
  run-other (header_value at) p n t m e h = cc
  run-other headers_complete p n t m e h =
      (on_headers_complete lib p m, rw e, ground arith, ground arith)
  run-other (body at) p n t m e h = (on_body at m, rw e, refl, refl)
  run-other message_complete p n t m e h = cc

  run-HeaderCalls :
      {t u : Trace lib} {d : Dict} (m : Message)
      → HeaderCalls t d u
      → length m.slots % 2 ≡ 0
      → Others m t u (m.slots ++ flat d)
  run-HeaderCalls m done even = (m, refl, sym (append-nil m.slots), refl)
  run-HeaderCalls m (header f v {d} {t} {u} {w} {x} fs vs rest) even =
      let m₂ : Message = with_slots m (m.slots ++ (f ∷ v ∷ [])) in
      let (m', r, s, h) =
        run-HeaderCalls m₂ rest (omega (arith, length-append m.slots (f ∷ v ∷ []))) in
      (
        m',
        run-field m m.slots fs even ∙ run-value f m m.slots vs even ∙ r,
        s ∙ append_assoc m.slots (f ∷ v ∷ []) (flat d),
        h,
      )
  run-HeaderCalls m (other e p n {d} {t} ok_p kind rest) even =
      let (m₁, r₁, s₁, h₁) = run-other e p n t m ok_p kind in
      let (m', r, s, h) = run-HeaderCalls m₁ rest (omega (arith, ap length s₁)) in
      (m', r₁ ∙ r, s ∙ ap (λ l. l ++ flat d) s₁, h ∙ h₁)

  run_complete :
      (p : Parser) (n : ℕ) (t : Trace lib) (m : Message)
      → lib.errno p ≡ 0
      → length m.slots % 2 ≡ 0
      → run lib (call message_complete p n t) m ≡ ok (completed lib p m, lib.pause p true, n)
  unfolding run dispatch on_message_complete
  run_complete p n t m e even = ground (arith, lib.errno-pause p e, lib.paused_ne_ok)

  -- Whatever pieces http_parser cuts the header fields and values of a message into, and whatever
  -- other callbacks it makes in between, the run ends at the message's end and pauses the parser;
  -- the table is complete, its array part is empty again, and under every name `headers` has the
  -- value of the last header of that name, or what was there before; where the array part is empty
  -- at first, and http_parser has no error when it ends the message.
  pub headers_chunked :
      {t : Trace lib} {d : Dict} (p : Parser) (n : ℕ) (rest : Trace lib) (m : Message)
      → HeaderCalls t d (call message_complete p n rest)
      → m.slots ≡ []
      → lib.errno p ≡ 0
      → (m' : Message) × (h : Dict) × (run lib t m ≡ ok (m', lib.pause p true, n))
        × (m'.complete ≡ some true)
        × (m'.slots ≡ [])
        × (m'.headers ≡ some h)
        × ((k : Bytes) → lookup k h ≡ last_value k d (lookup k (headers_table m.headers)))
  unfolding completed
  headers_chunked {d} p n rest m calls empty e =
      let (m₁, r, s, h) = run-HeaderCalls m calls (omega (arith, ap length empty)) in
      let s' : m₁.slots ≡ flat d = s ∙ ap (λ l. l ++ flat d) empty in
      let table = headers_table m.headers in
      (
        completed lib p m₁,
        insert_all d table,
        r ∙ run_complete p n rest m₁ e (omega (arith, ap length s', length-flat d)),
        refl,
        rw (s', compose-flat d),
        rw (s', compose-flat d, h),
        λ k. lookup-insert_all k d table,
      )
