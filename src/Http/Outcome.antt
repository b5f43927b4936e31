-- ===== src/Http/Outcome.antt =====
-- What one call of `execute` returns, and that the callbacks raise no Lua error.
use levent.Prelude.{
  ℕ, ◌%◌, ◌≤◌, ◌<◌, ◌≡◌, refl, subst, ◌⊎◌, inl, inr, true, false, some, List, [], ◌∷◌, ◌++◌, arith,
  Bytes, length, drop, length-append, ltb, ltb-false, ◌==◌, ==_refl, if◌then◌else◌, Bool-cases,
}
use levent.Prelude.Result.{ok-injective, >>=-eq-ok, ok}
use levent.Http.Callbacks.{
  Message, Event, ParserLib, message_begin, url, status, header_field, header_value,
  headers_complete, body, message_complete, headers_table, append_last, on_header_field,
  on_header_value, compose, completed, on_message_complete, dispatch, on_message_begin, on_url,
  on_status, on_headers_complete, on_body,
}
use levent.Http.Execute.{Trace, finish, call, run, reply, execute}

compose-slots : (xs : List Bytes) (d : _) → length xs % 2 ≡ 0 → (compose xs d).0 ≡ []
unfolding compose
compose-slots [] d h = refl
compose-slots (x ∷ []) d h = absurd (omega arith)
compose-slots (f ∷ v ∷ xs) d h = compose-slots xs _ (omega arith)

module _ (lib : ParserLib) where
  open lib use {Parser}

  -- Where the library's own run ends: the parser and the number of bytes parsed.
  abbrev pub EndsAt : Trace lib → Parser → ℕ → Type 0
  EndsAt (finish q k) p n = (q ≡ p) × (k ≡ n)
  EndsAt (call e q k rest) p n = EndsAt rest p n

  -- http_parser makes callbacks only while its error number is HPE_OK, and ends with an error of its
  -- own, not paused.
  abbrev pub IsRunning : Trace lib → Type 0
  IsRunning (finish p n) = ¬ (lib.errno p ≡ lib.paused)
  IsRunning (call e p n rest) = (lib.errno p ≡ 0) × IsRunning rest

  -- Headers start with a field: no value comes before the first field.
  abbrev pub StartsWithField : Trace lib → Type 0
  StartsWithField (finish p n) = Unit
  StartsWithField (call (header_value at) p n rest) = ⊥
  StartsWithField (call (header_field at) p n rest) = Unit
  StartsWithField (call message_complete p n rest) = Unit
  StartsWithField (call _ p n rest) = StartsWithField rest

  abbrev Outcome : Trace lib → Message × Parser × ℕ → Type 0
  Outcome t (m, p, n) =
      (EndsAt t p n × (¬ (lib.errno p ≡ lib.paused)))
      ⊎ (lib.errno p ≡ lib.paused) × (m.complete ≡ some true) × (m.slots ≡ [])

  dispatch_cases :
      (e : Event) (p p' : Parser) (m m' : Message)
      → dispatch lib e p m ≡ ok (m', p')
      → (p' ≡ p) ⊎ (p' ≡ lib.pause p true) × (m'.complete ≡ some true) × (m'.slots ≡ [])
  unfolding dispatch on_message_complete completed
  dispatch_cases message_begin p p' m m' h = ground arith
  dispatch_cases (url at) p p' m m' h = ground arith
  dispatch_cases (status at) p p' m m' h = ground arith
  dispatch_cases (header_field at) p p' m m' h = ground arith
  dispatch_cases (header_value at) p p' m m' h = ground arith
  dispatch_cases headers_complete p p' m m' h = ground arith
  dispatch_cases (body at) p p' m m' h = ground arith
  dispatch_cases message_complete p p' m m' h = elim (Bool-cases (length m.slots % 2 == 0)) [
    | inl even ↦ ground (arith, compose-slots m.slots (headers_table m.headers))
    | inr odd ↦ ground arith
  ]

  -- One round, from what its callback did and from what the rest of the run does.
  run_step-Outcome :
      (e : Event) (p p₁ p' : Parser) (n n' : ℕ) (rest : Trace lib) (m₁ m' : Message)
      → lib.errno p ≡ 0
      → (p₁ ≡ p) ⊎ (p₁ ≡ lib.pause p true) × (m₁.complete ≡ some true) × (m₁.slots ≡ [])
      → (if lib.errno p₁ == 0 then run lib rest m₁ else ok (m₁, p₁, n)) ≡ ok (m', p', n')
      → (run lib rest m₁ ≡ ok (m', p', n') → Outcome rest (m', p', n'))
      → Outcome (call e p n rest) (m', p', n')
  run_step-Outcome e p p₁ p' n n' rest m₁ m' live (inl same) h ih = ih (rw (same, live) at h)
  run_step-Outcome e p p₁ p' n n' rest m₁ m' live (inr (stop, done, empty)) h ih =
      inr (ground (arith, lib.errno-pause p live, lib.paused_ne_ok))

  run-Outcome :
      (t : Trace lib) (m m' : Message) (p' : Parser) (n' : ℕ)
      → IsRunning t
      → run lib t m ≡ ok (m', p', n')
      → Outcome t (m', p', n')
  unfolding run
  run-Outcome (finish p n) m m' p' n' live h =
      let same : p ≡ p' = cc in
      inl ((same, cc), subst (λ q. ¬ (lib.errno q ≡ lib.paused)) same live)
  run-Outcome (call e p n rest) m m' p' n' (live, later) h =
      let ((m₁, p₁), d, after) = >>=-eq-ok (dispatch lib e p m) _ h in
      run_step-Outcome e p p₁ p' n n' rest m₁ m' live (dispatch_cases e p p₁ m m₁ d) after
        (run-Outcome rest m₁ m' p' n' later)

  abbrev pub Reply : Trace lib → Message × Parser × List ℕ → Type 0
  Reply t (m, p, out) =
      ((q : Parser) × (n : ℕ) × EndsAt t q n
        × (p ≡ q)
        × (out ≡ (if lib.errno q == 0 then n ∷ [] else n ∷ lib.errno q ∷ [])))
      ⊎ ((n : ℕ) × (out ≡ n ∷ []) × (lib.errno p ≡ 0) × (m.complete ≡ some true) × (m.slots ≡ []))

  reply-Reply :
      (t : Trace lib) (m : Message) (p : Parser) (n : ℕ)
      → Outcome t (m, p, n)
      → Reply t (reply lib (m, p, n))
  unfolding reply
  reply-Reply t m p n (inl (ends, live)) =
      let shut : (lib.errno p == lib.paused) ≡ false = ground arith in
      inl (p, n, ends, rw shut, rw shut)
  reply-Reply t m p n (inr (stop, done, empty)) =
      let back = lib.errno-resume p stop in
      inr (n, rw (stop, ==_refl, back), rw (stop, ==_refl, back), done, empty)

  -- A call of `execute` that returns has either carried the library's run to its end, and answers
  -- the bytes parsed, with the error number behind them exactly when that is not HPE_OK; or it has
  -- stopped at the end of a message, and then the table is complete, its array part is empty, and
  -- the parser is resumed, so that no error number is answered; where http_parser makes its
  -- callbacks with no error number set, and does not pause by itself.
  pub execute_outcome :
      (http_parser_execute : Parser → Bytes → Trace lib) (p : Parser) (buf : Bytes) (from : ℕ)
      (m : Message) {r : Message × Parser × List ℕ}
      → IsRunning (http_parser_execute p (drop from buf))
      → execute lib http_parser_execute p buf from m ≡ ok r
      → (from ≤ length buf) × Reply (http_parser_execute p (drop from buf)) r
  unfolding execute
  execute_outcome lib_run p buf from m live h = elim (Bool-cases (ltb (length buf) from)) [
    | inl over ↦ ground arith
    | inr fits ↦
        let t : Trace lib = lib_run p (drop from buf) in
        let ((m₁, p₁, n₁), e, f) = >>=-eq-ok (run lib t m) _ (rw fits at h) in
        let ended : Outcome t (m₁, p₁, n₁) = run-Outcome t m m₁ p₁ n₁ live e in
        (ground arith, subst (Reply t) (ok-injective f) (reply-Reply t m₁ p₁ n₁ ended))
  ]

  append_last-ok :
      (xs : List Bytes) (at : Bytes)
      → 0 < length xs
      → (ys : List Bytes) × (append_last xs at ≡ ok ys) × (0 < length ys)
  unfolding append_last
  append_last-ok [] at h = absurd (omega arith)
  append_last-ok (x ∷ []) at h = ((x ++ at) ∷ [], refl, omega arith)
  append_last-ok (x ∷ y ∷ xs) at h =
      let (ys, e, pos) = append_last-ok (y ∷ xs) at (omega arith) in (x ∷ ys, rw e, omega arith)

  abbrev Returns : Trace lib → Message → Type 0
  Returns t m = (r : Message × Parser × ℕ) × (run lib t m ≡ ok r)

  abbrev CanGoOn : Trace lib → Message → Type 0
  CanGoOn t m = StartsWithField t ⊎ (0 < length m.slots)

  -- After one callback the run may go on, or it is paused.
  abbrev Step : Event → Parser → Trace lib → Message → Type 0
  Step e p rest m =
      (m' : Message) × (p' : Parser) × (dispatch lib e p m ≡ ok (m', p'))
      × ((p' ≡ p) × CanGoOn rest m' ⊎ (lib.errno p' ≡ lib.paused))

  Step-returns :
      (e : Event) (p : Parser) (n : ℕ) (rest : Trace lib) (m : Message)
      → lib.errno p ≡ 0
      → CanGoOn (call e p n rest) m
      → Step e p rest m
  unfolding dispatch on_message_begin on_url on_status on_headers_complete on_body on_header_field
      on_header_value on_message_complete
  Step-returns message_begin p n rest m live h = (on_message_begin m, p, refl, inl (refl, h))
  Step-returns (url at) p n rest m live h = (on_url at m, p, refl, inl (refl, h))
  Step-returns (status at) p n rest m live h = (on_status at m, p, refl, inl (refl, h))
  Step-returns headers_complete p n rest m live h =
      (on_headers_complete lib p m, p, refl, inl (refl, ground arith))
  Step-returns (body at) p n rest m live h = (on_body at m, p, refl, inl (refl, h))
  Step-returns message_complete p n rest m live h = elim (Bool-cases (length m.slots % 2 == 0)) [
    | inl even ↦ (completed lib p m, lib.pause p true, rw even, inr (lib.errno-pause p live))
    | inr odd ↦ (m, p, rw odd, inl (refl, inr (ground arith)))
  ]
  Step-returns (header_field at) p n rest m live h = elim (Bool-cases (length m.slots % 2 == 0)) [
    | inl even ↦ (
      record m { slots = m.slots ++ (at ∷ []) },
      p,
      rw even,
      inl (refl, inr (omega (arith, length-append m.slots (at ∷ [])))),
    )
    | inr odd ↦
        let (ys, e, pos) = append_last-ok m.slots at (ground arith) in
        (record m { slots = ys }, p, rw (odd, e), inl (refl, inr pos))
  ]
  Step-returns (header_value at) p n rest m live (inl first) = absurd first
  Step-returns (header_value at) p n rest m live (inr some_slot) =
      elim (Bool-cases (length m.slots % 2 == 0)) [
        | inl even ↦
            let (ys, e, pos) = append_last-ok m.slots at some_slot in
            (record m { slots = ys }, p, rw (even, e), inl (refl, inr pos))
        | inr odd ↦ (
          record m { slots = m.slots ++ (at ∷ []) },
          p,
          rw odd,
          inl (refl, inr (omega (arith, length-append m.slots (at ∷ [])))),
        )
      ]

  run-Returns : (t : Trace lib) (m : Message) → IsRunning t → CanGoOn t m → Returns t m
  unfolding run
  run-Returns (finish p n) m live h = ((m, p, n), refl)
  run-Returns (call e p n rest) m (live, later) h =
      let (m', p', d, next) = Step-returns e p n rest m live h in
      go m' p' d next (run-Returns rest m' later)
    where
      go :
          (m' : Message) (p' : Parser)
          → dispatch lib e p m ≡ ok (m', p')
          → ((p' ≡ p) × CanGoOn rest m' ⊎ (lib.errno p' ≡ lib.paused))
          → (CanGoOn rest m' → Returns rest m')
          → Returns (call e p n rest) m
      go m' p' d (inl (same, goes)) ih = let (r, f) = ih goes in (r, rw (d, same, live) f)
      go m' p' d (inr stop) ih =
          let shut : (lib.errno p' == 0) ≡ false = ground (arith, lib.paused_ne_ok) in
          ((m', p', n), rw (d, shut))

  -- On a buffer position within bounds `execute` returns: where http_parser reports a message's
  -- first header field before its first header value, and makes its callbacks with no error number
  -- set, and does not pause by itself, they never concatenate nil.
  pub execute_returns :
      (http_parser_execute : Parser → Bytes → Trace lib) (p : Parser) (buf : Bytes) (from : ℕ)
      (m : Message)
      → from ≤ length buf
      → IsRunning (http_parser_execute p (drop from buf))
      → StartsWithField (http_parser_execute p (drop from buf))
      → (r : Message × Parser × List ℕ) × (execute lib http_parser_execute p buf from m ≡ ok r)
  unfolding execute
  execute_returns lib_run p buf from m fits live fields =
      let (r, e) = run-Returns (lib_run p (drop from buf)) m live (inl fields) in
      (reply lib r, rw (ltb-false (length buf) from fits, e))
