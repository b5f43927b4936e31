-- ===== src/Sync/Links.antt =====
-- Tables of waiters, as the event of levent/lock.lua uses them.
use levent.Prelude.{
  ℕ, zero, suc, ◌≡◌, refl, subst, ◌==◌, ==_iff, ==_refl, Bool, true, false, not, ◌&&◌, ◌||◌, Option,
  none, some, List, [], ◌∷◌, ◌++◌, arith,
}
use levent.Sync.Queue.{pick, or_first}
use levent.Sync.LockEvent.{member, without}

-- No waiter twice.
unfoldable pub distinct : List ℕ → Bool
unfolding member
distinct [] = true
distinct (c ∷ cs) = not (member c cs) && distinct cs

pub member-append : (c : ℕ) (xs ys : List ℕ) → member c (xs ++ ys) ≡ (member c xs || member c ys)
unfolding member
member-append c [] ys = refl
member-append c (x ∷ xs) ys = ground (arith, member-append c xs ys)

pub member-without :
    (c d : ℕ) (xs : List ℕ) → (d == c) ≡ false → member c (without d xs) ≡ member c xs
unfolding member without
member-without c d [] apart = refl
member-without c d (x ∷ xs) apart =
    ground (arith, member-without c d xs, ==_iff x c, ==_iff x d, ==_iff d c)

pub without-gone : (c : ℕ) (xs : List ℕ) → member c (without c xs) ≡ false
unfolding member without
without-gone c [] = refl
without-gone c (x ∷ xs) = ground (arith, without-gone c xs)

pub distinct-snoc :
    (c : ℕ) (xs : List ℕ)
    → member c xs ≡ false
    → distinct xs ≡ true
    → distinct (xs ++ (c ∷ [])) ≡ true
unfolding distinct member
distinct-snoc c [] apart h = refl
distinct-snoc c (x ∷ xs) apart h =
    ground (arith, distinct-snoc c xs, member-append x xs (c ∷ []), ==_iff x c, ==_iff c x)

-- What `next` gives was there, the rest is there still, and it is no more in the rest.
pub record Picked (c : ℕ) (rest xs : List ℕ) : Type 0 where
  pub there : member c xs ≡ true
  pub others : (d : ℕ) → member d xs ≡ ((c == d) || member d rest)
  pub apart : distinct xs ≡ true → (distinct rest ≡ true) × (member c rest ≡ false)

first-Picked : (x : ℕ) (xs : List ℕ) → Picked x xs (x ∷ xs)
unfolding member distinct
first-Picked x xs = record {
  there = ground (arith, ==_refl x);
  others = λ d. refl;
  apart = λ h. ground (arith, h);
}

later-Picked : (x c : ℕ) (rest xs : List ℕ) → Picked c rest xs → Picked c (x ∷ rest) (x ∷ xs)
unfolding member distinct
later-Picked x c rest xs p = record {
  there = ground (arith, p.there);
  others = λ d. ground (arith, p.others d);
  apart = λ h. ground (arith, h, p.apart, p.others x, p.there, ==_iff x c, ==_iff c x);
}

same-Picked :
    (c d : ℕ) (rest more xs : List ℕ)
    → ◌≡◌ {A = Option (ℕ × List ℕ)} (some (c, rest)) (some (d, more))
    → Picked c rest xs
    → Picked d more xs
same-Picked c d rest more xs e p =
    let heads : c ≡ d = cc in
    let tails : rest ≡ more = cc in
    subst (λ u. Picked u more xs) heads (subst (λ u. Picked c u xs) tails p)

or_first-Picked :
    (x : ℕ) (xs : List ℕ) (o : Option (ℕ × List ℕ)) (d : ℕ) (more : List ℕ)
    → ((c : ℕ) (rest : List ℕ) → o ≡ some (c, rest) → Picked c rest xs)
    → or_first x xs o ≡ some (d, more)
    → Picked d more (x ∷ xs)
unfolding or_first
or_first-Picked x xs none d more ih h = same-Picked x d xs more (x ∷ xs) h (first-Picked x xs)
or_first-Picked x xs (some (c, rest)) d more ih h =
    same-Picked c d (x ∷ rest) more (x ∷ xs) h (later-Picked x c rest xs (ih c rest refl))

pub pick-Picked :
    (k : ℕ) (xs : List ℕ) (c : ℕ) (rest : List ℕ) → pick k xs ≡ some (c, rest) → Picked c rest xs
unfolding pick
pick-Picked k [] c rest h = cc
pick-Picked zero (x ∷ xs) c rest h = same-Picked x c xs rest (x ∷ xs) h (first-Picked x xs)
pick-Picked (suc k) (x ∷ xs) c rest h =
    or_first-Picked x xs (pick k xs) c rest (λ d more. pick-Picked k xs d more) h

pub pick-none_left : (k : ℕ) (xs : List ℕ) → pick k xs ≡ none → xs ≡ []
unfolding pick or_first
pick-none_left k [] h = refl
pick-none_left zero (x ∷ xs) h = cc
pick-none_left (suc k) (x ∷ xs) h = absurd (some_or_first (pick k xs) h)
  where
    some_or_first : (o : Option (ℕ × List ℕ)) → or_first x xs o ≡ none → ⊥
    some_or_first none e = cc
    some_or_first (some (c, rest)) e = cc

pub without-member : (d c : ℕ) (xs : List ℕ) → member d (without c xs) ≡ true → member d xs ≡ true
unfolding member without
without-member d c [] h = h
without-member d c (x ∷ xs) h = ground (arith, without-member d c xs, h)
