-- ===== src/Common/Lists.antt =====
-- Lists measured by native numbers, and the loops over a list that the source writes: the first
-- element that passes a test, the update of that element in place, and a filter.
use Prim.Native.Nat.{ℕ, zero, suc, ◌+◌, ◌-◌, ◌<◌, min}
use mathlib.Core.Logic.{inl, inr}
use mathlib.Core.Path.{◌≡◌, refl, subst, sym, ap}
use mathlib.Core.Bool.{Bool, true, false, ◌&&◌, ◌||◌}
use mathlib.Core.Option.{Option, none, some, some-injective}
use mathlib.Core.List.{List, [], ◌∷◌, ◌++◌, map}
use native.Mathlib.Omega.{arith}
use aso_bell.Common.Tests.{if◌then◌else◌, Bool-cases}

-- A predicate on every element.
abbrev pub All {ℓ κ} : {A : Type ℓ} → (A → Type κ) → List A → Type κ
All Holds [] = Unit
All Holds (first ∷ rest) = Holds first × All Holds rest

module _ {ℓ} {A : Type ℓ} where
  abbrev pub length : List A → ℕ
  length [] = 0
  length (x ∷ xs) = suc (length xs)

  abbrev pub is_empty : List A → Bool
  is_empty [] = true
  is_empty (x ∷ xs) = false

  -- slices.Contains, by a test.
  abbrev pub any : (A → Bool) → List A → Bool
  any p [] = false
  any p (x ∷ xs) = p x || any p xs

  abbrev pub find : (A → Bool) → List A → Option A
  find p [] = none
  find p (x ∷ xs) = if p x then some x else find p xs

  -- `for … { if p(x) { f(x); return } }` through pointers.
  abbrev pub update : (A → Bool) → (A → A) → List A → List A
  update p f [] = []
  update p f (x ∷ xs) = if p x then f x ∷ xs else x ∷ update p f xs

  -- `if !p(x) { continue }; out = append(out, x)`
  abbrev pub keep : (A → Bool) → List A → List A
  keep p [] = []
  keep p (x ∷ xs) = if p x then x ∷ keep p xs else keep p xs

  abbrev pub count : (A → Bool) → List A → ℕ
  count p [] = 0
  count p (x ∷ xs) = if p x then suc (count p xs) else count p xs

  abbrev pub take : ℕ → List A → List A
  take zero xs = []
  take (suc n) [] = []
  take (suc n) (x ∷ xs) = x ∷ take n xs

  abbrev pub drop : ℕ → List A → List A
  drop zero xs = xs
  drop (suc n) [] = []
  drop (suc n) (x ∷ xs) = drop n xs

  abbrev pub get_elem? : List A → ℕ → Option A
  get_elem? [] i = none
  get_elem? (x ∷ xs) zero = some x
  get_elem? (x ∷ xs) (suc i) = get_elem? xs i

  abbrev pub replicate : ℕ → A → List A
  replicate zero a = []
  replicate (suc n) a = a ∷ replicate n a

module _ {ℓ} {A : Type ℓ} where
  pub length-append : (xs ys : List A) → length (xs ++ ys) ≡ length xs + length ys
  length-append [] ys = omega arith
  length-append (x ∷ xs) ys = omega (arith, length-append xs ys)

  pub length-take : (n : ℕ) (xs : List A) → length (take n xs) ≡ min n (length xs)
  length-take zero xs = omega arith
  length-take (suc n) [] = omega arith
  length-take (suc n) (x ∷ xs) = omega (arith, length-take n xs)

  pub find-holds : (p : A → Bool) (xs : List A) (a : A) → find p xs ≡ some a → p a ≡ true
  find-holds p [] a h = ground arith
  find-holds p (x ∷ xs) a h = ground (arith, find-holds p xs a)

  pub All-append {κ} : (P : A → Type κ) (xs ys : List A) → All P xs → (All P ys → All P (xs ++ ys))
  All-append P [] ys front back = back
  All-append P (x ∷ xs) ys (first, rest) back = (first, All-append P xs ys rest back)

  All_of_some {κ} : (P : A → Type κ) (x a : A) → P x → some x ≡ some a → P a
  All_of_some P x a h e = subst P (some-injective x a e) h

  pub All-find {κ} :
      (P : A → Type κ) (p : A → Bool) (xs : List A) (a : A) → All P xs → find p xs ≡ some a → P a
  All-find P p [] a h e = absurd (cc)
  All-find P p (x ∷ xs) a h e = elim (Bool-cases (p x)) [
    | inl t ↦ All_of_some P x a h.0 (rw t at e)
    | inr f ↦ All-find P p xs a h.1 (rw f at e)
  ]

  pub All-update {κ} :
      (P : A → Type κ) (p : A → Bool) (f : A → A) (xs : List A)
      → ((x : A) → P x → p x ≡ true → P (f x))
      → All P xs
      → All P (update p f xs)
  All-update P p f [] step h = h
  All-update P p f (x ∷ xs) step h = elim (Bool-cases (p x)) [
    | inl t ↦ rw t (step x h.0 t, h.1)
    | inr e ↦ rw e (h.0, All-update P p f xs step h.1)
  ]

  -- The element that `update` writes is the one that `find` returns.
  pub All-update_found {κ} :
      (P : A → Type κ) (p : A → Bool) (f : A → A) (xs : List A) (a : A)
      → find p xs ≡ some a
      → P (f a)
      → All P xs
      → All P (update p f xs)
  All-update_found P p f [] a e k h = h
  All-update_found P p f (x ∷ xs) a e k h = elim (Bool-cases (p x)) [
    | inl t ↦ rw t (subst (λ b. P (f b)) (some-injective a x (sym (rw t at e))) k, h.1)
    | inr n ↦ rw n (h.0, All-update_found P p f xs a (rw n at e) k h.1)
  ]

  pub All-map {κ} :
      (P : A → Type κ) (f : A → A) (xs : List A)
      → ((x : A) → P x → P (f x))
      → All P xs
      → All P (map f xs)
  All-map P f [] step h = h
  All-map P f (x ∷ xs) step h = (step x h.0, All-map P f xs step h.1)

  pub All-keep {κ} : (P : A → Type κ) (p : A → Bool) (xs : List A) → All P xs → All P (keep p xs)
  All-keep P p [] h = h
  All-keep P p (x ∷ xs) h = elim (Bool-cases (p x)) [
    | inl t ↦ rw t (h.0, All-keep P p xs h.1)
    | inr e ↦ rw e (All-keep P p xs h.1)
  ]

  pub All-mono {κ ι} :
      (P : A → Type κ) (Q : A → Type ι) (xs : List A) → ((x : A) → P x → Q x) → All P xs → All Q xs
  All-mono P Q [] f h = tt
  All-mono P Q (x ∷ xs) f h = (f x h.0, All-mono P Q xs f h.1)

abbrev pub one_if : Bool → ℕ
one_if true = 1
one_if false = 0

module _ {ℓ} {A : Type ℓ} where
  pub count-append :
      (q : A → Bool) (xs : List A) (x : A) → count q (xs ++ x ∷ []) ≡ count q xs + one_if (q x)
  count-append q [] x = ground arith
  count-append q (y ∷ xs) x = ground (arith, count-append q xs x)

  -- The update of one element moves a count by that element alone.
  pub count-update :
      (p q : A → Bool) (f : A → A) (xs : List A) (a : A)
      → find p xs ≡ some a
      → count q (update p f xs) + one_if (q a) ≡ count q xs + one_if (q (f a))
  count-update p q f [] a e = absurd (cc)
  count-update p q f (x ∷ xs) a e = elim (Bool-cases (p x)) [
    | inl t ↦
        let same : x ≡ a = some-injective x a (rw t at e) in
        subst
          (λ b. count q (update p f (x ∷ xs)) + one_if (q b) ≡ count q (x ∷ xs) + one_if (q (f b)))
          same (rw t (count_head q x (f x) xs))
    | inr n ↦ rw n (count_tail q x (update p f xs) xs _ _ (count-update p q f xs a (rw n at e)))
  ]
    where
      count_head :
          (q : A → Bool) (x y : A) (xs : List A)
          → count q (y ∷ xs) + one_if (q x) ≡ count q (x ∷ xs) + one_if (q y)
      count_head q x y xs = ground arith

      count_tail :
          (q : A → Bool) (x : A) (ys xs : List A) (m n : ℕ)
          → count q ys + m ≡ count q xs + n
          → count q (x ∷ ys) + m ≡ count q (x ∷ xs) + n
      count_tail q x ys xs m n h = ground arith

module _ {ℓ} {A : Type ℓ} where
  pub find-append_new :
      (p : A → Bool) (xs : List A) (x : A)
      → find p xs ≡ none
      → p x ≡ true
      → find p (xs ++ x ∷ []) ≡ some x
  find-append_new p [] x n t = rw t refl
  find-append_new p (y ∷ xs) x n t = ground (arith, find-append_new p xs x)

  pub find-update_self :
      (p : A → Bool) (f : A → A) (xs : List A) (a : A)
      → find p xs ≡ some a
      → p (f a) ≡ true
      → find p (update p f xs) ≡ some (f a)
  find-update_self p f [] a e t = absurd (cc)
  find-update_self p f (x ∷ xs) a e t = ground (arith, find-update_self p f xs a)

  -- An update elsewhere is not seen.
  pub find-update_other :
      (p q : A → Bool) (f : A → A) (xs : List A)
      → ((x : A) → q x ≡ true → p x ≡ false)
      → ((x : A) → q x ≡ true → p (f x) ≡ false)
      → find p (update q f xs) ≡ find p xs
  find-update_other p q f [] before after = refl
  find-update_other p q f (x ∷ xs) before after = elim (Bool-cases (q x)) [
    | inl t ↦ rw (t, before x t, after x t) refl
    | inr n ↦ rw n (ground (arith, find-update_other p q f xs before after))
  ]

module _ {ℓ} {A : Type ℓ} where
  pub append-take-drop : (n : ℕ) (xs : List A) → take n xs ++ drop n xs ≡ xs
  append-take-drop zero xs = refl
  append-take-drop (suc n) [] = refl
  append-take-drop (suc n) (x ∷ xs) = ap (λ ys. x ∷ ys) (append-take-drop n xs)

  pub length-drop : (n : ℕ) (xs : List A) → length (drop n xs) ≡ length xs - n
  length-drop zero xs = omega arith
  length-drop (suc n) [] = omega arith
  length-drop (suc n) (x ∷ xs) = omega (arith, length-drop n xs)

  pub get_elem?-some : (i : ℕ) (xs : List A) → i < length xs → (a : A) × (get_elem? xs i ≡ some a)
  get_elem?-some i [] h = absurd (omega arith)
  get_elem?-some zero (x ∷ xs) h = (x, refl)
  get_elem?-some (suc i) (x ∷ xs) h = get_elem?-some i xs (omega arith)

  pub All-get_elem? {κ} :
      (P : A → Type κ) (i : ℕ) (xs : List A) (a : A) → All P xs → get_elem? xs i ≡ some a → P a
  All-get_elem? P i [] a h e = absurd (cc)
  All-get_elem? P zero (x ∷ xs) a h e = subst P (some-injective x a e) h.0
  All-get_elem? P (suc i) (x ∷ xs) a h e = All-get_elem? P i xs a h.1 e

  pub All-keep_holds : (p : A → Bool) (xs : List A) → All (λ x. p x ≡ true) (keep p xs)
  All-keep_holds p [] = tt
  All-keep_holds p (x ∷ xs) = elim (Bool-cases (p x)) [
    | inl t ↦ rw t (t, All-keep_holds p xs)
    | inr f ↦ rw f (All-keep_holds p xs)
  ]

  pub keep-All : (p : A → Bool) (xs : List A) → All (λ x. p x ≡ true) xs → keep p xs ≡ xs
  keep-All p [] h = refl
  keep-All p (x ∷ xs) h = rw h.0 (ap (λ ys. x ∷ ys) (keep-All p xs h.1))

  -- Two filters one behind the other are the filter of both tests.
  pub keep-keep :
      (r q p : A → Bool) (xs : List A)
      → ((x : A) → r x ≡ (q x && p x))
      → keep r xs ≡ keep q (keep p xs)
  keep-keep r q p [] h = refl
  keep-keep r q p (x ∷ xs) h = let e = h x in let more = keep-keep r q p xs h in ground arith
