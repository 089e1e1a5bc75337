-- ===== src/Prelude/Lists.antt =====
-- Lists measured and indexed by native numbers, under the library's names.
use Prim.Native.Nat.{ℕ, zero, suc, ◌+◌, ◌-◌, ◌≤◌, ◌<◌, min}
use mathlib.Core.Path.{◌≡◌, refl, sym, ap, ◌∙◌}
use mathlib.Core.Logic.{◌≢◌, ◌⊎◌, inl, inr}
use mathlib.Core.List.{List, [], ◌∷◌, ◌++◌, map, append-nil, append_assoc}
use mathlib.Core.Option.{Option, none, some}
use native.Mathlib.Omega.{arith}

module _ {ℓ} {A : Type ℓ} where
  abbrev pub length : List A → ℕ
  length [] = 0
  length (x ∷ xs) = suc (length xs)

  abbrev pub get_elem? : List A → ℕ → Option A
  get_elem? [] i = none
  get_elem? (x ∷ xs) zero = some x
  get_elem? (x ∷ xs) (suc i) = get_elem? xs i

  -- A write out of bounds changes nothing.
  abbrev pub set : List A → ℕ → A → List A
  set [] i v = []
  set (x ∷ xs) zero v = v ∷ xs
  set (x ∷ xs) (suc i) v = x ∷ set xs i v

  pub length-append : (xs ys : List A) → length (xs ++ ys) ≡ length xs + length ys
  length-append [] ys = omega arith
  length-append (x ∷ xs) ys = omega (arith, length-append xs ys)

module _ {ℓ} {A : Type ℓ} where
  pub length-set : (xs : List A) (i : ℕ) (v : A) → length (set xs i v) ≡ length xs
  length-set [] i v = refl
  length-set (x ∷ xs) zero v = refl
  length-set (x ∷ xs) (suc i) v = ap suc (length-set xs i v)

  pub get_elem?-set_self :
      (xs : List A) (i : ℕ) (v : A) → i < length xs → get_elem? (set xs i v) i ≡ some v
  get_elem?-set_self [] i v h = elim h [ ]
  get_elem?-set_self (x ∷ xs) zero v h = refl
  get_elem?-set_self (x ∷ xs) (suc i) v h = get_elem?-set_self xs i v (omega arith)

  pub get_elem?-set_ne :
      (xs : List A) {i j : ℕ} (v : A) → i ≢ j → get_elem? (set xs i v) j ≡ get_elem? xs j
  get_elem?-set_ne [] v h = refl
  get_elem?-set_ne (x ∷ xs) {i = zero} {j = zero} v h = absurd (h refl)
  get_elem?-set_ne (x ∷ xs) {i = zero} {j = suc j} v h = refl
  get_elem?-set_ne (x ∷ xs) {i = suc i} {j = zero} v h = refl
  get_elem?-set_ne (x ∷ xs) {i = suc i} {j = suc j} v h = get_elem?-set_ne xs v (λ e. h (ap suc e))

module _ {ℓ} {A : Type ℓ} where
  abbrev pub get_or : List A → ℕ → A → A
  get_or [] i d = d
  get_or (x ∷ xs) zero d = x
  get_or (x ∷ xs) (suc i) d = get_or xs i d

  abbrev pub take : ℕ → List A → List A
  take zero xs = []
  take (suc n) [] = []
  take (suc n) (x ∷ xs) = x ∷ take n xs

  abbrev pub drop : ℕ → List A → List A
  drop zero xs = xs
  drop (suc n) [] = []
  drop (suc n) (x ∷ xs) = drop n xs

  abbrev pub replicate : ℕ → A → List A
  replicate zero a = []
  replicate (suc n) a = a ∷ replicate n a

  pub take-append-drop : (n : ℕ) (xs : List A) → take n xs ++ drop n xs ≡ xs
  take-append-drop zero xs = refl
  take-append-drop (suc n) [] = refl
  take-append-drop (suc n) (x ∷ xs) = rw (take-append-drop n xs)

  pub length-take : (n : ℕ) (xs : List A) → length (take n xs) ≡ min n (length xs)
  length-take zero xs = omega arith
  length-take (suc n) [] = omega arith
  length-take (suc n) (x ∷ xs) = omega (arith, length-take n xs)

  pub length-drop : (n : ℕ) (xs : List A) → length (drop n xs) ≡ length xs - n
  length-drop zero xs = omega arith
  length-drop (suc n) [] = omega arith
  length-drop (suc n) (x ∷ xs) = omega (arith, length-drop n xs)

  pub length-replicate : (n : ℕ) (a : A) → length (replicate n a) ≡ n
  length-replicate zero a = refl
  length-replicate (suc n) a = ap suc (length-replicate n a)

  pub length-map {κ} : {B : Type κ} (xs : List A) (f : A → B) → length (map f xs) ≡ length xs
  length-map [] f = refl
  length-map (x ∷ xs) f = ap suc (length-map xs f)

module _ {ℓ} {A : Type ℓ} where
  abbrev pub All {κ} : (A → Type κ) → List A → Type κ
  All P [] = Unit {κ}
  All P (x ∷ xs) = P x × All P xs

  -- A write behind a prefix.
  pub set-append :
      (pre : List A) (x : A) (post : List A) (i : ℕ) (v : A)
      → i ≡ length pre
      → set (pre ++ (x ∷ post)) i v ≡ pre ++ (v ∷ post)
  set-append [] x post zero v h = refl
  set-append [] x post (suc i) v h = absurd (omega arith)
  set-append (y ∷ pre) x post zero v h = absurd (omega arith)
  set-append (y ∷ pre) x post (suc i) v h = ap (◌∷◌ y) (set-append pre x post i v (omega arith))

  pub get_elem?-append :
      (pre : List A) (x : A) (post : List A) (i : ℕ)
      → i ≡ length pre
      → get_elem? (pre ++ (x ∷ post)) i ≡ some x
  get_elem?-append [] x post zero h = refl
  get_elem?-append [] x post (suc i) h = absurd (omega arith)
  get_elem?-append (y ∷ pre) x post zero h = absurd (omega arith)
  get_elem?-append (y ∷ pre) x post (suc i) h = get_elem?-append pre x post i (omega arith)

  pub drop-append : (pre post : List A) → drop (length pre) (pre ++ post) ≡ post
  drop-append [] post = refl
  drop-append (x ∷ pre) post = drop-append pre post

  pub take-append : (xs post : List A) → take (length xs) (xs ++ post) ≡ xs
  take-append [] post = refl
  take-append (x ∷ xs) post = ap (◌∷◌ x) (take-append xs post)

  pub replicate-suc : (n : ℕ) (a : A) → replicate (suc n) a ≡ replicate n a ++ (a ∷ [])
  replicate-suc zero a = refl
  replicate-suc (suc n) a = ap (◌∷◌ a) (replicate-suc n a)

  pub replicate_shift :
      (n : ℕ) (a : A) (xs : List A) → replicate n a ++ (a ∷ xs) ≡ a ∷ (replicate n a ++ xs)
  replicate_shift zero a xs = refl
  replicate_shift (suc n) a xs = ap (◌∷◌ a) (replicate_shift n a xs)

  pub get_elem?_inside : (xs : List A) (i : ℕ) → i < length xs → (x : A) × (get_elem? xs i ≡ some x)
  get_elem?_inside [] i h = absurd (omega arith)
  get_elem?_inside (x ∷ xs) zero h = (x, refl)
  get_elem?_inside (x ∷ xs) (suc i) h = get_elem?_inside xs i (omega arith)

  pub length-append_three :
      (xs ys zs : List A) → length (xs ++ (ys ++ zs)) ≡ length xs + length ys + length zs
  length-append_three xs ys zs = omega (arith, length-append xs (ys ++ zs), length-append ys zs)

  pub take_all : (n : ℕ) (xs : List A) → length xs ≤ n → take n xs ≡ xs
  take_all zero [] h = refl
  take_all zero (x ∷ xs) h = absurd (omega arith)
  take_all (suc n) [] h = refl
  take_all (suc n) (x ∷ xs) h = ap (◌∷◌ x) (take_all n xs (omega arith))

  -- An index inside the first list does not see the second.
  pub get_elem?-append_left :
      (xs ys : List A) (i : ℕ) {x : A} → get_elem? xs i ≡ some x → get_elem? (xs ++ ys) i ≡ some x
  get_elem?-append_left [] ys i h = absurd (cc h)
  get_elem?-append_left (y ∷ xs) ys zero h = h
  get_elem?-append_left (y ∷ xs) ys (suc i) h = get_elem?-append_left xs ys i h

  pub get_elem?-lt : (xs : List A) (i : ℕ) {x : A} → get_elem? xs i ≡ some x → i < length xs
  get_elem?-lt [] i h = absurd (cc h)
  get_elem?-lt (y ∷ xs) zero h = omega arith
  get_elem?-lt (y ∷ xs) (suc i) h = omega (arith, get_elem?-lt xs i h)

  -- The last of a list, or an index before it.
  pub get_elem?-snoc :
      (xs : List A) (y : A) (i : ℕ) {x : A}
      → get_elem? (xs ++ (y ∷ [])) i ≡ some x
      → ((i ≡ length xs) × (x ≡ y)) ⊎ (get_elem? xs i ≡ some x)
  get_elem?-snoc [] y zero h = inl (refl, cc h)
  get_elem?-snoc [] y (suc i) h = absurd (cc h)
  get_elem?-snoc (z ∷ xs) y zero h = inr h
  get_elem?-snoc (z ∷ xs) y (suc i) h = elim (get_elem?-snoc xs y i h) [
    | inl (e, f) ↦ inl (ap suc e, f)
    | inr e ↦ inr e
  ]

abbrev pub foldl {ℓ κ} : {A : Type ℓ} {S : Type κ} → (S → A → S) → S → List A → S
foldl f s [] = s
foldl f s (x ∷ xs) = foldl f (f s x) xs

-- The pieces of the elements, one behind the other.
abbrev pub concat_map {ℓ κ} : {A : Type ℓ} {B : Type κ} → (A → List B) → List A → List B
concat_map f [] = []
concat_map f (x ∷ xs) = f x ++ concat_map f xs

-- A piece for each element, appended to a buffer.
abbrev pub append_each {ℓ κ} : {A : Type ℓ} {B : Type κ} → (A → List B) → List B → List A → List B
append_each f buffer [] = buffer
append_each f buffer (x ∷ xs) = append_each f (buffer ++ f x) xs

module _ {ℓ κ} {A : Type ℓ} {B : Type κ} (f : A → List B) where
  pub append_each-append :
      (buffer : List B) (xs : List A) → append_each f buffer xs ≡ buffer ++ concat_map f xs
  append_each-append buffer [] = sym (append-nil buffer)
  append_each-append buffer (x ∷ xs) =
      append_each-append (buffer ++ f x) xs ∙ append_assoc buffer (f x) (concat_map f xs)

module _ {ℓ κ} {A : Type ℓ} where
  pub All-map {μ} :
      {P : A → Type κ} {Q : A → Type μ} (xs : List A) → ((x : A) → P x → Q x) → All P xs → All Q xs
  All-map [] g a = tt
  All-map (x ∷ xs) g (p, a) = (g x p, All-map xs g a)

  pub All-append : (P : A → Type κ) (xs ys : List A) → All P (xs ++ ys) → All P xs × All P ys
  All-append P [] ys a = (tt, a)
  All-append P (x ∷ xs) ys (p, a) = let (b, c) = All-append P xs ys a in ((p, b), c)

module _ {ℓ} {A : Type ℓ} where
  -- What a read finds behind a write.
  pub get_elem?-set_cases :
      (xs : List A) (i j : ℕ) (v : A) {x : A}
      → get_elem? (set xs i v) j ≡ some x
      → (x ≡ v) ⊎ (get_elem? xs j ≡ some x)
  get_elem?-set_cases [] i j v h = inr h
  get_elem?-set_cases (y ∷ xs) zero zero v h = inl (cc h)
  get_elem?-set_cases (y ∷ xs) zero (suc j) v h = inr h
  get_elem?-set_cases (y ∷ xs) (suc i) zero v h = inr h
  get_elem?-set_cases (y ∷ xs) (suc i) (suc j) v h = get_elem?-set_cases xs i j v h

module _ {ℓ} {A : Type ℓ} where
  pub take_none : (n : ℕ) → take {A = A} n [] ≡ []
  take_none zero = refl
  take_none (suc n) = refl

  pub drop_none : (n : ℕ) → drop {A = A} n [] ≡ []
  drop_none zero = refl
  drop_none (suc n) = refl

  pub take-take_add : (n m : ℕ) (xs : List A) → take n xs ++ take m (drop n xs) ≡ take (n + m) xs
  take-take_add zero m xs = let e : 0 + m ≡ m = omega arith in rw e refl
  take-take_add (suc n) m [] = rw (take_none m, take_none (suc n + m)) refl
  take-take_add (suc n) m (x ∷ xs) =
      let e : suc n + m ≡ suc (n + m) = omega arith in rw e (ap (◌∷◌ x) (take-take_add n m xs))

  pub drop-drop : (n m : ℕ) (xs : List A) → drop m (drop n xs) ≡ drop (n + m) xs
  drop-drop zero m xs = let e : 0 + m ≡ m = omega arith in rw e refl
  drop-drop (suc n) m [] = rw (drop_none m, drop_none (suc n + m)) refl
  drop-drop (suc n) m (x ∷ xs) =
      let e : suc n + m ≡ suc (n + m) = omega arith in rw e (drop-drop n m xs)

  -- As far as the first list reaches, a prefix is one of it.
  pub take-append_left : (n : ℕ) (xs ys : List A) → n ≤ length xs → take n (xs ++ ys) ≡ take n xs
  take-append_left zero xs ys h = refl
  take-append_left (suc n) [] ys h = absurd (omega arith)
  take-append_left (suc n) (x ∷ xs) ys h = ap (◌∷◌ x) (take-append_left n xs ys (omega arith))

  pub drop-append_left :
      (n : ℕ) (xs ys : List A) → n ≤ length xs → drop n (xs ++ ys) ≡ drop n xs ++ ys
  drop-append_left zero xs ys h = refl
  drop-append_left (suc n) [] ys h = absurd (omega arith)
  drop-append_left (suc n) (x ∷ xs) ys h = drop-append_left n xs ys (omega arith)
