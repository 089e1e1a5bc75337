-- ===== src/Serialize/Cursor.antt =====
-- Readers that move a position through a string, as the `deserialize` functions of
-- src/BlockInfo.cpp and src/Workers/NodeTestsBlockInfo.cpp do with `from`.
use node_infrastructure_torr.Prelude.{
  ℕ, ◌+◌, ◌^◌, ◌<◌, ◌≡◌, refl, ap, ◌∙◌, arith, Bytes, [], ◌++◌, append-nil, append_assoc, length,
  length-append, Result, ok, err, fault, Error, Bool, true, not, check, is_empty, ltb, ◌==◌,
  if◌then◌else◌, incorrect_raw, lt→==_false_symm, ◌∷◌, zero, suc, List, lt→ltb, length-append_three,
  All, concat_map, foldl,
}

abbrev pub Cursor {ℓ} : Type ℓ → Type ℓ
Cursor A = Bytes → ℕ → Result (A × ℕ)

abbrev resume {ℓ κ} : {A : Type ℓ} {B : Type κ} → Result (A × ℕ) → (A → ℕ → Result B) → Result B
resume (ok (a, from)) f = f a from
resume (err e) f = err e
resume fault f = fault

infixl 5 ◌>>=◌ ◌>>◌
unfoldable pub ◌>>=◌ {ℓ κ} : {A : Type ℓ} {B : Type κ} → Cursor A → (A → Cursor B) → Cursor B
◌>>=◌ m f raw from = resume (m raw from) (λ a from'. f a raw from')

unfoldable pub pure {ℓ} : {A : Type ℓ} → A → Cursor A
pure a raw from = ok (a, from)

abbrev at_position : Result (Unit {0}) → ℕ → Result (Unit {0} × ℕ)
at_position (ok a) from = ok (a, from)
at_position (err e) from = err e
at_position fault from = fault

-- A `CHECK` between two reads.
unfoldable pub require : Bool → Error → Cursor (Unit {0})
require b e raw from = at_position (check b e) from

abbrev pub ◌>>◌ {ℓ} : {B : Type ℓ} → Cursor (Unit {0}) → Cursor B → Cursor B
m >> k = m >>= λ _. k

-- CHECK(endPos != from, ...) behind a read.
abbrev advanced {ℓ} : {A : Type ℓ} → ℕ → Result (A × ℕ) → Result (A × ℕ)
advanced from r =
    resume r (λ a end_pos. if end_pos == from then err incorrect_raw else ok (a, end_pos))

unfoldable pub moving {ℓ} : {A : Type ℓ} → Cursor A → Cursor A
moving m raw from = advanced from (m raw from)

-- from < raw.size()
unfoldable pub has_more : Cursor Bool
has_more raw from = ok (ltb from (length raw), from)

unfoldable pub throw {ℓ} : {A : Type ℓ} → Error → Cursor A
throw e raw from = err e

-- for (size_t i = 0; i < count; i++), on a state that each round changes.
pub repeat {ℓ} : {S : Type ℓ} → ℕ → (S → Cursor S) → S → Cursor S
repeat zero step s = pure s
repeat (suc count) step s = do s' ← step s; repeat count step s'

-- A read of the whole string, from its start.
unfoldable pub whole {ℓ} : {A : Type ℓ} → Cursor A → Bytes → Result A
whole m raw = resume (m raw 0) (λ a from. ok a)

-- Wherever `enc` stands in a string, `m` reads `a` from it and stops behind it.
pub record Decodes {ℓ} {A : Type ℓ} (m : Cursor A) (enc : Bytes) (a : A) : Type ℓ where
  pub at :
      (pre post : Bytes)
      → length (pre ++ (enc ++ post)) < 2 ^ 64
      → m (pre ++ (enc ++ post)) (length pre) ≡ ok (a, length pre + length enc)

module _ {ℓ} {A : Type ℓ} where
  pub Decodes-pure : (a : A) → Decodes (pure a) [] a
  unfolding pure
  Decodes-pure a = record { at = λ pre post h. ap (λ (n : ℕ). ok (a, n)) (omega arith) }

  pub Decodes-eq :
      {m : Cursor A} {enc enc' : Bytes} {a : A} → enc ≡ enc' → Decodes m enc a → Decodes m enc' a
  Decodes-eq e d = rw (← e) d

pub Decodes-bind {ℓ κ} :
    {A : Type ℓ} {B : Type κ} (m : Cursor A) (f : A → Cursor B) {enc enc' : Bytes} {a : A} {b : B}
    → Decodes m enc a
    → Decodes (f a) enc' b
    → Decodes (m >>= f) (enc ++ enc') b
unfolding ◌>>=◌
Decodes-bind m f {enc} {enc'} {a} {b} d d' = record {
  at = λ pre post h. rw (append_assoc enc enc' post) (
      rw (d.at pre (enc' ++ post) (rw (append_assoc enc enc' post) at h)) (
        rw (← append_assoc pre enc (enc' ++ post), ← length-append pre enc)
          (d'.at (pre ++ enc) post
              (rw (append_assoc enc enc' post, ← append_assoc pre enc (enc' ++ post)) at h)
            ∙ ap (λ (n : ℕ). ok (b, n))
                (omega (arith, length-append pre enc, length-append enc enc')))));
}

pub Decodes-require : (b : Bool) (e : Error) → b ≡ true → Decodes (require b e) [] tt
unfolding require
Decodes-require b e h = record {
  at = λ pre post _. rw h (ap (λ (n : ℕ). ok (tt, n)) (omega arith));
}

pub Decodes-moving {ℓ} :
    {A : Type ℓ} {m : Cursor A} {enc : Bytes} {a : A}
    → Decodes m enc a
    → 0 < length enc
    → Decodes (moving m) enc a
unfolding moving
Decodes-moving {enc} d h = record {
  at = λ pre post k.
      rw (d.at pre post k, lt→==_false_symm (length pre) (length pre + length enc) (omega arith));
}

-- `m` reads `a` from `enc` where `enc` ends the string.
pub record DecodesEnd {ℓ} {A : Type ℓ} (m : Cursor A) (enc : Bytes) (a : A) : Type ℓ where
  pub at :
      (pre : Bytes)
      → length (pre ++ enc) < 2 ^ 64
      → m (pre ++ enc) (length pre) ≡ ok (a, length pre + length enc)

pub DecodesEnd-of_Decodes {ℓ} :
    {A : Type ℓ} {m : Cursor A} {enc : Bytes} {a : A} → Decodes m enc a → DecodesEnd m enc a
DecodesEnd-of_Decodes {enc} d = record {
  at = λ pre k. rw (append-nil) at (d.at pre [] (rw (append-nil enc) k));
}

pub DecodesEnd-bind {ℓ κ} :
    {A : Type ℓ} {B : Type κ} (m : Cursor A) (f : A → Cursor B) {enc enc' : Bytes} {a : A} {b : B}
    → Decodes m enc a
    → DecodesEnd (f a) enc' b
    → DecodesEnd (m >>= f) (enc ++ enc') b
unfolding ◌>>=◌
DecodesEnd-bind m f {enc} {enc'} {a} {b} d d' = record {
  at = λ pre h. rw (d.at pre enc' h) (
      rw (← append_assoc pre enc enc', ← length-append pre enc)
        (d'.at (pre ++ enc) (rw (append_assoc pre enc enc') h)
          ∙ ap (λ (n : ℕ). ok (b, n))
              (omega (arith, length-append pre enc, length-append enc enc'))));
}

pub DecodesEnd-has_more {ℓ} :
    {A : Type ℓ} (f : Bool → Cursor A) (enc : Bytes) {a : A}
    → DecodesEnd (f (not (is_empty enc))) enc a
    → DecodesEnd (has_more >>= f) enc a
unfolding ◌>>=◌ has_more
DecodesEnd-has_more f enc d = record { at = λ pre h. rw (ends pre enc) (d.at pre h) }
  where
    ends : (pre enc : Bytes) → ltb (length pre) (length (pre ++ enc)) ≡ not (is_empty enc)
    ends pre [] = ground (arith, length-append {A = ℕ} pre [])
    ends pre (x ∷ xs) = ground (arith, length-append pre (x ∷ xs))

pub DecodesEnd-whole {ℓ} :
    {A : Type ℓ} {m : Cursor A} {enc : Bytes} {a : A}
    → DecodesEnd m enc a
    → length enc < 2 ^ 64
    → whole m enc ≡ ok a
unfolding whole
DecodesEnd-whole d h = rw (d.at [] h)

pub pure-bind {ℓ κ} : {A : Type ℓ} {B : Type κ} (a : A) (f : A → Cursor B) → (pure a >>= f) ≡ f a
unfolding ◌>>=◌ pure
pure-bind a f = refl

pub Decodes-pure_eq {ℓ} : {A : Type ℓ} {a b : A} → a ≡ b → Decodes (pure a) [] b
Decodes-pure_eq {a} e = rw (← e) (Decodes-pure a)

pub Decodes-has_more {ℓ} :
    {A : Type ℓ} (f : Bool → Cursor A) (enc : Bytes) {a : A}
    → Decodes (f true) enc a
    → 0 < length enc
    → Decodes (has_more >>= f) enc a
unfolding ◌>>=◌ has_more
Decodes-has_more f enc d p = record { at = λ pre post h. rw (more pre post) (d.at pre post h) }
  where
    more : (pre post : Bytes) → ltb (length pre) (length (pre ++ (enc ++ post))) ≡ true
    more pre post =
        lt→ltb (length pre) (length (pre ++ (enc ++ post)))
          (omega (arith, length-append_three pre enc post))

-- A loop over the items of a list, each read in one round.
pub Decodes-repeat {ℓ κ} :
    {S : Type ℓ} {X : Type κ} (step : S → Cursor S) (enc : X → Bytes) (f : S → X → S) (xs : List X)
    (s : S)
    → All (λ x. (t : S) → Decodes (step t) (enc x) (f t x)) xs
    → Decodes (repeat (length xs) step s) (concat_map enc xs) (foldl f s xs)
unfolding repeat
Decodes-repeat step enc f [] s a = Decodes-pure s
Decodes-repeat step enc f (x ∷ xs) s (d, ds) =
    Decodes-bind _ _ (d s) (Decodes-repeat step enc f xs (f s x) ds)
