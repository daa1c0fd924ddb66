-- ===== src/Prelude/Lists.antt =====
-- Lists measured by native numbers, Boolean quantifiers, and membership of texts.
use Prim.Native.Nat.{ℕ, suc, ◌+◌}
use Prim.Native.String.{String}
use mathlib.Core.Path.{◌≡◌, refl, sym, ap, subst, ◌∙◌}
use mathlib.Core.Logic.{inl, inr}
use mathlib.Core.Bool.{Bool, true, false, ◌&&◌, ◌||◌}
use mathlib.Core.List.{List, [], ◌∷◌, ◌++◌, Memᴰ}
use mathlib.Core.Option.{Option, none, some}
use native.Mathlib.Omega.{arith}
use text.Mathlib.Text.{◌==◌}
use package.aof.Prelude.Tests.{Bool-cases, if◌then◌else◌}

module _ {ℓ} {A : Type ℓ} where
  abbrev pub length : List A → ℕ
  length [] = 0
  length (x ∷ xs) = suc (length xs)

  -- `Array.prototype.every` and `some`.
  abbrev pub every : (A → Bool) → List A → Bool
  every p [] = true
  every p (x ∷ xs) = p x && every p xs

  abbrev pub any_of : (A → Bool) → List A → Bool
  any_of p [] = false
  any_of p (x ∷ xs) = p x || any_of p xs

  -- `Array.prototype.find`.
  abbrev pub find : (A → Bool) → List A → Option A
  find p [] = none
  find p (x ∷ xs) = if p x then some x else find p xs

  -- `Array.prototype.filter`, by a Boolean test.
  abbrev pub keep : (A → Bool) → List A → List A
  keep p [] = []
  keep p (x ∷ xs) = let rest = keep p xs in if p x then x ∷ rest else rest

  -- A predicate at every element; a structural alternative to the library's `Mem`.
  abbrev pub All {κ} : (A → Type κ) → List A → Type κ
  All P [] = Unit
  All P (x ∷ xs) = P x × All P xs

  pub length-append : (xs ys : List A) → length (xs ++ ys) ≡ length xs + length ys
  length-append [] ys = omega arith
  length-append (x ∷ xs) ys = omega (arith, length-append xs ys)

module _ {ℓ} {A : Type ℓ} where
  pub All-append {κ} : (P : A → Type κ) (xs ys : List A) → All P xs → All P ys → All P (xs ++ ys)
  All-append P [] ys p q = q
  All-append P (x ∷ xs) ys p q = (p.0, All-append P xs ys p.1 q)

  pub All-map {κ μ} :
      {P : A → Type κ} {Q : A → Type μ}
      → ((x : A) → P x → Q x)
      → (xs : List A) → All P xs
      → All Q xs
  All-map f [] p = tt
  All-map f (x ∷ xs) p = (f x p.0, All-map f xs p.1)

  pub All-get {κ} : (P : A → Type κ) {x : A} {xs : List A} → Memᴰ x xs → All P xs → P x
  All-get P (Memᴰ.head e) p = subst P (sym e) p.0
  All-get P (Memᴰ.tail m) p = All-get P m p.1

  pub All-of_mem {κ} : {P : A → Type κ} (xs : List A) → ((x : A) → Memᴰ x xs → P x) → All P xs
  All-of_mem [] f = tt
  All-of_mem (x ∷ xs) f = (f x (Memᴰ.head refl), All-of_mem xs (λ y m. f y (Memᴰ.tail m)))

  -- `find` succeeds where some element passes, and returns one that passes.
  pub find_of_mem :
      (p : A → Bool) {x : A} {xs : List A} → Memᴰ x xs → p x ≡ true → (y : A) × (find p xs ≡ some y)
  find_of_mem p {xs = []} m h = elim m [ ]
  find_of_mem p {xs = y ∷ ys} (Memᴰ.head e) h = (y, rw (ap p (sym e) ∙ h))
  find_of_mem p {xs = y ∷ ys} (Memᴰ.tail m) h =
      let (z, found) = find_of_mem p m h in
      elim (Bool-cases (p y)) [ inl e ↦ (y, rw e) | inr e ↦ (z, rw e found) ]

  pub find-passes :
      (p : A → Bool) (xs : List A) {y : A} → find p xs ≡ some y → (p y ≡ true) × Memᴰ y xs
  find-passes p [] h = cc
  find-passes p (x ∷ xs) {y = y} h = elim (Bool-cases (p x)) [
    | inl e ↦ let same : x ≡ y = ground arith in (ap p (sym same) ∙ e, Memᴰ.head (sym same))
    | inr e ↦ let (f, m) = find-passes p xs (ground arith) in (f, Memᴰ.tail m)
  ]

module _ {ℓ} {A : Type ℓ} where
  pub every-false :
      (p : A → Bool) {x : A} (xs : List A) → Memᴰ x xs → p x ≡ false → every p xs ≡ false
  every-false p [] m h = elim m [ ]
  every-false p (y ∷ xs) (Memᴰ.head e) h = rw (ap p (sym e) ∙ h)
  every-false p (y ∷ xs) (Memᴰ.tail m) h = ground (arith, every-false p xs m h)

module _ {ℓ} {A : Type ℓ} where
  -- What a filter keeps is in the list and passes.
  pub keep-All : (p : A → Bool) (xs : List A) → All (λ x. (p x ≡ true) × Memᴰ x xs) (keep p xs)
  keep-All p [] = tt
  keep-All p (x ∷ xs) =
      let rest = All-map (λ y (h, m). (h, Memᴰ.tail m)) (keep p xs) (keep-All p xs) in
      elim (Bool-cases (p x)) [ inl e ↦ rw e ((e, Memᴰ.head refl), rest) | inr e ↦ rw e rest ]

-- `includes` on an array, or `has` on a set, of texts.
abbrev pub includes : String → List String → Bool
includes s [] = false
includes s (t ∷ ts) = t == s || includes s ts

pub includes-snoc :
    (b d : String) (xs : List String) → includes b (xs ++ d ∷ []) ≡ (includes b xs || d == b)
includes-snoc b d [] = ground arith
includes-snoc b d (x ∷ xs) = ground (arith, includes-snoc b d xs)
