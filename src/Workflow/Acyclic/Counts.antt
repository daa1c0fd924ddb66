-- ===== src/Workflow/Acyclic/Counts.antt =====
-- The edges of the graph, counted, and lists without repetition.
use aof.Prelude.{
  ℕ, suc, ◌+◌, ◌≤◌, ◌<◌, String, true, false, List, [], ◌∷◌, ◌++◌, Dict, lookup, insert, includes,
  if◌then◌else◌, ◌==◌, length, ◌≡◌, refl, arith, eq_iff, eq_refl, Bool-cases, inl, inr,
}
use aof.Workflow.Validate.Graph.{neighbors}

unfoldable pub occurs : String → List String → ℕ
occurs v [] = 0
occurs v (x ∷ xs) = let rest = occurs v xs in if x == v then suc rest else rest

-- How many edges lead to a node.
unfoldable pub inflow : String → Dict (List String) → ℕ
unfolding occurs
inflow v [] = 0
inflow v ((u, vs) ∷ m) = occurs v vs + inflow v m

pub occurs-snoc :
    (v x : String) (xs : List String)
    → occurs v (xs ++ x ∷ []) ≡ occurs v xs + (if x == v then 1 else 0)
unfolding occurs
occurs-snoc v x [] = ground arith
occurs-snoc v x (y ∷ xs) = ground (arith, occurs-snoc v x xs)

pub occurs_of_includes : (v : String) (xs : List String) → includes v xs ≡ true → 0 < occurs v xs
unfolding occurs
occurs_of_includes v [] h = ground arith
occurs_of_includes v (x ∷ xs) h = elim (Bool-cases (x == v)) [
  | inl e ↦ ground arith
  | inr e ↦ ground (arith, occurs_of_includes v xs (ground arith))
]

pub inflow-insert :
    (v k : String) (xs : List String) (m : Dict (List String))
    → inflow v (insert k xs m) + occurs v (neighbors k m) ≡ inflow v m + occurs v xs
unfolding inflow insert lookup
inflow-insert v k xs [] = ground arith
inflow-insert v k xs ((u, us) ∷ m) = elim (Bool-cases (u == k)) [
  | inl e ↦ ground arith
  | inr e ↦ ground (arith, inflow-insert v k xs m)
]

pub inflow_of_includes :
    (v u : String) (m : Dict (List String)) → includes v (neighbors u m) ≡ true → 0 < inflow v m
unfolding inflow lookup
inflow_of_includes v u [] h = ground arith
inflow_of_includes v u ((k, ks) ∷ m) h = elim (Bool-cases (k == u)) [
  | inl e ↦ omega (arith, occurs_of_includes v ks (ground arith))
  | inr e ↦ omega (arith, inflow_of_includes v u m (ground arith))
]

-- No text stands twice in the list.
abbrev pub NoDup : List String → Type 0
NoDup [] = Unit
NoDup (x ∷ xs) = (includes x xs ≡ false) × NoDup xs

abbrev pub Within : List String → List String → Type 0
Within xs ys = (x : String) → includes x xs ≡ true → includes x ys ≡ true

without : String → List String → List String
without x [] = []
without x (y ∷ ys) = if y == x then ys else y ∷ without x ys

length-without :
    (x : String) (ys : List String) → includes x ys ≡ true → suc (length (without x ys)) ≡ length ys
unfolding without
length-without x [] h = ground arith
length-without x (y ∷ ys) h = elim (Bool-cases (y == x)) [
  | inl e ↦ rw e refl
  | inr e ↦ rw e (omega (arith, length-without x ys (ground arith)))
]

without-keeps :
    (x z : String) (ys : List String)
    → (x == z) ≡ false
    → includes z ys ≡ true
    → includes z (without x ys) ≡ true
unfolding without
without-keeps x z [] other h = h
without-keeps x z (y ∷ ys) other h = elim (Bool-cases (y == x)) [
  | inl e ↦ rw e (ground (arith, eq_iff y x))
  | inr e ↦ elim (Bool-cases (y == z)) [
    | inl f ↦ rw e (rw f refl)
    | inr f ↦ rw e (rw f (without-keeps x z ys other (ground arith)))
  ]
]

-- A list without repetition is no longer than one that holds its elements.
pub NoDup-length : (xs ys : List String) → NoDup xs → Within xs ys → length xs ≤ length ys
NoDup-length [] ys n h = omega arith
NoDup-length (x ∷ xs) ys (away, n) h =
    let here : includes x ys ≡ true = h x (rw (eq_refl x) refl) in
    omega (
      arith,
      length-without x ys here,
      NoDup-length xs (without x ys) n
          (λ z m. without-keeps x z ys (differs z m) (h z (ground arith))),
    )
  where
    differs : (z : String) → includes z xs ≡ true → (x == z) ≡ false
    differs z m = ground (arith, eq_iff x z)

-- It holds all of a list that is no longer.
pub NoDup-full :
    (xs ys : List String) → NoDup xs → Within xs ys → length xs ≡ length ys → Within ys xs
NoDup-full xs ys n h same y m = elim (Bool-cases (includes y xs)) [
  | inl there ↦ there
  | inr missing ↦
      let long = NoDup-length (y ∷ xs) ys (missing, n) (λ z k. ground (arith, eq_iff y z, h z)) in
      ground arith
]
