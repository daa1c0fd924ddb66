-- ===== src/Prelude/Dicts.antt =====
-- A JavaScript object used as a map, or a `Map` with text keys: an association list in insertion
-- order. Assigning to a present key keeps its place, and a new key goes to the end.
use package.aof.Prelude.Tests.{text-cases, if◌then◌else◌}
use text.Mathlib.TextPositions.{eq_refl}
use text.Mathlib.TextEquality.{eq_iff}
use text.Mathlib.Text.{◌==◌}
use native.Mathlib.Omega.{arith}
use mathlib.Core.Option.{Option, none, some}
use mathlib.Core.List.{List, [], ◌∷◌, Memᴰ}
use mathlib.Core.Bool.{Bool, true, false}
use mathlib.Core.Logic.{inl, inr}
use mathlib.Core.Path.{◌≡◌, refl}
use Prim.Native.String.{String}
use Prim.Native.Nat.{ℕ, suc}

abbrev pub Dict {ℓ} : Type ℓ → Type ℓ
Dict V = List (String × V)

module _ {ℓ} {V : Type ℓ} where
  unfoldable pub lookup : String → Dict V → Option V
  lookup k [] = none
  lookup k ((key, value) ∷ rest) = if key == k then some value else lookup k rest

  unfoldable pub insert : String → V → Dict V → Dict V
  insert k v [] = (k, v) ∷ []
  insert k v ((key, value) ∷ rest) =
      if key == k then (k, v) ∷ rest else (key, value) ∷ insert k v rest

  pub lookup-insert :
      (key other : String) (value : V) (dict : Dict V)
      → lookup other (insert key value dict)
        ≡ (if key == other then some value else lookup other dict)
  unfolding lookup insert
  lookup-insert key other value [] = refl
  lookup-insert key other value ((first, held) ∷ rest) = ground (
    arith,
    lookup-insert key other value rest,
    eq_iff first key,
    eq_iff first other,
    eq_iff key other,
  )

  pub lookup-insert_self : (k : String) (v : V) (m : Dict V) → lookup k (insert k v m) ≡ some v
  lookup-insert_self k v m = simp (lookup-insert, eq_refl)

  pub mem_of_lookup : (k : String) (v : V) (m : Dict V) → lookup k m ≡ some v → Memᴰ (k, v) m
  unfolding lookup
  mem_of_lookup k v [] h = cc
  mem_of_lookup k v ((j, w) ∷ m) h = elim (text-cases j k) [
    | inl same ↦ Memᴰ.head (ground (arith, eq_iff j k))
    | inr other ↦ Memᴰ.tail (mem_of_lookup k v m (ground arith))
  ]

  -- How many values pass a test.
  unfoldable pub tally : (V → Bool) → Dict V → ℕ
  tally p [] = 0
  tally p ((k, v) ∷ m) = let rest = tally p m in if p v then suc rest else rest

  -- Replacing a value that passes the test by one that does not takes one off the tally.
  pub tally-insert_drop :
      (p : V → Bool) (k : String) (v w : V) (m : Dict V)
      → lookup k m ≡ some w
      → p w ≡ true
      → p v ≡ false
      → suc (tally p (insert k v m)) ≡ tally p m
  unfolding tally lookup insert
  tally-insert_drop p k v w [] h pw pv = ground arith
  tally-insert_drop p k v w ((j, u) ∷ m) h pw pv = ground (arith, tally-insert_drop p k v w m)
