-- ===== src/Prelude/Dict/Defs.antt =====
-- The operations on a map and its two predicates.
use Prim.Native.Nat.{ℕ}
use Prim.Native.String.{String}
use mathlib.Core.Path.{◌≡◌}
use mathlib.Core.Bool.{Bool, true, false}
use mathlib.Core.Option.{Option, none, some}
use mathlib.Core.List.{List, [], ◌∷◌, map}
use text.Mathlib.Text.{◌==◌ as str_eq}
use go_wst.Prelude.Tests.{if◌then◌else◌}
use go_wst.Prelude.Lists.{length}

module _ {ℓ} where
  abbrev pub Dict : Type ℓ → Type ℓ
  Dict V = List (String × V)

module _ {ℓ} {V : Type ℓ} where
  -- `v, ok := m[k]`
  unfoldable pub lookup : String → Dict V → Option V
  lookup key [] = none
  lookup key ((held, value) ∷ rest) =
      let later = lookup key rest in if str_eq held key then some value else later

  unfoldable pub has : String → Dict V → Bool
  unfolding lookup
  has k m = elim (lookup k m) [ some v ↦ true | none ↦ false ]

  -- `m[k] = v`
  unfoldable pub insert : String → V → Dict V → Dict V
  insert key new [] = (key, new) ∷ []
  insert key new ((held, value) ∷ rest) =
      let later = insert key new rest in
      if str_eq held key then (key, new) ∷ rest else (held, value) ∷ later

  -- `delete(m, k)`
  unfoldable pub delete : String → Dict V → Dict V
  delete k [] = []
  delete k ((j, w) ∷ m) = if str_eq j k then delete k m else (j, w) ∷ delete k m

  -- `len(m)`
  unfoldable pub size : Dict V → ℕ
  size m = length m

  -- `for _, v := range m`
  unfoldable pub values : Dict V → List V
  values m = map (λ e. e.1) m

  -- A key stands in a map once.
  abbrev pub Distinct : Dict V → Type ℓ
  Distinct [] = Unit {ℓ}
  Distinct ((k, v) ∷ m) = (lookup k m ≡ none) × Distinct m

  abbrev pub EveryEntry {κ} : (String → V → Type κ) → Dict V → Type κ
  EveryEntry P [] = Unit {κ}
  EveryEntry P ((k, v) ∷ m) = P k v × EveryEntry P m
