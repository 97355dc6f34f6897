-- ===== src/Prelude/Dict/Laws.antt =====
-- The laws of the maps, with the operations shut.
use Prim.Native.Nat.{suc, ◌+◌, ◌<◌}
use Prim.Native.String.{String}
use mathlib.Core.Path.{◌≡◌, refl, sym, ap, subst₂, ◌∙◌}
use mathlib.Core.Logic.{◌≢◌, inl, inr}
use mathlib.Core.Bool.{true, false}
use mathlib.Core.Option.{none, some}
use mathlib.Core.List.{[], ◌∷◌}
use native.Mathlib.Omega.{arith}
use text.Mathlib.Text.{◌==◌ as str_eq}
use text.Mathlib.TextEquality.{eq_iff}
use go_wst.Prelude.Tests.{if◌then◌else◌, Bool-cases}
use go_wst.Prelude.Lists.{In, length}
use go_wst.Prelude.Dict.Defs.{Dict, lookup, has, insert, delete, size, values, Distinct, EveryEntry}

pub str_eq_refl : (s : String) → str_eq s s ≡ true
str_eq_refl s = (eq_iff s s).1 refl

pub str_eq_ne : (s t : String) → s ≢ t → str_eq s t ≡ false
str_eq_ne s t h = ground (arith, eq_iff s t)

module _ {ℓ} {V : Type ℓ} where
  some_inv : {v w : V} → some v ≡ some w → v ≡ w
  some_inv e = cc

  pub lookup-insert :
      (key other : String) (new : V) (d : Dict V)
      → lookup other (insert key new d) ≡ (if str_eq key other then some new else lookup other d)
  unfolding lookup insert
  lookup-insert key other new [] = refl
  lookup-insert key other new ((held, value) ∷ d) =
      let later = lookup-insert key other new d in
      ground (arith, later, eq_iff held key, eq_iff held other, eq_iff key other)

  pub lookup-delete :
      (k j : String) (m : Dict V)
      → lookup j (delete k m) ≡ (if str_eq k j then none else lookup j m)
  unfolding lookup delete
  lookup-delete k j [] = ground arith
  lookup-delete k j ((i, w) ∷ m) =
      ground (arith, eq_iff k j, eq_iff i k, eq_iff i j, lookup-delete k j m)

  pub lookup-insert_self : (k : String) (v : V) (m : Dict V) → lookup k (insert k v m) ≡ some v
  lookup-insert_self k v m = ground (arith, lookup-insert k k v m, str_eq_refl k)

  pub lookup-insert_ne :
      (k j : String) (v : V) (m : Dict V) → k ≢ j → lookup j (insert k v m) ≡ lookup j m
  lookup-insert_ne k j v m h = ground (arith, lookup-insert k j v m, str_eq_ne k j h)

  pub lookup-delete_self : (k : String) (m : Dict V) → lookup k (delete k m) ≡ none
  lookup-delete_self k m = ground (arith, lookup-delete k k m, str_eq_refl k)

  pub lookup-delete_ne : (k j : String) (m : Dict V) → k ≢ j → lookup j (delete k m) ≡ lookup j m
  lookup-delete_ne k j m h = ground (arith, lookup-delete k j m, str_eq_ne k j h)

  pub insert-Distinct : (k : String) (v : V) (m : Dict V) → Distinct m → Distinct (insert k v m)
  unfolding insert lookup
  insert-Distinct k v [] d = (refl, tt)
  insert-Distinct k v ((j, w) ∷ m) d = elim (Bool-cases (str_eq j k)) [
    | inl same ↦ rw same (rw (← (eq_iff j k).0 same) d.0, d.1)
    | inr other ↦ rw other (
      lookup-insert_ne k j v m (λ e. ground (arith, eq_iff j k)) ∙ d.0,
      insert-Distinct k v m d.1,
    )
  ]

  pub delete-Distinct : (k : String) (m : Dict V) → Distinct m → Distinct (delete k m)
  unfolding delete
  delete-Distinct k [] d = d
  delete-Distinct k ((j, w) ∷ m) d =
      ground (arith, eq_iff j k, delete-Distinct k m d.1, lookup-delete k j m)

  pub size-insert :
      (k : String) (v : V) (m : Dict V)
      → size (insert k v m) ≡ (if has k m then size m else size m + 1)
  unfolding size insert has lookup
  size-insert k v [] = refl
  size-insert k v ((j, w) ∷ m) = ground (arith, size-insert k v m)

  pub delete_absent : (k : String) (m : Dict V) → lookup k m ≡ none → delete k m ≡ m
  unfolding lookup delete
  delete_absent k [] h = refl
  delete_absent k ((j, w) ∷ m) h = ground (arith, delete_absent k m)

  pub size-delete :
      (k : String) (m : Dict V)
      → Distinct m
      → size m ≡ (if has k m then size (delete k m) + 1 else size (delete k m))
  unfolding size delete has lookup
  size-delete k [] d = refl
  size-delete k ((j, w) ∷ m) d = ground (arith, eq_iff j k, size-delete k m d.1, delete_absent k m)

  pub lookup_empty : (k : String) (m : Dict V) → size m ≡ 0 → lookup k m ≡ none
  unfolding size lookup
  lookup_empty k [] h = refl
  lookup_empty k ((j, w) ∷ m) h = absurd (omega arith)

  pub EveryEntry-insert {κ} :
      (P : String → V → Type κ) (k : String) (v : V) (m : Dict V)
      → P k v
      → EveryEntry P m
      → EveryEntry P (insert k v m)
  unfolding insert
  EveryEntry-insert P k v [] p h = (p, h)
  EveryEntry-insert P k v ((j, w) ∷ m) p h =
      elim (str_eq j k) as (λ b. EveryEntry P (if b then (k, v) ∷ m else (j, w) ∷ insert k v m)) [
        | true ↦ (p, h.1)
        | false ↦ (h.0, EveryEntry-insert P k v m p h.1)
      ]

  pub EveryEntry-delete {κ} :
      (P : String → V → Type κ) (k : String) (m : Dict V)
      → EveryEntry P m
      → EveryEntry P (delete k m)
  unfolding delete
  EveryEntry-delete P k [] h = h
  EveryEntry-delete P k ((j, w) ∷ m) h =
      elim (str_eq j k) as (λ b. EveryEntry P (if b then delete k m else (j, w) ∷ delete k m)) [
        | true ↦ EveryEntry-delete P k m h.1
        | false ↦ (h.0, EveryEntry-delete P k m h.1)
      ]

  pub EveryEntry-lookup {κ} :
      (P : String → V → Type κ) (k : String) (m : Dict V) {v : V}
      → EveryEntry P m
      → lookup k m ≡ some v
      → P k v
  unfolding lookup
  EveryEntry-lookup P k [] h e = cc
  EveryEntry-lookup P k ((j, w) ∷ m) h e = elim (Bool-cases (str_eq j k)) [
    | inl same ↦ subst₂ P ((eq_iff j k).0 same) (some_inv (rw same at e)) h.0
    | inr other ↦ EveryEntry-lookup P k m h.1 (rw other at e)
  ]

  -- What a `range` goes through is what the map holds.
  pub In-values_of_lookup :
      (k : String) (v : V) (m : Dict V) → lookup k m ≡ some v → In v (values m)
  unfolding lookup values
  In-values_of_lookup k v [] e = absurd (cc)
  In-values_of_lookup k v ((j, w) ∷ m) e = elim (Bool-cases (str_eq j k)) [
    | inl same ↦ inl (sym (some_inv (rw same at e)))
    | inr other ↦ inr (In-values_of_lookup k v m (rw other at e))
  ]

  pub lookup_of_In-values :
      (v : V) (m : Dict V) → Distinct m → In v (values m) → (k : String) × (lookup k m ≡ some v)
  unfolding lookup values
  lookup_of_In-values v [] d h = elim h [ ]
  lookup_of_In-values v ((j, w) ∷ m) d (inl e) = (j, rw (str_eq_refl j) (ap some (sym e)))
  lookup_of_In-values v ((j, w) ∷ m) d (inr h) =
      let (k, found) = lookup_of_In-values v m d.1 h in
      (
        k,
        elim (Bool-cases (str_eq j k)) [
          | inl same ↦ absurd (ground (arith, eq_iff j k))
          | inr other ↦ rw other found
        ],
      )

  pub size-insert_pos : (k : String) (v : V) (m : Dict V) → 0 < size (insert k v m)
  unfolding size insert
  size-insert_pos k v [] = omega arith
  size-insert_pos k v ((j, w) ∷ m) = ground arith

  pub length-values : (m : Dict V) → length (values m) ≡ size m
  unfolding size values
  length-values [] = refl
  length-values (e ∷ m) = ap suc (length-values m)
