-- ===== src/Base/Dict.antt =====
-- Python's `dict` with text keys: an association list in insertion order, each key once. A new value
-- for a key keeps the key's place.
use mathlib.Core.Path.{◌≡◌, refl}
use mathlib.Core.Bool.{Bool, true, false}
use mathlib.Core.List.{List, [], ◌∷◌}
use mathlib.Core.Option.{Option, none, some}
use native.Mathlib.Omega.{arith}
use new_cl_lang.Base.Tests.{if◌then◌else◌}
use new_cl_lang.Base.Text.{Text, text_eq, text_eq_iff}

abbrev pub Dict {ℓ} : Type ℓ → Type ℓ
Dict V = List (Text × V)

module _ {ℓ} {V : Type ℓ} where
  -- `d.get(k)`
  unfoldable pub lookup : Text → Dict V → Option V
  lookup k [] = none
  lookup k ((j, v) ∷ d) = let rest = lookup k d in if text_eq j k then some v else rest

  -- `d[k] = v`
  unfoldable pub insert : Text → V → Dict V → Dict V
  insert k v [] = (k, v) ∷ []
  insert k v ((j, w) ∷ d) =
      let rest = insert k v d in if text_eq j k then (j, v) ∷ d else (j, w) ∷ rest

  pub lookup-insert :
      (k j : Text) (v : V) (d : Dict V)
      → lookup j (insert k v d) ≡ (if text_eq k j then some v else lookup j d)
  unfolding lookup insert
  lookup-insert k j v [] = refl
  lookup-insert k j v ((i, w) ∷ d) =
      ground (arith, text_eq_iff k j, text_eq_iff i k, text_eq_iff i j, lookup-insert k j v d)

  -- `{k: v for k, v in pairs}`
  unfoldable pub insert_all : List (Text × V) → Dict V → Dict V
  unfolding insert
  insert_all [] d = d
  insert_all ((k, v) ∷ pairs) d = insert_all pairs (insert k v d)

-- `k in d`
abbrev pub contains {ℓ} : {V : Type ℓ} → Text → Dict V → Bool
contains k d = elim (lookup k d) [ none ↦ false | some v ↦ true ]
