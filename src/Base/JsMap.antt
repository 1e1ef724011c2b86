-- ===== src/Base/JsMap.antt =====
-- The JavaScript `Map` with text keys: entries in insertion order, `set` keeps an old key's place.
use Prim.Native.String.{String}
use mathlib.Core.Path.{◌≡◌, refl, sym, ◌∙◌}
use mathlib.Core.Logic.{◌⊎◌, inl, inr}
use mathlib.Core.Bool.{Bool, true, false}
use mathlib.Core.Option.{Option, none, some}
use mathlib.Core.List.{List, [], ◌∷◌, map}
use native.Mathlib.Omega.{arith}
use text.Mathlib.Text.{◌==◌}
use text.Mathlib.TextEquality.{eq_iff}
use text.Mathlib.TextPositions.{eq_refl}
use package.digital_life_memory_fabr.Base.Tests.{if◌then◌else◌, text_cases}
use package.digital_life_memory_fabr.Base.Lists.{find}

abbrev pub JsMap {ℓ} : Type ℓ → Type ℓ
JsMap V = List (String × V)

module _ {ℓ} {V : Type ℓ} where
  -- `m.get(k)`
  unfoldable pub get : String → JsMap V → Option V
  get k [] = none
  get k ((j, v) ∷ m) = let rest = get k m in if j == k then some v else rest

  -- `m.set(k, v)`
  unfoldable pub set : String → V → JsMap V → JsMap V
  set k v [] = (k, v) ∷ []
  set k v ((j, w) ∷ m) = let rest = set k v m in if j == k then (j, v) ∷ m else (j, w) ∷ rest

  -- `m.has(k)`
  unfoldable pub has : String → JsMap V → Bool
  unfolding get
  has k m = elim (get k m) [ none ↦ false | some _ ↦ true ]

  -- `[...m.values()]`
  abbrev pub values : JsMap V → List V
  values m = map (λ e. e.1) m

  pub get-set :
      (k j : String) (v : V) (m : JsMap V)
      → get j (set k v m) ≡ (if k == j then some v else get j m)
  unfolding get set
  get-set k j v [] = refl
  get-set k j v ((i, w) ∷ m) = ground (arith, eq_iff k j, eq_iff i k, eq_iff i j, get-set k j v m)

  pub get-set_self : (k : String) (v : V) (m : JsMap V) → get k (set k v m) ≡ some v
  get-set_self k v m = rw (get-set, eq_refl)

  pub get-set_ne :
      (k j : String) (v : V) (m : JsMap V) → (k == j) ≡ false → get j (set k v m) ≡ get j m
  get-set_ne k j v m h = rw (get-set, h)

  pub get-set_at : (k j : String) (v : V) (m : JsMap V) → k ≡ j → get j (set k v m) ≡ some v
  get-set_at k j v m e = rw (← e) (get-set_self k v m)

  -- A new key takes nothing from the old ones.
  pub get-set_fresh :
      (k j : String) (v w : V) (m : JsMap V)
      → get k m ≡ none
      → get j m ≡ some w
      → get j (set k v m) ≡ some w
  get-set_fresh k j v w m fresh old = elim (text_cases k j) [
    | inl e ↦ absurd (ground (arith, rw e at fresh))
    | inr ne ↦ get-set_ne k j v m ne ∙ old
  ]

  -- A key of the map after a `set` is the key that was set, or an old one.
  pub get-set_cases :
      (k j : String) (v w : V) (m : JsMap V)
      → get j (set k v m) ≡ some w
      → ((k ≡ j) × (v ≡ w)) ⊎ (((k == j) ≡ false) × (get j m ≡ some w))
  get-set_cases k j v w m h = elim (text_cases k j) [
    | inl e ↦ inl (e, ground (arith, get-set k j v m, eq_iff k j))
    | inr ne ↦ inr (ne, sym (get-set_ne k j v m ne) ∙ h)
  ]

  -- Where no value passes a test, none that a key leads to does.
  pub find-none-get :
      (test : V → Bool) (k : String) (v : V) (m : JsMap V)
      → find test (values m) ≡ none
      → get k m ≡ some v
      → test v ≡ false
  unfolding get
  find-none-get test k v [] h g = cc
  find-none-get test k v ((j, w) ∷ m) h g = ground (arith, find-none-get test k v m)
