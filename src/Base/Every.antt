-- ===== src/Base/Every.antt =====
-- A property of every entry of a list, and the list operations that keep it.
use Prim.Native.Nat.{ℕ, zero, suc}
use mathlib.Core.Path.{◌≡◌, refl, ap, ◌∙◌, subst}
use mathlib.Core.Logic.{inl, inr}
use mathlib.Core.Bool.{Bool, true}
use mathlib.Core.Option.{some}
use mathlib.Core.List.{List, [], ◌∷◌, ◌++◌, map}
use package.digital_life_memory_fabr.Base.Tests.{Bool-cases, some-injective}
use package.digital_life_memory_fabr.Base.Lists.{
  take, drop, filter, get_elem?, last?, insert_by, sort_by,
}

abbrev pub All {ℓ κ} : {A : Type ℓ} → (A → Type κ) → List A → Type κ
All P [] = Unit
All P (x ∷ xs) = P x × All P xs

pub All-map {ℓ κ μ} :
    {A : Type ℓ} {P : A → Type κ} {Q : A → Type μ} (f : (x : A) → P x → Q x) (xs : List A)
    → All P xs
    → All Q xs
All-map f [] h = tt
All-map f (x ∷ xs) h = (f x h.0, All-map f xs h.1)

module _ {ℓ κ} {A : Type ℓ} (P : A → Type κ) where
  pub All-append : (xs ys : List A) → All P xs → All P ys → All P (xs ++ ys)
  All-append [] ys hx hy = hy
  All-append (x ∷ xs) ys hx hy = (hx.0, All-append xs ys hx.1 hy)

  pub All-filter : (test : A → Bool) (xs : List A) → All P xs → All P (filter test xs)
  All-filter test [] h = tt
  All-filter test (x ∷ xs) h = elim (Bool-cases (test x)) [
    | inl e ↦ rw e (h.0, All-filter test xs h.1)
    | inr e ↦ rw e (All-filter test xs h.1)
  ]

  -- What is left also passes the test.
  pub All-filter_test :
      (test : A → Bool) (xs : List A) → All P xs → All (λ x. P x × (test x ≡ true)) (filter test xs)
  All-filter_test test [] h = tt
  All-filter_test test (x ∷ xs) h = elim (Bool-cases (test x)) [
    | inl e ↦ rw e ((h.0, e), All-filter_test test xs h.1)
    | inr e ↦ rw e (All-filter_test test xs h.1)
  ]

  pub All-drop : (n : ℕ) (xs : List A) → All P xs → All P (drop n xs)
  All-drop zero xs h = h
  All-drop (suc n) [] h = tt
  All-drop (suc n) (x ∷ xs) h = All-drop n xs h.1

  pub All-take : (n : ℕ) (xs : List A) → All P xs → All P (take n xs)
  All-take zero xs h = tt
  All-take (suc n) [] h = tt
  All-take (suc n) (x ∷ xs) h = (h.0, All-take n xs h.1)

  pub All-insert_by :
      (le : A → A → Bool) (x : A) (xs : List A) → P x → All P xs → All P (insert_by le x xs)
  All-insert_by le x [] here h = (here, tt)
  All-insert_by le x (y ∷ ys) here h = elim (Bool-cases (le x y)) [
    | inl e ↦ rw e (here, h)
    | inr e ↦ rw e (h.0, All-insert_by le x ys here h.1)
  ]

  pub All-sort_by : (le : A → A → Bool) (xs : List A) → All P xs → All P (sort_by le xs)
  All-sort_by le [] h = tt
  All-sort_by le (x ∷ xs) h = All-insert_by le x (sort_by le xs) h.0 (All-sort_by le xs h.1)

-- Every entry of a list stands at a place of it.
pub All-places {ℓ} : {A : Type ℓ} (xs : List A) → All (λ x. (i : ℕ) × (get_elem? xs i ≡ some x)) xs
All-places [] = tt
All-places (x ∷ xs) = ((zero, refl), All-map (λ y h. (suc h.0, h.1)) xs (All-places xs))

pub All-zip {ℓ κ μ} :
    {A : Type ℓ} (P : A → Type κ) (Q : A → Type μ) (xs : List A)
    → All P xs
    → All Q xs
    → All (λ x. P x × Q x) xs
All-zip P Q [] h k = tt
All-zip P Q (x ∷ xs) h k = ((h.0, k.0), All-zip P Q xs h.1 k.1)

pub All-mapped {ℓ κ μ} :
    {A : Type ℓ} {B : Type κ} (P : B → Type μ) (f : A → B) (xs : List A)
    → All (λ x. P (f x)) xs
    → All P (map f xs)
All-mapped P f [] h = tt
All-mapped P f (x ∷ xs) h = (h.0, All-mapped P f xs h.1)

-- Back from a mapped, a sorted or a filtered list to its entries.
module _ {ℓ κ} {A : Type ℓ} (P : A → Type κ) where
  All-insert_by_back :
      (le : A → A → Bool) (x : A) (xs : List A) → All P (insert_by le x xs) → P x × All P xs
  All-insert_by_back le x [] h = (h.0, tt)
  All-insert_by_back le x (y ∷ ys) h = elim (Bool-cases (le x y)) [
    | inl e ↦ rw e at h
    | inr e ↦
        let (here, rest) : P y × All P (insert_by le x ys) = rw e at h in
        let back = All-insert_by_back le x ys rest in (back.0, (here, back.1))
  ]

  pub All-sort_by_back : (le : A → A → Bool) (xs : List A) → All P (sort_by le xs) → All P xs
  All-sort_by_back le [] h = tt
  All-sort_by_back le (x ∷ xs) h =
      let back = All-insert_by_back le x (sort_by le xs) h in
      (back.0, All-sort_by_back le xs back.1)

  pub All-filter_at :
      (test : A → Bool) (xs : List A) (i : ℕ) (x : A)
      → get_elem? xs i ≡ some x
      → test x ≡ true
      → All P (filter test xs)
      → P x
  All-filter_at test [] i x here passes h = absurd (cc here)
  All-filter_at test (y ∷ ys) zero x here passes h =
      let same : y ≡ x = some-injective here in subst P same ((rw (ap test same ∙ passes) at h).0)
  All-filter_at test (y ∷ ys) (suc i) x here passes h = elim (Bool-cases (test y)) [
    | inl e ↦ All-filter_at test ys i x here passes ((rw e at h).1)
    | inr e ↦ All-filter_at test ys i x here passes (rw e at h)
  ]

  pub All-last? : (xs : List A) (x : A) → last? xs ≡ some x → All P xs → P x
  All-last? [] x e h = absurd (cc e)
  All-last? (y ∷ []) x e h = subst P (some-injective e) h.0
  All-last? (y ∷ z ∷ zs) x e h = All-last? (z ∷ zs) x e h.1

pub All-map_back {ℓ κ μ} :
    {A : Type ℓ} {B : Type κ} (P : B → Type μ) (f : A → B) (xs : List A)
    → All P (map f xs)
    → All (λ x. P (f x)) xs
All-map_back P f [] h = tt
All-map_back P f (x ∷ xs) h = (h.0, All-map_back P f xs h.1)

pub trivially {ℓ} : {A : Type ℓ} (xs : List A) → All (λ x. Unit {0}) xs
trivially [] = tt
trivially (x ∷ xs) = (tt, trivially xs)
