-- ===== src/Base/Text/Split.antt =====
-- A text that is joined at a character which one side lacks comes apart in one way.
use Prim.Native.Char.{Char}
use Prim.Native.String.{String, [], ◌∷◌, ◌++◌}
use mathlib.Core.Path.{◌≡◌, refl, sym, ap₂}
use text.Mathlib.TextLemmas.{nil-append, cons-append, head-eq_of_cons-eq, tail-eq_of_cons-eq}
use digital_life_memory_fabr.Base.Text.Decimal.{Lacks}

Lacks-append : (c : Char) (s t : String) → ¬ Lacks c (s ++ (c ∷ t))
Lacks-append c [] t h = (rw nil-append at h).0 refl
Lacks-append c (d ∷ s) t h = Lacks-append c s t (rw cons-append at h).1

-- The part behind the character lacks it.
pub split_right :
    (c : Char) (s s' t t' : String)
    → Lacks c t
    → Lacks c t'
    → s ++ (c ∷ t) ≡ s' ++ (c ∷ t')
    → (s ≡ s') × (t ≡ t')
split_right c [] [] t t' h h' e = (refl, tail-eq_of_cons-eq (rw (nil-append, nil-append) at e))
split_right c [] (d ∷ s') t t' h h' e =
    let e' = sym (rw (nil-append, cons-append) at e) in
    absurd (Lacks-append c s' t' (rw (← tail-eq_of_cons-eq e') at h))
split_right c (d ∷ s) [] t t' h h' e =
    let e' = rw (cons-append, nil-append) at e in
    absurd (Lacks-append c s t (rw (← tail-eq_of_cons-eq e') at h'))
split_right c (d ∷ s) (d' ∷ s') t t' h h' e =
    let e' = rw (cons-append, cons-append) at e in
    let rest = split_right c s s' t t' h h' (tail-eq_of_cons-eq e') in
    (ap₂ ◌∷◌ (head-eq_of_cons-eq e') rest.0, rest.1)

-- The part before the character lacks it.
pub split_left :
    (c : Char) (s s' t t' : String)
    → Lacks c s
    → Lacks c s'
    → s ++ (c ∷ t) ≡ s' ++ (c ∷ t')
    → (s ≡ s') × (t ≡ t')
split_left c [] [] t t' h h' e = (refl, tail-eq_of_cons-eq (rw (nil-append, nil-append) at e))
split_left c [] (d ∷ s') t t' h h' e =
    absurd (h'.0 (sym (head-eq_of_cons-eq (rw (nil-append, cons-append) at e))))
split_left c (d ∷ s) [] t t' h h' e =
    absurd (h.0 (head-eq_of_cons-eq (rw (cons-append, nil-append) at e)))
split_left c (d ∷ s) (d' ∷ s') t t' h h' e =
    let e' = rw (cons-append, cons-append) at e in
    let rest = split_left c s s' t t' h.1 h'.1 (tail-eq_of_cons-eq e') in
    (ap₂ ◌∷◌ (head-eq_of_cons-eq e') rest.0, rest.1)
