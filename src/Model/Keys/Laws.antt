-- ===== src/Model/Keys/Laws.antt =====
-- The test of two object keys is equality.
use text.Mathlib.TextEquality.{eq_iff}
use splitbind.Base.{◌≡◌, ap, ◌↔◌, true, arith}
use splitbind.Model.Keys.{ObjectKey, uncontrolled, key_eq}

pub key_eq_iff : (a b : ObjectKey) → (key_eq a b ≡ true) ↔ (a ≡ b)
key_eq_iff (uncontrolled s) (uncontrolled t) =
    (λ h. ap uncontrolled ((eq_iff s t).0 h), λ e. (eq_iff s t).1 (cc))
key_eq_iff a b = (λ h. ground arith, λ e. ground arith)
