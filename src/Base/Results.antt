-- ===== src/Base/Results.antt =====
-- `Result`, and fallible code that changes a state: what `?` leaves is the state at the failure.

pub data Result {ℓ κ} (A : Type ℓ) (E : Type κ) : Type (ℓ ⊔ κ) where
  ok : A → Result A E
  err : E → Result A E

-- A method on the state `S`.
abbrev pub Act {ℓ κ μ} : Type ℓ → Type κ → Type μ → Type (ℓ ⊔ κ ⊔ μ)
Act E S A = S → Result A E × S

module _ {ℓ κ μ} {E : Type ℓ} {S : Type κ} {A B : Type μ} where
  abbrev pub and_then : Result A E × S → (A → Act E S B) → Result B E × S
  and_then (ok a, s) f = f a s
  and_then (err e, s) f = (err e, s)
