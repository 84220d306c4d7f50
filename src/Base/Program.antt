-- ===== src/Base/Program.antt =====
-- Go code that runs on one mutable object: it returns a value and the object, or it panics.
use Prim.Native.Nat.{ℕ, zero, suc}
use mathlib.Core.List.{List, [], ◌∷◌}

-- `out_of_fuel` is no Go outcome: the bound on a loop or a recursion of the model ran out.
pub data Exec {ℓ} (A : Type ℓ) : Type ℓ where
  done : A → Exec A
  panic : Exec A
  out_of_fuel : Exec A

abbrev pub then_exec {ℓ κ} : {A : Type ℓ} {B : Type κ} → Exec A → (A → Exec B) → Exec B
then_exec (done a) f = f a
then_exec panic f = panic
then_exec out_of_fuel f = out_of_fuel

-- The object after a call, or as it was where the call did not return.
abbrev pub after : {S A : Type 0} → Exec (A × S) → S → S
after (done (a, t)) s = t
after _ s = s

abbrev pub Program : Type 0 → Type 0 → Type 0
Program S A = S → Exec (A × S)

-- The combinators are shut, so that rules about programs apply by their heads.
module _ {S A : Type 0} where
  unfoldable pub pure : A → Program S A
  pure a s = done (a, s)

module _ {S A B : Type 0} where
  infixl 1 ◌>>=◌ ◌>>◌
  unfoldable pub ◌>>=◌ : Program S A → (A → Program S B) → Program S B
  (p >>= f) s = then_exec (p s) λ (a, t). f a t

  unfoldable pub ◌>>◌ : Program S A → Program S B → Program S B
  (p >> q) s = then_exec (p s) λ (a, t). q t

-- `for i := range slice { slice[i] = p() }` over `n` fresh entries.
unfoldable pub repeat : {S A : Type 0} → ℕ → Program S A → Program S (List A)
unfolding ◌>>=◌ pure
repeat zero p = pure []
repeat (suc n) p = let rest = repeat n p in do x ← p; xs ← rest; pure (x ∷ xs)

-- `for _, x := range xs { p(x) }`.
unfoldable pub for_each :
    {S A : Type 0} → (A → Program S (Unit {0})) → List A → Program S (Unit {0})
unfolding ◌>>◌ pure
for_each p [] = pure tt
for_each p (x ∷ xs) = p x >> for_each p xs
