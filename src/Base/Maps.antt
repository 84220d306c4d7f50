-- ===== src/Base/Maps.antt =====
-- Go maps as association lists, over keys with a test for equality.
use Prim.Native.Nat.{ℕ}
use mathlib.Core.Path.{◌≡◌, refl}
use mathlib.Core.Logic.{◌↔◌}
use mathlib.Core.Bool.{Bool, true, false, ◌&&◌}
use mathlib.Core.Option.{Option, none, some}
use mathlib.Core.List.{List, [], ◌∷◌}
use kafka.Base.Tests.{◌==◌, ==_iff, Bool-cases, if◌then◌else◌}
use mathlib.Core.Logic.{inl, inr}
use native.Mathlib.Omega.{arith}

pub record Eq (K : Type 0) : Type 0 where
  pub same : K → K → Bool
  pub same_iff : (a b : K) → (same a b ≡ true) ↔ (a ≡ b)

instance abbrev pub ℕ_eq : Eq ℕ
ℕ_eq = record { same = λ a b. a == b; same_iff = ==_iff }

-- `==` on Go strings.
abbrev pub string_same : List ℕ → List ℕ → Bool
string_same [] [] = true
string_same [] (y ∷ ys) = false
string_same (x ∷ xs) [] = false
string_same (x ∷ xs) (y ∷ ys) = x == y && string_same xs ys

pub string_same_iff : (a b : List ℕ) → (string_same a b ≡ true) ↔ (a ≡ b)
string_same_iff [] [] = (λ h. refl, λ h. refl)
string_same_iff [] (y ∷ ys) = (λ h. cc, λ h. cc)
string_same_iff (x ∷ xs) [] = (λ h. cc, λ h. cc)
string_same_iff (x ∷ xs) (y ∷ ys) = ground (arith, string_same_iff xs ys)

instance abbrev pub string_eq : Eq (List ℕ)
string_eq = record { same = string_same; same_iff = string_same_iff }

abbrev pub Map : Type 0 → Type 0 → Type 0
Map K V = List (K × V)

module _ {V : Type 0} where
  abbrev pub or_else : Option V → Option V → Option V
  or_else none b = b
  or_else (some v) b = some v

  pub or_else-none : (o : Option V) → or_else o none ≡ o
  or_else-none none = refl
  or_else-none (some v) = refl

  pub or_else_assoc : (a b c : Option V) → or_else a (or_else b c) ≡ or_else (or_else a b) c
  or_else_assoc none b c = refl
  or_else_assoc (some v) b c = refl

  or_else_if :
      (b : Bool) (v : V) (c : Option V)
      → (if b then some v else c) ≡ or_else (if b then some v else none) c
  or_else_if true v c = refl
  or_else_if false v c = refl

module _ {K V : Type 0} ⦃eq : Eq K⦄ where
  unfoldable pub lookup : K → Map K V → Option V
  lookup k [] = none
  lookup k (e ∷ m) = if eq.same e.0 k then some e.1 else lookup k m

  unfoldable pub delete : K → Map K V → Map K V
  delete k [] = []
  delete k (e ∷ m) = let rest = delete k m in if eq.same e.0 k then rest else e ∷ rest

  -- `m[k] = v`
  unfoldable pub assign : K → V → Map K V → Map K V
  assign k v m = (k, v) ∷ delete k m

  -- The assignments of a loop, in turn.
  unfoldable pub assign_all : List (K × V) → Map K V → Map K V
  unfolding assign
  assign_all [] m = m
  assign_all (e ∷ es) m = assign_all es (assign e.0 e.1 m)

  -- The last entry of a key.
  unfoldable pub last_of : K → List (K × V) → Option V
  last_of k [] = none
  last_of k (e ∷ es) = or_else (last_of k es) (if eq.same e.0 k then some e.1 else none)

  pub lookup-delete_same : (k : K) (m : Map K V) → lookup k (delete k m) ≡ none
  unfolding lookup delete
  lookup-delete_same k [] = refl
  lookup-delete_same k (e ∷ m) = elim (Bool-cases (eq.same e.0 k)) [
    | inl h ↦ rw h (lookup-delete_same k m)
    | inr h ↦ rw (h, h) (lookup-delete_same k m)
  ]

  pub lookup-delete_other :
      (k j : K) (m : Map K V) → eq.same j k ≡ false → lookup k (delete j m) ≡ lookup k m
  unfolding lookup delete
  lookup-delete_other k j [] n = refl
  lookup-delete_other k j (e ∷ m) n = elim (Bool-cases (eq.same e.0 j)) [
    | inl h ↦
        let here : e.0 ≡ j = (eq.same_iff e.0 j).0 h in
        let not_k : eq.same e.0 k ≡ false = rw here n in rw (h, not_k) (lookup-delete_other k j m n)
    | inr h ↦ rw h (elim (Bool-cases (eq.same e.0 k)) [
      | inl g ↦ rw g refl
      | inr g ↦ rw g (lookup-delete_other k j m n)
    ])
  ]

  pub lookup-assign :
      (k j : K) (v : V) (m : Map K V)
      → lookup k (assign j v m) ≡ (if eq.same j k then some v else lookup k m)
  unfolding lookup assign
  lookup-assign k j v m = elim (Bool-cases (eq.same j k)) [
    | inl h ↦ rw h refl
    | inr h ↦ rw h (lookup-delete_other k j m h)
  ]

  -- What a key holds after a loop of assignments: the last one, or what it held.
  pub lookup-assign_all :
      (k : K) (es : List (K × V)) (m : Map K V)
      → lookup k (assign_all es m) ≡ or_else (last_of k es) (lookup k m)
  unfolding assign_all last_of
  lookup-assign_all k [] m = refl
  lookup-assign_all k (e ∷ es) m =
      rw
        (
          lookup-assign_all k es (assign e.0 e.1 m),
          lookup-assign k e.0 e.1 m,
          or_else_if (eq.same e.0 k) e.1 (lookup k m),
        )
        (or_else_assoc (last_of k es) (if eq.same e.0 k then some e.1 else none) (lookup k m))
