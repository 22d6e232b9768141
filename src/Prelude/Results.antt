-- ===== src/Prelude/Results.antt =====
-- Code that may throw: a value, or the fixed part of the error's message. What a template literal
-- puts into a message is left out.
use Prim.Native.Nat.{suc}
use Prim.Native.String.{String}
use mathlib.Core.Path.{◌≡◌, refl, sym, ap, ap₂, ◌∙◌}
use mathlib.Core.Logic.{◌⊎◌, inl, inr}
use mathlib.Core.Bool.{Bool, true, false}
use mathlib.Core.Option.{Option, none, some}
use mathlib.Core.List.{List, [], ◌∷◌, map}
use sonari.Prelude.Lists.{length}

pub data Result {ℓ} (A : Type ℓ) : Type ℓ where
  ok : A → Result A
  throw : String → Result A

module _ {ℓ κ} {A : Type ℓ} {B : Type κ} where
  infixl 5 ◌>>=◌
  -- What follows a value runs on it, and an error passes by.
  abbrev pub ◌>>=◌ : Result A → (A → Result B) → Result B
  ok value >>= next = next value
  throw message >>= next = throw message

-- `if (!test) throw new Error(message)`
abbrev pub require : Bool → String → Result (Unit {0})
require test message = elim test [ true ↦ ok tt | false ↦ throw message ]

infixl 5 ◌>>◌
abbrev pub ◌>>◌ {κ} : {B : Type κ} → Result (Unit {0}) → Result B → Result B
checked >> then_do = checked >>= λ _. then_do

-- A value that is never `undefined` where the code is right.
abbrev pub expect_some {ℓ} : {A : Type ℓ} → Option A → String → Result A
expect_some none e = throw e
expect_some (some a) e = ok a

-- `Array.prototype.map` with a body that may throw: the first error stops it.
abbrev pub traverse {ℓ κ} : {A : Type ℓ} {B : Type κ} → (A → Result B) → List A → Result (List B)
traverse f [] = ok []
traverse f (x ∷ xs) = do y ← f x; ys ← traverse f xs; ok (y ∷ ys)

-- `a ?? b`
abbrev pub coalesce {ℓ} : {A : Type ℓ} → Option A → Option A → Option A
coalesce none b = b
coalesce (some a) b = some a

pub Result-cases {ℓ} :
    {A : Type ℓ} (r : Result A) → ((a : A) × (r ≡ ok a)) ⊎ ((e : String) × (r ≡ throw e))
Result-cases (ok a) = inl (a, refl)
Result-cases (throw e) = inr (e, refl)

pub some-cancel {ℓ} : {A : Type ℓ} {a b : A} → some a ≡ some b → a ≡ b
some-cancel e = cc

pub none-some {ℓ} : {A : Type ℓ} {a : A} → none ≡ some a → ⊥
none-some e = cc

pub false-true : false ≡ true → ⊥
false-true e = cc

pub ok-injective {ℓ} : {A : Type ℓ} {a b : A} → ok a ≡ ok b → a ≡ b
ok-injective e = cc

-- Inversion of a bind that returned, handing the parts on as variables.
pub >>=-elim_ok {ℓ κ μ} :
    {A : Type ℓ} {B : Type κ} {C : Type μ} (m : Result A) (f : A → Result B) {b : B}
    → (m >>= f) ≡ ok b
    → ((a : A) → m ≡ ok a → f a ≡ ok b → C)
    → C
>>=-elim_ok (ok a) f h k = k a refl h
>>=-elim_ok (throw e) f h k = absurd (cc)

-- A traversal that returned kept the number of elements.
pub traverse-map {ℓ κ μ} :
    {A : Type ℓ} {B : Type κ} {C : Type μ} (f : A → Result B) (g : A → C) (h : B → C)
    → ((a : A) (b : B) → f a ≡ ok b → h b ≡ g a)
    → (xs : List A) {ys : List B} → traverse f xs ≡ ok ys
    → map h ys ≡ map g xs
traverse-map f g h same [] e = ap (map h) (sym (ok-injective e))
traverse-map f g h same (x ∷ xs) {ys} e = >>=-elim_ok (f x) _ e λ y y_ok e'.
    >>=-elim_ok (traverse f xs) _ e' λ rest rest_ok done.
      ap (map h) (sym (ok-injective done))
      ∙ ap₂ ◌∷◌ (same x y y_ok) (traverse-map f g h same xs rest_ok)

pub traverse-length {ℓ κ} :
    {A : Type ℓ} {B : Type κ} (f : A → Result B) (xs : List A) {ys : List B}
    → traverse f xs ≡ ok ys
    → length ys ≡ length xs
traverse-length f [] e = ap (λ l. length l) (sym (ok-injective e))
traverse-length f (x ∷ xs) {ys} e = >>=-elim_ok (f x) _ e λ y y_ok e'.
    >>=-elim_ok (traverse f xs) _ e' λ rest rest_ok done.
      ap (λ l. length l) (sym (ok-injective done)) ∙ ap suc (traverse-length f xs rest_ok)

-- The same as a triple.
pub >>=-eq-ok {ℓ κ} :
    {A : Type ℓ} {B : Type κ} (first : Result A) (next : A → Result B) {result : B}
    → (first >>= next) ≡ ok result
    → (value : A) × (first ≡ ok value) × (next value ≡ ok result)
>>=-eq-ok first next returned =
    >>=-elim_ok first next returned λ value first_ok next_ok. (value, first_ok, next_ok)
