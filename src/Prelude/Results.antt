-- ===== src/Prelude/Results.antt =====
-- Rust's `Result`, the `?` operator as `>>=`, and formatted messages.
use Prim.Native.Nat.{ℕ}
use Prim.Native.String.{String}
use mathlib.Core.Path.{◌≡◌, refl}
use mathlib.Core.Logic.{◌⊎◌, inl, inr}
use mathlib.Core.Option.{Option, none, some}
use mathlib.Core.List.{List, [], ◌∷◌}
use native.Mathlib.Omega.{arith}
use mev_relay_rs.Prelude.Lists.{length}

pub data Result {ℓ κ} (E : Type ℓ) (A : Type κ) : Type (ℓ ⊔ κ) where
  ok : A → Result E A
  err : E → Result E A

-- What a `format!` builds, before it is rendered: the literal texts and the numbers put in.
pub data Piece : Type 0 where
  text : String → Piece
  num : ℕ → Piece

abbrev pub Message : Type 0
Message = List Piece

abbrev pub msg : String → Message
msg s = text s ∷ []

infixl 5 ◌>>=◌ ◌>>◌
abbrev pub ◌>>=◌ {ℓ κ μ} :
    {E : Type ℓ} {A : Type κ} {B : Type μ} → Result E A → (A → Result E B) → Result E B
ok x >>= next = next x
err e >>= next = err e

abbrev pub ◌>>◌ {ℓ μ} : {E : Type ℓ} {B : Type μ} → Result E (Unit {0}) → Result E B → Result E B
r >> next = r >>= λ _. next

module _ {ℓ κ} {E : Type ℓ} {A : Type κ} where
  -- `Option::ok_or`
  abbrev pub ok_or : Option A → E → Result E A
  ok_or none e = err e
  ok_or (some a) e = ok a

  -- `Result::map_err`
  abbrev pub map_err {μ} : {F : Type μ} → Result E A → (E → F) → Result F A
  map_err (ok a) f = ok a
  map_err (err e) f = err (f e)

pub Result-cases {ℓ κ} :
    {E : Type ℓ} {A : Type κ} (r : Result E A) → ((a : A) × (r ≡ ok a)) ⊎ ((e : E) × (r ≡ err e))
Result-cases (ok a) = inl (a, refl)
Result-cases (err e) = inr (e, refl)

pub ok-injective {ℓ κ} :
    {E : Type ℓ} {A : Type κ} (r : Result E A) (a c : A) → r ≡ ok a → r ≡ ok c → a ≡ c
ok-injective r a c e f = cc

-- A chain that succeeds has a successful first step, and its value is what the next step took.
pub >>=-eq-ok {ℓ κ μ} :
    {E : Type ℓ} {A : Type κ} {B : Type μ} (r : Result E A) (next : A → Result E B) {y : B}
    → (r >>= next) ≡ ok y
    → (x : A) × (r ≡ ok x) × (next x ≡ ok y)
>>=-eq-ok (ok x) next p = (x, refl, p)
>>=-eq-ok (err z) next p = cc

-- `into_iter().map(f).collect::<Result<Vec<_>, _>>()`: the first error stops it.
module _ {ℓ κ μ} {E : Type ℓ} {A : Type κ} {B : Type μ} where
  abbrev pub collect : (A → Result E B) → List A → Result E (List B)
  collect f [] = ok []
  collect f (x ∷ xs) = f x >>= λ y. collect f xs >>= λ ys. ok (y ∷ ys)

  pub length-collect :
      (f : A → Result E B) (xs : List A) (ys : List B)
      → collect f xs ≡ ok ys
      → length ys ≡ length xs
  length-collect f [] [] e = refl
  length-collect f [] (y ∷ ys) e = cc
  length-collect f (x ∷ xs) [] e =
      let (a, _, r) = >>=-eq-ok (f x) _ e in let (b, _, t) = >>=-eq-ok (collect f xs) _ r in cc
  length-collect f (x ∷ xs) (y ∷ ys) e =
      let (a, _, r) = >>=-eq-ok (f x) _ e in
      let (b, q, t) = >>=-eq-ok (collect f xs) _ r in
      let tails : b ≡ ys = cc in omega (arith, length-collect f xs ys (cc (q, tails)))
