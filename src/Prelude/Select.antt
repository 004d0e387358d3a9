-- ===== src/Prelude/Select.antt =====
-- The SQL statements that the storage layer is made of: SELECT ... WHERE, UPDATE ... WHERE,
-- ORDER BY and COUNT(*), over a list of rows in rowid order.
use Prim.Native.Nat.{ℕ, ◌+◌}
use mathlib.Core.Path.{◌≡◌, refl}
use mathlib.Core.Logic.{◌↔◌, inl, inr}
use mathlib.Core.Bool.{Bool, true, false, Bool-discrete}
use mathlib.Core.List.{List, [], ◌∷◌, ◌++◌, map, filter, Mem, Perm, mem-filter}
use mathlib.Core.List.Perm
use mathlib.Core.Option.{Option, none, some}
use native.Mathlib.Omega.{arith}
use ubki_uploader.Prelude.Tests.{if◌then◌else◌, Bool-cases}
use ubki_uploader.Prelude.Lists.{All, All-imp}

module _ {ℓ} {A : Type ℓ} where
  -- SELECT * FROM rows WHERE p
  abbrev pub select : (A → Bool) → List A → List A
  select p = filter (λ x. Bool-discrete (p x) true)

  -- fetchone() on such a SELECT
  abbrev pub select_one : (A → Bool) → List A → Option A
  select_one p [] = none
  select_one p (x ∷ xs) = if p x then some x else select_one p xs

  -- SELECT COUNT(*) FROM rows WHERE p; also the `rowcount` of an UPDATE
  abbrev pub count_where : (A → Bool) → List A → ℕ
  count_where p [] = 0
  count_where p (x ∷ xs) = (if p x then 1 else 0) + count_where p xs

  -- UPDATE rows SET f WHERE p
  abbrev pub update_where : (A → Bool) → (A → A) → List A → List A
  update_where p f [] = []
  update_where p f (x ∷ xs) = (if p x then f x else x) ∷ update_where p f xs

  pub mem-select :
      (p : A → Bool) (xs : List A) (x : A) → Mem x (select p xs) ↔ (Mem x xs × (p x ≡ true))
  mem-select p xs x = mem-filter (λ y. Bool-discrete (p y) true)

  pub select-append :
      (p : A → Bool) (xs ys : List A) → select p (xs ++ ys) ≡ select p xs ++ select p ys
  select-append p [] ys = refl
  select-append p (x ∷ xs) ys = ground (arith, select-append p xs ys)

  pub count-append :
      (p : A → Bool) (xs ys : List A)
      → count_where p (xs ++ ys) ≡ count_where p xs + count_where p ys
  count-append p [] ys = omega arith
  count-append p (x ∷ xs) ys = ground (arith, count-append p xs ys)

  pub map-update_where {κ} :
      {B : Type κ} (key : A → B) (p : A → Bool) (f : A → A)
      → ((x : A) → key (f x) ≡ key x)
      → (xs : List A) → map key (update_where p f xs) ≡ map key xs
  map-update_where key p f same [] = refl
  map-update_where key p f same (x ∷ xs) = ground (arith, same x, map-update_where key p f same xs)

pub All-update_where {ℓ κ} :
    {A : Type ℓ} (P : A → Type κ) (p : A → Bool) (f : A → A)
    → ((x : A) → p x ≡ true → P x → P (f x))
    → (xs : List A) → All P xs
    → All P (update_where p f xs)
All-update_where P p f keep [] h = tt
All-update_where P p f keep (x ∷ xs) (h, t) = elim (Bool-cases (p x)) [
  | inl e ↦ rw e (keep x e h, All-update_where P p f keep xs t)
  | inr e ↦ rw e (h, All-update_where P p f keep xs t)
]

module _ {ℓ} {A : Type ℓ} (before : A → A → Bool) where
  -- ORDER BY: rows that compare equal keep their rowid order.
  pub insert_by : A → List A → List A
  insert_by x [] = x ∷ []
  insert_by x (y ∷ ys) = if before x y then x ∷ y ∷ ys else y ∷ insert_by x ys

  unfoldable pub order_by : List A → List A
  unfolding insert_by
  order_by [] = []
  order_by (x ∷ xs) = insert_by x (order_by xs)

  insert_by-perm : (x : A) (ys : List A) → Perm (insert_by x ys) (x ∷ ys)
  unfolding insert_by
  insert_by-perm x [] = Perm.refl _
  insert_by-perm x (y ∷ ys) = elim (Bool-cases (before x y)) [
    | inl h ↦ rw h (Perm.refl _)
    | inr h ↦ rw h (Perm.trans (Perm.cons y (insert_by-perm x ys)) (Perm.swap x y ys))
  ]

  pub order_by-perm : (xs : List A) → Perm (order_by xs) xs
  unfolding order_by
  order_by-perm [] = Perm.refl _
  order_by-perm (x ∷ xs) =
      Perm.trans (insert_by-perm x (order_by xs)) (Perm.cons x (order_by-perm xs))

  count-insert_by :
      (p : A → Bool) (x : A) (ys : List A) → count_where p (insert_by x ys) ≡ count_where p (x ∷ ys)
  unfolding insert_by
  count-insert_by p x [] = refl
  count-insert_by p x (y ∷ ys) = ground (arith, count-insert_by p x ys)

  pub count-order_by : (p : A → Bool) (xs : List A) → count_where p (order_by xs) ≡ count_where p xs
  unfolding order_by
  count-order_by p [] = refl
  count-order_by p (x ∷ xs) = ground (arith, count-insert_by p x (order_by xs), count-order_by p xs)

  abbrev pub IsOrdered : List A → Type 0
  IsOrdered [] = Unit
  IsOrdered (x ∷ xs) = All (λ y. before x y ≡ true) xs × IsOrdered xs

  insert_by-All : (P : A → Type 0) (x : A) (ys : List A) → P x → All P ys → All P (insert_by x ys)
  unfolding insert_by
  insert_by-All P x [] px h = (px, tt)
  insert_by-All P x (y ∷ ys) px (py, h) = elim (Bool-cases (before x y)) [
    | inl e ↦ rw e (px, (py, h))
    | inr e ↦ rw e (py, insert_by-All P x ys px h)
  ]

  module _ (total : (a b : A) → before a b ≡ false → before b a ≡ true)
      (chain : (a b c : A) → before a b ≡ true → before b c ≡ true → before a c ≡ true) where
    insert_by-IsOrdered : (x : A) (ys : List A) → IsOrdered ys → IsOrdered (insert_by x ys)
    unfolding insert_by
    insert_by-IsOrdered x [] h = (tt, tt)
    insert_by-IsOrdered x (y ∷ ys) (above, h) = elim (Bool-cases (before x y)) [
      | inl e ↦
          rw e ((e, All-imp (λ z. before y z ≡ true) _ (λ z. chain x y z e) ys above), (above, h))
      | inr e ↦ rw e (insert_by-All _ x ys (total x y e) above, insert_by-IsOrdered x ys h)
    ]

    pub order_by-IsOrdered : (xs : List A) → IsOrdered (order_by xs)
    unfolding order_by
    order_by-IsOrdered [] = tt
    order_by-IsOrdered (x ∷ xs) = insert_by-IsOrdered x (order_by xs) (order_by-IsOrdered xs)
