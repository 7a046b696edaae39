-- ===== src/Prelude/Sort.antt =====
-- `sort_by_key` as a stable insertion sort, and membership in a list by recursion.
use Prim.Native.Nat.{ℕ, ◌≤◌}
use mathlib.Core.Path.{◌≡◌, refl, ap, ◌∙◌}
use mathlib.Core.Bool.{Bool, ◌||◌}
use mathlib.Core.Logic.{◌⊎◌, inl, inr}
use mathlib.Core.List.{List, [], ◌∷◌}
use native.Mathlib.Omega.{arith}
use fubun.Prelude.Tests.{leb, leb→le, Bool-cases, if◌then◌else◌}
use fubun.Prelude.Lists.{All, any}

abbrev pub Elem : {A : Type 0} → A → List A → Type 0
Elem a [] = ⊥
Elem a (x ∷ xs) = (x ≡ a) ⊎ Elem a xs

module _ {A : Type 0} where
  pub All_at : (P : A → Type 0) (a : A) (xs : List A) → All P xs → Elem a xs → P a
  All_at P a [] h e = absurd e
  All_at P a (x ∷ xs) h (inl e) = rw e at (h.0)
  All_at P a (x ∷ xs) h (inr e) = All_at P a xs h.1 e

  module _ (key : A → ℕ) where
    insert_sorted : A → List A → List A
    insert_sorted a [] = a ∷ []
    insert_sorted a (x ∷ xs) = if leb (key a) (key x) then a ∷ x ∷ xs else x ∷ insert_sorted a xs

    unfoldable pub sort_by_key : List A → List A
    unfolding insert_sorted
    sort_by_key [] = []
    sort_by_key (x ∷ xs) = insert_sorted x (sort_by_key xs)

    abbrev pub IsLeast : A → List A → Type 0
    IsLeast a xs = Elem a xs × All (λ x. key a ≤ key x) xs

    abbrev pub HeadIsLeast : List A → List A → Type 0
    HeadIsLeast [] xs = xs ≡ []
    HeadIsLeast (y ∷ ys) xs = IsLeast y xs

    All-le :
        (a b : A) (xs : List A)
        → key a ≤ key b
        → All (λ x. key b ≤ key x) xs
        → All (λ x. key a ≤ key x) xs
    All-le a b [] h k = tt
    All-le a b (x ∷ xs) h k = (omega arith, All-le a b xs h k.1)

    insert_sorted-HeadIsLeast :
        (a : A) (ys xs : List A) → HeadIsLeast ys xs → HeadIsLeast (insert_sorted a ys) (a ∷ xs)
    unfolding insert_sorted
    insert_sorted-HeadIsLeast a [] xs h = rw h (inl refl, (omega arith, tt))
    insert_sorted-HeadIsLeast a (y ∷ ys) xs h = elim (Bool-cases (leb (key a) (key y))) [
      | inl le ↦ rw le (inl refl, (omega arith, All-le a y xs (leb→le _ _ le) h.1))
      | inr gt ↦ rw gt (inr h.0, (ground arith, h.1))
    ]

    pub sort_by_key-HeadIsLeast : (xs : List A) → HeadIsLeast (sort_by_key xs) xs
    unfolding sort_by_key
    sort_by_key-HeadIsLeast [] = refl
    sort_by_key-HeadIsLeast (x ∷ xs) =
        insert_sorted-HeadIsLeast x (sort_by_key xs) xs (sort_by_key-HeadIsLeast xs)

    any-insert_sorted :
        (p : A → Bool) (a : A) (xs : List A) → any p (insert_sorted a xs) ≡ (p a || any p xs)
    unfolding insert_sorted
    any-insert_sorted p a [] = refl
    any-insert_sorted p a (x ∷ xs) = ground (arith, any-insert_sorted p a xs)

    pub any-sort_by_key : (p : A → Bool) (xs : List A) → any p (sort_by_key xs) ≡ any p xs
    unfolding sort_by_key
    any-sort_by_key p [] = refl
    any-sort_by_key p (x ∷ xs) =
        any-insert_sorted p x (sort_by_key xs) ∙ ap (λ b. p x || b) (any-sort_by_key p xs)
