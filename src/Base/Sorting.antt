-- ===== src/Base/Sorting.antt =====
-- `Array.prototype.sort` on texts and on entries by their keys: by code units, and stable.
use mathlib.Core.Path.{◌≡◌, refl, ap₂, ◌∙◌}
use mathlib.Core.Logic.{∥∥₁_elim}
use mathlib.Core.Bool.{Bool, true, false}
use mathlib.Core.List.{List, [], ◌∷◌, Perm, Permᴰ}
use native.Mathlib.Omega.{arith}
use advanced_search_api.Base.Tests.{ltb, ◌==◌, if◌then◌else◌}
use advanced_search_api.Base.Texts.{Text}

-- The order of texts by UTF-16 code units.
unfoldable pub text_le : Text → Text → Bool
text_le [] t = true
text_le (a ∷ s) [] = false
text_le (a ∷ s) (b ∷ t) = let rest = text_le s t in if a == b then rest else ltb a b

pub text_le_antisym : (s t : Text) → text_le s t ≡ true → text_le t s ≡ true → s ≡ t
unfolding text_le
text_le_antisym [] [] h k = refl
text_le_antisym [] (b ∷ t) h k = cc
text_le_antisym (a ∷ s) [] h k = cc
text_le_antisym (a ∷ s) (b ∷ t) h k = ground (arith, text_le_antisym s t)

pub text_le_total : (s t : Text) → text_le s t ≡ false → text_le t s ≡ true
unfolding text_le
text_le_total [] t h = cc
text_le_total (a ∷ s) [] h = refl
text_le_total (a ∷ s) (b ∷ t) h = ground (arith, text_le_total s t)

pub text_le_trans : (s t u : Text) → text_le s t ≡ true → text_le t u ≡ true → text_le s u ≡ true
unfolding text_le
text_le_trans [] t u h k = refl
text_le_trans (a ∷ s) [] u h k = cc
text_le_trans (a ∷ s) (b ∷ t) [] h k = cc
text_le_trans (a ∷ s) (b ∷ t) (c ∷ u) h k = ground (arith, text_le_trans s t u)

module _ {A : Type 0} (key : A → Text) where
  unfoldable pub insert_by : A → List A → List A
  insert_by x [] = x ∷ []
  insert_by x (y ∷ l) =
      let rest = insert_by x l in if text_le (key x) (key y) then x ∷ y ∷ l else y ∷ rest

  unfoldable pub sort_by : List A → List A
  unfolding insert_by text_le
  sort_by [] = []
  sort_by (x ∷ l) = insert_by x (sort_by l)

  -- The order of two insertions matters only between items of one key.
  pub insert_by_comm :
      (x y : A) (l : List A)
      → (text_le (key x) (key y) ≡ true → text_le (key y) (key x) ≡ true → x ≡ y)
      → insert_by x (insert_by y l) ≡ insert_by y (insert_by x l)
  unfolding insert_by
  insert_by_comm x y [] same =
      ground (arith, same, text_le_total (key x) (key y), text_le_total (key y) (key x))
  insert_by_comm x y (z ∷ l) same = ground (
    arith,
    same,
    insert_by_comm x y l same,
    text_le_total (key x) (key y),
    text_le_total (key y) (key x),
    text_le_trans (key x) (key y) (key z),
    text_le_trans (key y) (key x) (key z),
  )

abbrev itself : Text → Text
itself t = t

-- Sorted texts: `[...ts].sort()`.
unfoldable pub sort_texts : List Text → List Text
unfolding sort_by
sort_texts l = sort_by itself l

sort_texts-permᴰ : {l m : List Text} → Permᴰ l m → sort_texts l ≡ sort_texts m
unfolding sort_texts
sort_texts-permᴰ Permᴰ.nil = refl
sort_texts-permᴰ (Permᴰ.cons e p) = ap₂ (insert_by itself) e (sort_texts-permᴰ p)
sort_texts-permᴰ (Permᴰ.swap {a = a} {b = b} {l = l} e f) =
    insert_by_comm itself a b (sort_by itself l) (text_le_antisym a b)
    ∙ ap₂ (λ x y. insert_by itself x (insert_by itself y (sort_by itself l))) f e
sort_texts-permᴰ (Permᴰ.trans p q) = sort_texts-permᴰ p ∙ sort_texts-permᴰ q

texts_set : IsSet (List Text)
texts_set = hlevel

pub sort_texts-perm : {l m : List Text} → Perm l m → sort_texts l ≡ sort_texts m
sort_texts-perm p = ∥∥₁_elim p (texts_set _ _) sort_texts-permᴰ
