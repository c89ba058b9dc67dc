-- ===== src/Std/Map.antt =====
-- std::unordered_map as an association list with distinct keys, and std::map of texts as one in
-- the order of its keys: find, operator[] with an assignment, and erase.
use mathlib.Core.Path.{◌≡◌}
use http.Prelude.{
  compare, Ordering, refl, List, [], ◌∷◌, Option, none, some, arith, Eq, same, same_iff,
  if◌then◌else◌, text_eq,
}
use http.Std.Text.{Text}

module _ {ℓ κ} {K : Type ℓ} {V : Type κ} ⦃e : Eq K⦄ where
  unfoldable pub lookup : K → List (K × V) → Option V
  lookup k [] = none
  lookup k ((j, v) ∷ m) = if same j k then some v else lookup k m

  unfoldable pub insert : K → V → List (K × V) → List (K × V)
  insert k v [] = (k, v) ∷ []
  insert k v ((j, w) ∷ m) = if same j k then (k, v) ∷ m else (j, w) ∷ insert k v m

  unfoldable pub erase : K → List (K × V) → List (K × V)
  erase k [] = []
  erase k ((j, w) ∷ m) = let rest = erase k m in if same j k then rest else (j, w) ∷ rest

  pub lookup-insert :
      (k j : K) (v : V) (m : List (K × V))
      → lookup j (insert k v m) ≡ (if same k j then some v else lookup j m)
  unfolding lookup insert
  lookup-insert k j v [] = refl
  lookup-insert k j v ((i, w) ∷ m) =
      ground (arith, same_iff k j, same_iff i k, same_iff i j, lookup-insert k j v m)

  pub lookup-erase :
      (k j : K) (m : List (K × V)) → lookup j (erase k m) ≡ (if same k j then none else lookup j m)
  unfolding lookup erase
  lookup-erase k j [] = ground arith
  lookup-erase k j ((i, w) ∷ m) =
      ground (arith, same_iff k j, same_iff i k, same_iff i j, lookup-erase k j m)

-- std::string's operator<, by bytes.
unfoldable pub compare_text : Text → Text → Ordering
compare_text [] [] = Ordering.eq
compare_text [] (y ∷ t) = Ordering.lt
compare_text (x ∷ s) [] = Ordering.gt
compare_text (x ∷ s) (y ∷ t) =
    let rest = compare_text s t in
    elim (compare x y) [
      | Ordering.eq ↦ rest
      | Ordering.lt ↦ Ordering.lt
      | Ordering.gt ↦ Ordering.gt
    ]

pub compare_text-eq : (s t : Text) → compare_text s t ≡ Ordering.eq → s ≡ t
unfolding compare_text
compare_text-eq [] [] h = refl
compare_text-eq [] (y ∷ t) h = absurd (ground arith)
compare_text-eq (x ∷ s) [] h = absurd (ground arith)
compare_text-eq (x ∷ s) (y ∷ t) h = ground (arith, compare_text-eq s t)

pub compare_text_refl : (s : Text) → compare_text s s ≡ Ordering.eq
unfolding compare_text
compare_text_refl [] = refl
compare_text_refl (x ∷ s) = ground (arith, compare_text_refl s)

module _ {κ} {V : Type κ} where
  unfoldable pub insert_sorted : Text → V → List (Text × V) → List (Text × V)
  insert_sorted k v [] = (k, v) ∷ []
  insert_sorted k v ((j, w) ∷ m) =
      let rest = insert_sorted k v m in
      elim (compare_text k j) [
        | Ordering.lt ↦ (k, v) ∷ (j, w) ∷ m
        | Ordering.eq ↦ (k, v) ∷ m
        | Ordering.gt ↦ (j, w) ∷ rest
      ]

  pub lookup-insert_sorted :
      (k j : Text) (v : V) (m : List (Text × V))
      → lookup j (insert_sorted k v m) ≡ (if same k j then some v else lookup j m)
  unfolding lookup insert_sorted
  lookup-insert_sorted k j v [] = refl
  lookup-insert_sorted k j v ((i, w) ∷ m) = ground (
    arith,
    same_iff k j,
    same_iff i j,
    same_iff i k,
    compare_text-eq k i,
    compare_text_refl k,
    lookup-insert_sorted k j v m,
  )
