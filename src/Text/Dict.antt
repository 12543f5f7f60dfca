-- ===== src/Text/Dict.antt =====
-- A map with texts for keys, as the list of its entries in the order of insertion.
use orbitport.Base.{◌≡◌, ◌≢◌, refl, List, [], ◌∷◌, ◌++◌, Option, none, some, arith, if◌then◌else◌}
use orbitport.Text.{Text, text_eq}
use orbitport.Text.Equal.{text_eq_iff}

module _ {V : Type 0} where
  unfoldable pub lookup : Text → List (Text × V) → Option V
  lookup k [] = none
  lookup k ((j, v) ∷ m) = if text_eq j k then some v else lookup k m

  unfoldable pub put : Text → V → List (Text × V) → List (Text × V)
  put k v [] = (k, v) ∷ []
  put k v ((j, w) ∷ m) = if text_eq j k then (k, v) ∷ m else (j, w) ∷ put k v m

  pub lookup-put :
      (k j : Text) (v : V) (m : List (Text × V))
      → lookup j (put k v m) ≡ (if text_eq k j then some v else lookup j m)
  unfolding lookup put
  lookup-put k j v [] = refl
  lookup-put k j v ((i, w) ∷ m) =
      ground (arith, text_eq_iff k j, text_eq_iff i k, text_eq_iff i j, lookup-put k j v m)

  pub put_fresh :
      (k : Text) (v : V) (m : List (Text × V)) → lookup k m ≡ none → put k v m ≡ m ++ (k, v) ∷ []
  unfolding put lookup
  put_fresh k v [] h = refl
  put_fresh k v ((j, w) ∷ m) h = ground (arith, put_fresh k v m)

  pub lookup-put_ne :
      (k j : Text) (v : V) (m : List (Text × V)) → k ≢ j → lookup j (put k v m) ≡ lookup j m
  lookup-put_ne k j v m h = ground (arith, lookup-put k j v m, text_eq_iff k j)

  pub lookup-put_same : (k : Text) (v : V) (m : List (Text × V)) → lookup k (put k v m) ≡ some v
  lookup-put_same k v m = ground (arith, lookup-put k k v m, text_eq_iff k k)
