-- ===== src/Common/HashMap.antt =====
-- The standard library's `HashMap`, as an association list over keys with a decidable equality.
use mathlib.Core.Path.{◌≡◌, refl, ◌∙◌}
use mathlib.Core.Logic.{ite, if_pos, if_neg, ◌≢◌}
use mathlib.Core.Option.{Option, none, some}
use mathlib.Core.List.{List, [], ◌∷◌}
use native.Mathlib.Omega.{arith}

pub record HashMap (K : Type 0) (V : Type 0) : Type 0 where
  pub entries : List (K × V)

module _ {K V : Type 0} where
  abbrev pub empty : HashMap K V
  empty = record { entries = [] }

module _ {K V : Type 0} (dec : Discrete K) where
  unfoldable pub get_entry : K → List (K × V) → Option V
  get_entry k [] = none
  get_entry k ((j, v) ∷ m) = ite (dec j k) (some v) (get_entry k m)

  unfoldable pub insert_entry : K → V → List (K × V) → List (K × V)
  insert_entry k v [] = (k, v) ∷ []
  insert_entry k v ((j, w) ∷ m) = ite (dec j k) ((k, v) ∷ m) ((j, w) ∷ insert_entry k v m)

  unfoldable pub get : HashMap K V → K → Option V
  unfolding get_entry
  get m k = get_entry k m.entries

  unfoldable pub insert : HashMap K V → K → V → HashMap K V
  unfolding insert_entry
  insert m k v = record { entries = insert_entry k v m.entries }

  unfoldable pub remove_entry : K → List (K × V) → List (K × V)
  remove_entry k [] = []
  remove_entry k ((j, v) ∷ m) = ite (dec j k) (remove_entry k m) ((j, v) ∷ remove_entry k m)

  -- The map without the key; what it had is found by `get`.
  unfoldable pub remove : HashMap K V → K → HashMap K V
  unfolding remove_entry
  remove m k = record { entries = remove_entry k m.entries }

  get_entry-insert_entry :
      (k j : K) (v : V) (m : List (K × V))
      → get_entry j (insert_entry k v m) ≡ ite (dec k j) (some v) (get_entry j m)
  unfolding get_entry insert_entry
  get_entry-insert_entry k j v [] = refl
  get_entry-insert_entry k j v ((i, w) ∷ m) = ground (arith, get_entry-insert_entry k j v m)

  pub get-insert :
      (m : HashMap K V) (k j : K) (v : V) → get (insert m k v) j ≡ ite (dec k j) (some v) (get m j)
  unfolding get insert
  get-insert m k j v = get_entry-insert_entry k j v m.entries

  pub get-insert_self : (m : HashMap K V) (k : K) (v : V) → get (insert m k v) k ≡ some v
  get-insert_self m k v = get-insert m k k v ∙ if_pos (dec k k) refl (some v) (get m k)

  pub get-insert_ne : (m : HashMap K V) (k j : K) (v : V) → k ≢ j → get (insert m k v) j ≡ get m j
  get-insert_ne m k j v ne = get-insert m k j v ∙ if_neg (dec k j) ne (some v) (get m j)

  get_entry-remove_entry : (k : K) (m : List (K × V)) → get_entry k (remove_entry k m) ≡ none
  unfolding get_entry remove_entry
  get_entry-remove_entry k [] = refl
  get_entry-remove_entry k ((i, w) ∷ m) = ground (arith, get_entry-remove_entry k m)

  pub get-remove_self : (m : HashMap K V) (k : K) → get (remove m k) k ≡ none
  unfolding get remove
  get-remove_self m k = get_entry-remove_entry k m.entries
