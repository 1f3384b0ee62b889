-- ===== src/Data/Map.antt =====
-- Go's `map[K]V`, behind its laws. A key that occurs twice in the list below counts once, by its
-- first entry, so that the laws have no side condition.
pub mod Range
use mathlib.Core.Option
use wireguard_babeld_igp.Base.{◌≡◌, refl, ite, List, [], ◌∷◌, Option, none, some, arith, Key, ◌=?◌}

pub record Map {ℓ} (K V : Type ℓ) : Type ℓ where
  pub entries : List (K × V)

module _ {ℓ} {K V : Type ℓ} where
  abbrev pub empty : Map K V
  empty = record { entries = [] }

module _ {ℓ} {K V : Type ℓ} where
  change_each : (V → V) → List (K × V) → List (K × V)
  change_each f [] = []
  change_each f ((j, v) ∷ l) = (j, f v) ∷ change_each f l

  -- What becomes of a map of pointers when the values behind all of them are changed.
  unfoldable pub change_values : (V → V) → Map K V → Map K V
  unfolding change_each
  change_values f m = record { entries = change_each f m.entries }

module _ {ℓ} {K V : Type ℓ} ⦃k : Key K⦄ where
  find : K → List (K × V) → Option V
  find key [] = none
  find key ((j, v) ∷ l) = ite (j =? key) (some v) (find key l)

  without : K → List (K × V) → List (K × V)
  without key [] = []
  without key ((j, v) ∷ l) = let rest = without key l in ite (j =? key) rest ((j, v) ∷ rest)

  -- m[key], with `none` for `ok == false`
  unfoldable pub get : Map K V → K → Option V
  unfolding find
  get m key = find key m.entries

  -- delete(m, key)
  unfoldable pub delete : Map K V → K → Map K V
  unfolding without
  delete m key = record { entries = without key m.entries }

  -- m[key] = v
  unfoldable pub put : Map K V → K → V → Map K V
  unfolding without
  put m key v = record { entries = (key, v) ∷ without key m.entries }

  distinct : List (K × V) → List (K × V)
  unfolding without
  distinct [] = []
  distinct ((j, v) ∷ l) = (j, v) ∷ without j (distinct l)

  -- the pairs of the map, each key once
  unfoldable pub pairs : Map K V → List (K × V)
  unfolding distinct
  pairs m = distinct m.entries

  find-without :
      (key j : K) (l : List (K × V)) → find j (without key l) ≡ ite (key =? j) none (find j l)
  unfolding find without
  find-without key j [] = ground arith
  find-without key j ((i, v) ∷ l) = ground (arith, find-without key j l)

  pub get-delete : (m : Map K V) (key j : K) → get (delete m key) j ≡ ite (key =? j) none (get m j)
  unfolding get delete
  get-delete m key j = find-without key j m.entries

  find-change_each :
      (f : V → V) (key : K) (l : List (K × V))
      → find key (change_each f l) ≡ Option.map f (find key l)
  unfolding find change_each
  find-change_each f key [] = refl
  find-change_each f key ((j, v) ∷ l) = ground (arith, find-change_each f key l)

  pub get-change_values :
      (f : V → V) (m : Map K V) (key : K) → get (change_values f m) key ≡ Option.map f (get m key)
  unfolding get change_values
  get-change_values f m key = find-change_each f key m.entries

  pub get-put :
      (m : Map K V) (key j : K) (v : V) → get (put m key v) j ≡ ite (key =? j) (some v) (get m j)
  unfolding get put
  get-put m key j v = ground (arith, find-without key j m.entries)

pub get-empty {ℓ} : {K V : Type ℓ} ⦃k : Key K⦄ (key : K) → get (empty {K = K} {V = V}) key ≡ none
unfolding get
get-empty key = refl

pub ruleset map_laws = (get-empty, get-delete, get-put)
