-- ===== src/Table.antt =====
-- internal/common/regmap.go: the map with a counter on which the store and the expiry table stand.
-- sync.Map is an association list: Store replaces an entry or adds one, Range goes through the list.
pub mod Laws
use dice_db_distributed_syst.Prelude.{
  ℕ, ◌≡◌, Option, none, some, List, [], ◌∷◌, arith, if◌then◌else◌, length, Eq, nat_eq, str_eq,
}
use dice_db_distributed_syst.Prelude.Int.{ℤ, pos, negsuc, ◌+ℤ◌}

pub record RegMap {ℓ κ} (K : Type ℓ) (V : Type κ) : Type (ℓ ⊔ κ) where
  pub m : List (K × V)
  pub count : ℤ

abbrev pub empty {ℓ κ} : {K : Type ℓ} {V : Type κ} → RegMap K V
empty = record { m = []; count = pos 0 }

module _ {ℓ κ} {K : Type ℓ} {V : Type κ} ⦃e : Eq K⦄ where
  unfoldable pub load : K → List (K × V) → Option V
  load k [] = none
  load k ((j, v) ∷ l) = if e.beq j k then some v else load k l

  unfoldable pub upsert : K → V → List (K × V) → List (K × V)
  upsert k v [] = (k, v) ∷ []
  upsert k v ((j, w) ∷ l) = if e.beq j k then (k, v) ∷ l else (j, w) ∷ upsert k v l

  unfoldable pub remove : K → List (K × V) → List (K × V)
  remove k [] = []
  remove k ((j, w) ∷ l) = let rest = remove k l in if e.beq j k then rest else (j, w) ∷ rest

  -- The counter goes up on every Put, also where the key is there.
  unfoldable pub put : K → V → RegMap K V → RegMap K V
  put k v t = record { m = upsert k v t.m; count = t.count +ℤ pos 1 }

  unfoldable pub get : K → RegMap K V → Option V
  get k t = load k t.m

  -- The counter goes down on every Delete, also where the key is not there.
  unfoldable pub delete : K → RegMap K V → RegMap K V
  delete k t = record { m = remove k t.m; count = t.count +ℤ negsuc 0 }

  -- No key twice, which sync.Map guarantees.
  abbrev pub Distinct : List (K × V) → Type κ
  Distinct [] = Unit
  Distinct ((k, v) ∷ l) = (load k l ≡ none) × Distinct l

-- RegMap.Len reads the counter.
unfoldable pub len {ℓ κ} : {K : Type ℓ} {V : Type κ} → RegMap K V → ℤ
len t = t.count

-- The number of entries.
abbrev pub size {ℓ κ} : {K : Type ℓ} {V : Type κ} → RegMap K V → ℕ
size t = length t.m
