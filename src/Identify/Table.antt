-- ===== src/Identify/Table.antt =====
-- The index that `check_device` finds is that of an entry of the table with the device's chip, board or
-- model.
use irestore.Prelude.{
  ℕ, ◌≡◌, ◌≢◌, ◌⊎◌, refl, arith, inl, inr, true, List, [], ◌∷◌, Option, none, some, Bool-cases,
}
use irestore.Text.{codes, same_text}
use irestore.Manifest.{get_elem?}
use irestore.Identify.{Device, devices, same_model, find_model, find_product, device_for}

-- the chip, and the board, of the entry at this index
abbrev pub chip_of : ℕ → Option ℕ
chip_of k = elim (get_elem? k devices) [ none ↦ none | some d ↦ some d.chip_id ]

abbrev pub board_of : ℕ → Option ℕ
board_of k = elim (get_elem? k devices) [ none ↦ none | some d ↦ some d.board_id ]

device_for-chip : (cpid bdid k : ℕ) → device_for cpid (some bdid) ≡ some k → chip_of k ≡ some cpid
unfolding device_for get_elem?
device_for-chip cpid bdid k h = ground arith

device_for-board :
    (cpid bdid k : ℕ)
    → device_for cpid (some bdid) ≡ some k
    → (board_of k ≡ some bdid) ⊎ ((cpid ≡ 8720) ⊎ ((cpid ≡ 8920) ⊎ (cpid ≡ 8922)))
unfolding device_for get_elem?
device_for-board cpid bdid k h = ground arith

-- A property of all entries.
abbrev pub All : (Device → Type 0) → List Device → Type 0
All P [] = Unit {0}
All P (d ∷ ds) = P d × All P ds

-- The switches of `check_device` find every entry of the table by its chip and board. What they find
-- is always an entry with this chip, and with this board unless the chip is 8720, 8920 or 8922, which
-- one device each has.
pub device_for-devices :
    All (λ d. device_for d.chip_id (some d.board_id) ≡ some d.index) devices
    × ((cpid bdid k : ℕ)
        → device_for cpid (some bdid) ≡ some k
        → (chip_of k ≡ some cpid)
          × ((board_of k ≡ some bdid) ⊎ ((cpid ≡ 8720) ⊎ ((cpid ≡ 8920) ⊎ (cpid ≡ 8922)))))
unfolding device_for
device_for-devices = (
  (
    refl,
    (
      refl,
      (
        refl,
        (refl, (refl, (refl, (refl, (refl, (refl, (refl, (refl, (refl, (refl, (refl, tt))))))))))),
      ),
    ),
  ),
  λ cpid bdid k h. (device_for-chip cpid bdid k h, device_for-board cpid bdid k h),
)

-- an entry of a list
pub data In (d : Device) : List Device → Type 0 where
  here : {ds : List Device} → In d (d ∷ ds)
  there : {e : Device} {ds : List Device} → In d ds → In d (e ∷ ds)

find_model-In :
    (model : List ℕ) (ds : List Device) (k : ℕ)
    → find_model model ds ≡ some k
    → (d : Device) × In d ds × (d.index ≡ k) × (same_model model d.model ≡ true)
unfolding find_model
find_model-In model [] k h = cc
find_model-In model (d ∷ ds) k h = elim (Bool-cases (same_model model d.model)) [
  | inl e ↦ (d, here, (let found = rw (find_model, e) at h in cc), e)
  | inr e ↦
      let (d', within, is, same) = find_model-In model ds k (rw (find_model, e) at h) in
      (d', there within, is, same)
]

-- In restore mode every entry is found by its model. What is found for a model is the index of an
-- entry whose model is the same up to the case of letters.
pub find_model-devices :
    All (λ d. find_model d.model devices ≡ some d.index) devices
    × ((model : List ℕ) (k : ℕ)
        → find_model model devices ≡ some k
        → (d : Device) × In d devices × (d.index ≡ k) × (same_model model d.model ≡ true))
unfolding find_model same_model
find_model-devices = (
  (
    refl,
    (
      refl,
      (
        refl,
        (refl, (refl, (refl, (refl, (refl, (refl, (refl, (refl, (refl, (refl, (refl, tt))))))))))),
      ),
    ),
  ),
  λ model k h. find_model-In model devices k h,
)

find_product-In :
    (product : List ℕ) (ds : List Device) (k : ℕ)
    → find_product product ds ≡ some k
    → (d : Device) × In d ds × (d.index ≡ k) × (same_text product d.product ≡ true)
unfolding find_product
find_product-In product [] k h = cc
find_product-In product (d ∷ ds) k h = elim (Bool-cases (same_text product d.product)) [
  | inl e ↦ (d, here, (let found = rw (find_product, e) at h in cc), e)
  | inr e ↦
      let (d', within, is, same) = find_product-In product ds k (rw (find_product, e) at h) in
      (d', there within, is, same)
]

find_product-first : (product : List ℕ) (k : ℕ) → find_product product devices ≡ some k → k ≢ 10
unfolding find_product
find_product-first product k h = ground arith

-- In normal mode what is found for a product is the index of an entry with this product, and never 10:
-- the entries 7 and 10 have the same product, and it is 7 that is found for it.
pub find_product-devices :
    (find_product (codes "iPhone3,1") devices ≡ some 7)
    × ((product : List ℕ) (k : ℕ)
        → find_product product devices ≡ some k
        → (d : Device) × In d devices
          × (d.index ≡ k)
          × (same_text product d.product ≡ true)
          × (k ≢ 10))
unfolding find_product same_text
find_product-devices = (
  refl,
  λ product k h.
      let (d, within, is, same) = find_product-In product devices k h in
      (d, within, is, same, find_product-first product k h),
)
