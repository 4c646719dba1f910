-- ===== src/Identify.antt =====
-- Which device is connected: the tables of idevicerestore/src/common.h, `check_device`, `get_bdid`,
-- `get_cpid` and `get_ecid` of idevicerestore.c, and the lookups by model of restore.c and normal.c.
-- An index of -1 is none.
pub mod Table
mod Runs
use irestore.Prelude.{
  ℕ, ◌+◌, Bool, true, false, not, ◌&&◌, List, [], ◌∷◌, Option, none, some, leb, ◌==◌, if◌then◌else◌,
}
use irestore.Effects.{State, fault, pure, ◌>>=◌}
use irestore.Text.{codes, same_text}
use irestore.Plists.{Plists, string, of_kind}
use irestore.Devices.{Held, Line, with_client, free_both}

pub data Mode : Type 0 where
  dfu_mode recovery_mode restore_mode normal_mode unknown_mode : Mode

pub record Device : Type 0 where
  pub index : ℕ
  pub product : List ℕ
  pub model : List ℕ
  pub board_id : ℕ
  pub chip_id : ℕ

abbrev device : ℕ → List ℕ → List ℕ → ℕ → ℕ → Device
device index product model board_id chip_id = record {
  index = index;
  product = product;
  model = model;
  board_id = board_id;
  chip_id = chip_id;
}

-- `idevicerestore_devices`, without the entry that ends it
abbrev pub devices : List Device
devices =
    device 0 (codes "iPhone1,1") (codes "M68AP") 0 8900
    ∷ device 1 (codes "iPod1,1") (codes "N45AP") 2 8900
    ∷ device 2 (codes "iPhone1,2") (codes "N82AP") 4 8900
    ∷ device 3 (codes "iPod2,1") (codes "N72AP") 0 8720
    ∷ device 4 (codes "iPhone2,1") (codes "N88AP") 0 8920
    ∷ device 5 (codes "iPod3,1") (codes "N18AP") 2 8922
    ∷ device 6 (codes "iPad1,1") (codes "K48AP") 2 8930
    ∷ device 7 (codes "iPhone3,1") (codes "N90AP") 0 8930
    ∷ device 8 (codes "iPod4,1") (codes "N81AP") 8 8930
    ∷ device 9 (codes "AppleTV2,1") (codes "K66AP") 10 8930
    ∷ device 10 (codes "iPhone3,1") (codes "N92AP") 6 8930
    ∷ device 11 (codes "iPad2,1") (codes "K93AP") 4 8940
    ∷ device 12 (codes "iPad2,2") (codes "K94AP") 6 8940
    ∷ device 13 (codes "iPad2,3") (codes "K95AP") 2 8940
    ∷ []

abbrev pub lower : ℕ → ℕ
lower c = if leb b'A' c && leb c b'Z' then c + 32 else c

-- `!strcasecmp`
unfoldable pub same_model : List ℕ → List ℕ → Bool
same_model [] [] = true
same_model [] (y ∷ ys) = false
same_model (x ∷ xs) [] = false
same_model (x ∷ xs) (y ∷ ys) = lower x == lower y && same_model xs ys

-- the loop over the table by the model, and the index of the entry that it stops at
unfoldable pub find_model : List ℕ → List Device → Option ℕ
find_model model [] = none
find_model model (d ∷ ds) = elim (same_model model d.model) [
  | true ↦ some d.index
  | false ↦ find_model model ds
]

-- the same for the loop by the product
unfoldable pub find_product : List ℕ → List Device → Option ℕ
find_product product [] = none
find_product product (d ∷ ds) = elim (same_text product d.product) [
  | true ↦ some d.index
  | false ↦ find_product product ds
]

-- The inner switches of `check_device`, on the board.
abbrev pub board_8900 : ℕ → Option ℕ
board_8900 bdid =
    if bdid == 0 then some 0 else if bdid == 4 then some 2 else if bdid == 2 then some 1 else none

abbrev pub board_8930 : ℕ → Option ℕ
board_8930 bdid =
    if bdid == 2
    then some 6
    else if bdid == 0
    then some 7
    else if bdid == 8
    then some 8
    else if bdid == 10
    then some 9
    else if bdid == 6
    then some 10
    else none

abbrev pub board_8940 : ℕ → Option ℕ
board_8940 bdid =
    if bdid == 4
    then some 11
    else if bdid == 6
    then some 12
    else if bdid == 2
    then some 13
    else none

-- `if (get_bdid(client, &bdid) < 0) break;` and the switch on the board
abbrev pub with_board : Option ℕ → (ℕ → Option ℕ) → Option ℕ
with_board none switch = none
with_board (some bdid) switch = switch bdid

-- The switch of `check_device` on the chip; `bdid` is what `get_bdid` would give.
unfoldable pub device_for : ℕ → Option ℕ → Option ℕ
device_for cpid bdid =
    if cpid == 8900
    then with_board bdid board_8900
    else if cpid == 8920
    then some 4
    else if cpid == 8720
    then some 3
    else if cpid == 8922
    then some 5
    else if cpid == 8930
    then with_board bdid board_8930
    else if cpid == 8940
    then with_board bdid board_8940
    else none

-- `dfu_check_mode`, by whether the result is 0
unfoldable pub dfu_check_mode : Bool
dfu_check_mode = false

-- An identifier read in normal mode, or in recovery mode, which also serves DFU mode.
pub record Readings : Type 0 where
  pub by_normal : Option ℕ
  pub by_recovery : Option ℕ

-- `get_bdid` and `get_ecid`
unfoldable pub read_id : Mode → Readings → Option ℕ
read_id normal_mode r = r.by_normal
read_id dfu_mode r = r.by_recovery
read_id recovery_mode r = r.by_recovery
read_id _ r = none

-- `get_cpid`: an error is noted in `client->device`, where that is set.
unfoldable pub get_cpid : Bool → Mode → Readings → State Held (Option ℕ)
get_cpid has_device restore_mode r = pure none
get_cpid has_device unknown_mode r = pure none
get_cpid has_device mode r = elim (read_id mode r) [
  | none ↦ if has_device then pure none else λ _. fault
  | some cpid ↦ pure (some cpid)
]

-- What restored or lockdownd answer: the outcomes of the calls, and the value of `HardwareModel` or
-- `ProductType`. The call behind the client is `restored_query_type` or `lockdownd_get_value`;
-- `gives` is `restored_get_value`.
pub record Answers (Node : Type 0) : Type 0 where
  pub line : Line
  pub gives : Bool
  pub value : Option Node

module _ (lib : Plists) where
  open lib use {Node, string_val}

  -- the lookup by the model
  abbrev pub by_model : Option Node → Option ℕ
  by_model value = elim (of_kind lib string value) [
    | none ↦ none
    | some node ↦ find_model (string_val node) devices
  ]

  -- the lookup by the product
  abbrev pub by_product : Option Node → Option ℕ
  by_product value = elim (of_kind lib string value) [
    | none ↦ none
    | some node ↦ find_product (string_val node) devices
  ]

  -- `restore_check_device`
  unfoldable pub restore_check_device : Answers Node → State Held (Option ℕ)
  restore_check_device answers = with_client none answers.line (
      if not answers.line.answers
      then free_both none
      else if not answers.gives
      then free_both none
      else free_both (by_model answers.value))

  -- `normal_check_device`
  unfoldable pub normal_check_device : Answers Node → State Held (Option ℕ)
  normal_check_device answers =
      with_client none answers.line
        (if not answers.line.answers then free_both none else free_both (by_product answers.value))

  -- `check_device`; `has_device` is whether `client->device` is set before
  unfoldable pub check_device :
      Bool → Mode → Answers Node → Answers Node → Readings → Readings → State Held (Option ℕ)
  check_device has_device restore_mode restored lockdown chips boards =
      restore_check_device restored
  check_device has_device normal_mode restored lockdown chips boards = normal_check_device lockdown
  check_device has_device unknown_mode restored lockdown chips boards = pure none
  check_device has_device mode restored lockdown chips boards = do
    cpid ← get_cpid has_device mode chips
    elim cpid [ none ↦ pure none | some chip ↦ pure (device_for chip (read_id mode boards)) ]
