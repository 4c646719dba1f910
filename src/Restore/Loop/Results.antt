-- ===== src/Restore/Loop/Results.antt =====
-- The rounds of the loop of `restore_device`.
use irestore.Prelude.{
  ℕ, ◌≡◌, ◌∙◌, ap, refl, Bool, true, false, List, [], ◌∷◌, ◌++◌, Option, none, some, if◌then◌else◌,
}
use irestore.Effects.{ok, and_then, ◌>>◌, pure}
use irestore.Text.{codes}
use irestore.Plists.{Plists, string, typed_item}
use irestore.Ipsw.{Zip}
use irestore.Asr.Validation.{accepted, waiting}
use irestore.Restore.Session.{callback, device_remove}
use irestore.Restore.World.{World, set_quit}
use irestore.Restore.Components.{Setting}
use irestore.Restore.Loop.{
  Turn, end_turn, after_dispatch, continue_with, dispatch, turn, restore_loop,
}

if_true : {A : Type 0} (b : Bool) (x y : A) → b ≡ true → (if b then x else y) ≡ x
if_true true x y h = refl
if_true false x y h = cc

if_false : {A : Type 0} (b : Bool) (x y : A) → b ≡ false → (if b then x else y) ≡ y
if_false true x y h = cc
if_false false x y h = refl

module _ (zip : Zip) (lib : Plists) (setting : Setting lib.Node) (connects : ℕ → Bool)
    (filesystem : Option (List ℕ)) where
  open lib use {Node, string_val}

  -- the type of a message
  pub record HasType (msg : Node) (type : List ℕ) : Type 0 where
    pub node : Node
    pub has : typed_item lib msg (codes "MsgType") string ≡ some node
    pub named : string_val node ≡ type

  -- a round that brings nothing, or no message of a known form, and during which the device stays
  abbrev pub IsQuiet : Turn Node → Type 0
  IsQuiet t =
      (t.removed ≡ false)
      × ((msg : Node) → t.message ≡ some msg → typed_item lib msg (codes "MsgType") string ≡ none)

  abbrev pub AllQuiet : List (Turn Node) → Type 0
  AllQuiet [] = Unit {0}
  AllQuiet (t ∷ ts) = IsQuiet t × AllQuiet ts

  -- Rounds that bring nothing, something unknown, or messages whose handlers succeed, while the device
  -- stays and FLAG_QUIT is not set, and what they make of the world.
  pub data Handled : World Node → List (Turn Node) → World Node → Type 0 where
    no_round : {w : World Node} → Handled w [] w
    round_then :
        {w w₁ w₂ : World Node} {message : Option Node} {ts : List (Turn Node)}
        → w.client.quit ≡ false
        → turn zip lib setting connects filesystem false message w ≡ ok (some false) w₁
        → Handled w₁ ts w₂
        → Handled w (record { message = message; removed = false } ∷ ts) w₂

  pub quiet_turn :
      (error : Bool) (m : Option Node) (w : World Node)
      → ((msg : Node) → m ≡ some msg → typed_item lib msg (codes "MsgType") string ≡ none)
      → turn zip lib setting connects filesystem error m w ≡ ok (some error) w
  unfolding turn
  quiet_turn error none w quiet = refl
  quiet_turn error (some msg) w quiet = rw (turn, quiet msg refl)

  -- a message goes to its handler
  pub typed_turn :
      (error : Bool) (msg : Node) (type : List ℕ) (w : World Node)
      → HasType msg type
      → turn zip lib setting connects filesystem error (some msg) w
        ≡ and_then (dispatch zip lib setting connects filesystem error type msg w) after_dispatch
  unfolding turn
  typed_turn error msg type w is = rw (turn, is.has, is.named)

  -- without FLAG_QUIT there is a round
  round :
      (error : Bool) (t : Turn Node) (ts : List (Turn Node)) (w : World Node)
      → w.client.quit ≡ false
      → restore_loop zip lib setting connects filesystem error (t ∷ ts) w
        ≡ and_then (turn zip lib setting connects filesystem error t.message w) (
            continue_with t.removed
              λ failed. restore_loop zip lib setting connects filesystem failed ts)
  unfolding restore_loop
  round error t ts w goes = if_false w.client.quit _ _ goes

  -- with it there is none
  pub quit_loop :
      (error : Bool) (ts : List (Turn Node)) (w : World Node)
      → w.client.quit ≡ true
      → restore_loop zip lib setting connects filesystem error ts w ≡ ok accepted w
  unfolding restore_loop
  quit_loop error [] w quits = ap (λ v. ok v w) (if_true w.client.quit accepted waiting quits)
  quit_loop error (t ∷ ts) w quits = if_true w.client.quit _ _ quits

  pub restore_loop-quiet :
      (error : Bool) (qs ts : List (Turn Node)) (w : World Node)
      → w.client.quit ≡ false
      → AllQuiet qs
      → restore_loop zip lib setting connects filesystem error (qs ++ ts) w
        ≡ restore_loop zip lib setting connects filesystem error ts w
  restore_loop-quiet error [] ts w goes quiet = refl
  restore_loop-quiet error (q ∷ qs) ts w goes ((stays, silent), quiet) =
      round error q (qs ++ ts) w goes
      ∙ rw (quiet_turn error q.message w silent, stays)
          (restore_loop-quiet error qs ts w goes quiet)

  pub restore_loop-Handled :
      (qs ts : List (Turn Node)) (w w' : World Node)
      → Handled w qs w'
      → restore_loop zip lib setting connects filesystem false (qs ++ ts) w
        ≡ restore_loop zip lib setting connects filesystem false ts w'
  restore_loop-Handled [] ts w w' no_round = refl
  restore_loop-Handled (q ∷ qs) ts w w' (round_then {w₁ = w₁} goes turned rest) =
      round false q (qs ++ ts) w goes ∙ rw turned (restore_loop-Handled qs ts w₁ w' rest)

  -- a message whose handler ends without error
  pub restore_loop-handled :
      (error : Bool) (msg : Node) (type : List ℕ) (ts : List (Turn Node)) (w w' : World Node)
      → w.client.quit ≡ false
      → HasType msg type
      → dispatch zip lib setting connects filesystem error type msg w ≡ ok (some false) w'
      → restore_loop zip lib setting connects filesystem error
          (record { message = some msg; removed = false } ∷ ts)
          w
        ≡ restore_loop zip lib setting connects filesystem false ts w'
  restore_loop-handled error msg type ts w w' goes is done =
      round error _ ts w goes ∙ rw (typed_turn error msg type w is, done)

  -- the device goes
  pub restore_loop-gone :
      (error : Bool) (ts : List (Turn Node)) (w : World Node)
      → w.client.quit ≡ false
      → restore_loop zip lib setting connects filesystem error
          (record { message = none; removed = true } ∷ ts)
          w
        ≡ ok accepted (record w { client = callback device_remove w.client })
  restore_loop-gone error ts w goes =
      round error _ ts w goes
      ∙ rw (quiet_turn error none w (λ msg e. cc)) (quit_loop error ts _ refl)

  -- A handler that fails ends the loop: no message behind it is handled, whatever the device does,
  -- and the loop itself ends as it does on success.
  pub restore_loop-error :
      (error : Bool) (msg : Node) (type : List ℕ) (removed : Bool) (ts : List (Turn Node))
      (w w' : World Node)
      → w.client.quit ≡ false
      → HasType msg type
      → dispatch zip lib setting connects filesystem error type msg w ≡ ok (some true) w'
      → restore_loop zip lib setting connects filesystem error
          (record { message = some msg; removed = removed } ∷ ts)
          w
        ≡ (set_quit >> (end_turn removed >> pure accepted)) w'
  restore_loop-error error msg type true ts w w' goes is failed =
      round error _ ts w goes
      ∙ rw (typed_turn error msg type w is, failed) (quit_loop true ts _ refl)
  restore_loop-error error msg type false ts w w' goes is failed =
      round error _ ts w goes
      ∙ rw (typed_turn error msg type w is, failed) (quit_loop true ts _ refl)
