-- ===== src/Restore/Loop/Endings.antt =====
-- How `restore_device` ends, and what it has done then.
use irestore.Prelude.{
  ℕ, ◌<◌, ◌≡◌, ◌∙◌, refl, Bool, true, false, List, ◌∷◌, ◌++◌, Option, none, some, length,
}
use irestore.Effects.{ok, and_then}
use irestore.Text.{codes, same_text}
use irestore.Plists.{Plists, string, typed_item}
use irestore.Ipsw.{Zip}
use irestore.Asr.Link.{Link, Receive, received, open_with_timeout}
use irestore.Asr.Validation.{accepted, packet_info}
use irestore.Asr.Validation.Requests.{IsSound, IsCommand, Request, AllRequests, messages}
use irestore.Restore.Session.{Phone, opened, opens_all}
use irestore.Restore.Session.Handles.{open_session-opened, client_free-opened}
use irestore.Restore.World.{World}
use irestore.Restore.Filesystem.{send_filesystem}
use irestore.Restore.Filesystem.Delivered.{transfer, send_filesystem-transfer}
use irestore.Restore.Components.{Setting}
use irestore.Restore.Messages.{handle_data_type, handle_data_request}
use irestore.Restore.Loop.{Turn, dispatch, restore_loop, finish, restore_device}
use irestore.Restore.Loop.Results.{
  HasType, AllQuiet, Handled, quit_loop, restore_loop-quiet, restore_loop-Handled,
  restore_loop-handled, restore_loop-gone, restore_loop-error,
}

module _ (zip : Zip) (lib : Plists) (setting : Setting lib.Node) (connects : ℕ → Bool) where
  open lib use {Node, string_val, to_xml}

  abbrev started : World Node → World Node
  started w = record w { client = record (w.client) { restore = some opened } }

  restore_device-started :
      (filesystem : Option (List ℕ)) (phone : Phone) (ts : List (Turn Node)) (w : World Node)
      → w.client.restore ≡ none
      → phone.grants ≡ true
      → opens_all phone ≡ true
      → restore_device zip lib setting connects filesystem phone true ts w
        ≡ and_then
            (restore_loop zip lib setting connects filesystem false ts (started w))
            (finish zip lib setting connects filesystem)
  unfolding restore_device
  restore_device-started filesystem phone ts w closed granted opens =
      rw (open_session-opened phone w.client closed granted opens)

  finish-opened :
      (filesystem : Option (List ℕ)) (w : World Node)
      → w.client.restore ≡ some opened
      → finish zip lib setting connects filesystem accepted w
        ≡ ok accepted (record w { client = record (w.client) { restore = none } })
  unfolding finish
  finish-opened filesystem w has = rw (client_free-opened w.client has)

  -- the device gone, and the session freed
  abbrev gone : World Node → World Node
  gone w = record w {
    client = record (w.client) { restore = none; quit = true; connected = false };
  }

  -- the loop stopped by FLAG_QUIT, and the session freed
  abbrev pub stopped : World Node → World Node
  stopped w = record w { client = record (w.client) { restore = none; quit = true } }

  -- In restore mode, with a restore that starts: after any rounds that the loop gets through, whatever
  -- handler fails, `restore_device` ends with 0, as it does on success. It handles no message behind
  -- that one, so that what the device has got is what it had got when the handler failed, and frees
  -- the session.
  pub restore_device-error :
      (filesystem : Option (List ℕ)) (phone : Phone) (qs : List (Turn Node)) (msg : Node)
      (type : List ℕ) (removed : Bool) (ts : List (Turn Node)) (w w₁ w' : World Node)
      → w.client.restore ≡ none
      → phone.grants ≡ true
      → opens_all phone ≡ true
      → Handled zip lib setting connects filesystem (started w) qs w₁
      → w₁.client.quit ≡ false
      → HasType zip lib setting connects filesystem msg type
      → dispatch zip lib setting connects filesystem false type msg w₁ ≡ ok (some true) w'
      → w'.client.restore ≡ some opened
      → (t : World Node) × (restore_device zip lib setting connects filesystem phone true
            (qs ++ record { message = some msg; removed = removed } ∷ ts)
            w
          ≡ ok accepted t)
        × (t.sent ≡ w'.sent)
        × (t.link ≡ w'.link)
        × (t.client.restore ≡ none)
  restore_device-error filesystem phone qs msg type true ts w w₁ w' closed granted opens handled
        goes is failed has =
      (
        gone w',
        restore_device-started filesystem phone _ w closed granted opens
            ∙ rw
                (
                  restore_loop-Handled zip lib setting connects filesystem qs
                      (record { message = some msg; removed = true } ∷ ts) (started w) w₁ handled,
                  restore_loop-error zip lib setting connects filesystem false msg type true ts w₁
                      w' goes is failed,
                )
                (finish-opened filesystem _ has),
        refl,
        refl,
        refl,
      )
  restore_device-error filesystem phone qs msg type false ts w w₁ w' closed granted opens handled
        goes is failed has =
      (
        stopped w',
        restore_device-started filesystem phone _ w closed granted opens
            ∙ rw
                (
                  restore_loop-Handled zip lib setting connects filesystem qs
                      (record { message = some msg; removed = false } ∷ ts) (started w) w₁ handled,
                  restore_loop-error zip lib setting connects filesystem false msg type false ts w₁
                      w' goes is failed,
                )
                (finish-opened filesystem _ has),
        refl,
        refl,
        refl,
      )

  -- a request for the filesystem
  pub record AsksFilesystem (filesystem : Option (List ℕ)) (msg : Node) : Type 0 where
    pub is_request : HasType zip lib setting connects filesystem msg (codes "DataRequestMsg")
    pub node : Node
    pub has_type : typed_item lib msg (codes "DataType") string ≡ some node
    pub named : string_val node ≡ codes "SystemImageData"

  dispatch-filesystem :
      (filesystem : Option (List ℕ)) (msg : Node) (w : World Node) (t : Link)
      → AsksFilesystem filesystem msg
      → send_filesystem lib true connects filesystem w.link ≡ ok accepted t
      → dispatch zip lib setting connects filesystem false (codes "DataRequestMsg") msg w
        ≡ ok (some false) (record w { link = t })
  unfolding dispatch handle_data_request handle_data_type same_text
  dispatch-filesystem filesystem msg w t asks sent =
      rw (handle_data_request, asks.has_type, asks.named) (rw sent)

  -- A whole run in restore mode over a sound ASR connection: among rounds that bring nothing known,
  -- restored asks for the filesystem, an image below 2^31 bytes, of which ASR asks for some parts
  -- and then for the payload, and at last the device goes. `restore_device` ends with 0, the device
  -- has got the packet information, the parts and the whole image over ASR, and the session is freed.
  pub restore_device-transfer :
      (phone : Phone) (qs qs' ts : List (Turn Node)) (msg : Node) (w : World Node) (k : ℕ)
      (image first last : List ℕ) (end : Node) (rs : List (Request lib)) (rest : List Receive)
      → w.client.restore ≡ none
      → w.client.quit ≡ false
      → phone.grants ≡ true
      → opens_all phone ≡ true
      → AllQuiet zip lib setting connects (some image) qs
      → AllQuiet zip lib setting connects (some image) qs'
      → AsksFilesystem (some image) msg
      → open_with_timeout true connects ≡ some k
      → IsSound w.link
      → w.link.inbox ≡ received first ∷ messages lib rs (received last ∷ rest)
      → AllRequests lib image rs
      → IsCommand lib (codes "Payload") last end
      → length (to_xml (packet_info lib (length image))) < 4294967296
      → length image < 2147483648
      → (t : World Node) × (restore_device zip lib setting connects
            (some image)
            phone
            true
            (qs
              ++ record { message = some msg; removed = false }
                ∷ (qs' ++ record { message = none; removed = true } ∷ ts))
            w
          ≡ ok accepted t)
        × (t.link.delivered ≡ w.link.delivered ++ transfer lib image rs)
        × (t.client.restore ≡ none)
  restore_device-transfer phone qs qs' ts msg w k image first last end rs rest closed goes granted
        opens quiet quiet' asks reached sound waits all is small_info small =
      let sent =
        send_filesystem-transfer lib connects k image first last end rs rest w.link reached sound
          waits all is small_info small in
      let w₁ = record (started w) { link = sent.0 } in
      (
        gone w₁,
        restore_device-started (some image) phone _ w closed granted opens
            ∙ rw
                (
                  restore_loop-quiet zip lib setting connects (some image) false qs
                      (record { message = some msg; removed = false }
                        ∷ (qs' ++ record { message = none; removed = true } ∷ ts))
                      (started w) goes quiet,
                  restore_loop-handled zip lib setting connects (some image) false msg
                      (codes "DataRequestMsg")
                      (qs' ++ record { message = none; removed = true } ∷ ts) (started w) w₁ goes
                      asks.is_request
                      (dispatch-filesystem (some image) msg (started w) (sent.0) asks (sent.1)),
                  restore_loop-quiet zip lib setting connects (some image) false qs'
                      (record { message = none; removed = true } ∷ ts) w₁ goes quiet',
                  restore_loop-gone zip lib setting connects (some image) false ts w₁ goes,
                )
                (finish-opened (some image) _ refl),
        sent.2,
        refl,
      )

  -- a request for the NOR
  pub record AsksNor (filesystem : Option (List ℕ)) (msg : Node) : Type 0 where
    pub is_request : HasType zip lib setting connects filesystem msg (codes "DataRequestMsg")
    pub node : Node
    pub has_type : typed_item lib msg (codes "DataType") string ≡ some node
    pub named : string_val node ≡ codes "NORData"

  dispatch-excluded :
      (filesystem : Option (List ℕ)) (msg : Node) (w : World Node)
      → AsksNor filesystem msg
      → w.exclude ≡ true
      → dispatch zip lib setting connects filesystem false (codes "DataRequestMsg") msg w
        ≡ ok (some false) (record w { client = record (w.client) { quit = true } })
  unfolding dispatch handle_data_request handle_data_type same_text
  dispatch-excluded filesystem msg w asks excluded =
      rw (handle_data_request, asks.has_type, asks.named) (rw excluded)

  -- Under FLAG_EXCLUDE, after any rounds that the loop gets through, a request for the NOR ends the
  -- restore: `restore_device` handles nothing behind it, has sent restored nothing for it, and ends
  -- with 0 and no session.
  pub restore_device-excluded :
      (filesystem : Option (List ℕ)) (phone : Phone) (qs ts : List (Turn Node)) (msg : Node)
      (w w₁ : World Node)
      → w.client.restore ≡ none
      → phone.grants ≡ true
      → opens_all phone ≡ true
      → Handled zip lib setting connects filesystem (started w) qs w₁
      → w₁.client.quit ≡ false
      → w₁.client.restore ≡ some opened
      → w₁.exclude ≡ true
      → AsksNor filesystem msg
      → restore_device zip lib setting connects filesystem phone true
          (qs ++ record { message = some msg; removed = false } ∷ ts)
          w
        ≡ ok accepted (stopped w₁)
  restore_device-excluded filesystem phone qs ts msg w w₁ closed granted opens handled goes has
        excluded asks =
      let w₂ = record w₁ { client = record (w₁.client) { quit = true } } in
      restore_device-started filesystem phone _ w closed granted opens
      ∙ rw
          (
            restore_loop-Handled zip lib setting connects filesystem qs
                (record { message = some msg; removed = false } ∷ ts) (started w) w₁ handled,
            restore_loop-handled zip lib setting connects filesystem false msg
                (codes "DataRequestMsg") ts w₁ w₂ goes asks.is_request
                (dispatch-excluded filesystem msg w₁ asks excluded),
            quit_loop zip lib setting connects filesystem false ts w₂ refl,
          )
          (finish-opened filesystem w₂ has)
