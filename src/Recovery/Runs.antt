-- ===== src/Recovery/Runs.antt =====
-- A concrete device in recovery mode, and the theorem at it.
use irestore.Prelude.{ℕ, ◌≡◌, refl, arith, true, false, List, [], ◌∷◌, none, some, ltb}
use irestore.Effects.{fault}
use irestore.Text.{codes, same_text}
use irestore.Plists.{Plists, of_kind, typed_item}
use irestore.Plists.Tree.{Tree, text, table, to_entries, find, trees}
use irestore.Ipsw.{Zip}
use irestore.Identify.{recovery_mode, restore_mode}
use irestore.Ipsw.Sample.{locate_in, bytes_at, many_files, many_files-HoldsBytes}
use irestore.Manifest.{get_component_path}
use irestore.Asr.Link.{connect_loop}
use irestore.Restore.Session.{Phone, valid, opens_all}
use irestore.Restore.Components.{Setting, component_path}
use irestore.Restore.Components.Nor.{unsigned-Gets}
use irestore.Recovery.{
  Handset, open_loop, recovery_open, recovery_client_new, recovery_client_free, enter_restore,
}
use irestore.Recovery.Doing.{IsReady, Does}
use irestore.Recovery.Protocol.{HasAll, protocol, enter_restore-protocol}

abbrev lib : Plists
lib = trees (λ _. none)

abbrev files : List (List ℕ × List ℕ)
files =
    (codes "a", 1 ∷ [])
    ∷ (codes "b", 2 ∷ [])
    ∷ (codes "c", 3 ∷ [])
    ∷ (codes "d", 4 ∷ [])
    ∷ (codes "e", 5 ∷ [])
    ∷ []

abbrev zip : Zip
zip = many_files files

abbrev part : List ℕ → Tree
part path =
    table (to_entries ((codes "Info", table (to_entries ((codes "Path", text path) ∷ []))) ∷ []))

abbrev identity : Tree
identity = table (
    to_entries (
      (
        codes "Manifest",
        table (
            to_entries (
              (codes "iBEC", part (codes "a"))
              ∷ (codes "AppleLogo", part (codes "b"))
              ∷ (codes "RestoreDeviceTree", part (codes "c"))
              ∷ (codes "RestoreRamDisk", part (codes "d"))
              ∷ (codes "RestoreKernelCache", part (codes "e"))
              ∷ [])),
      )
      ∷ []))

abbrev setting : Setting Tree
setting = record { ipsw = []; tss = none; identity = identity; junk = 0; behind = [] }

setting-HasAll : HasAll zip lib setting (1 ∷ []) (2 ∷ []) (3 ∷ []) (4 ∷ []) (5 ∷ [])
unfolding component_path get_component_path typed_item of_kind find same_text locate_in bytes_at
setting-HasAll = record {
  has_ibec = record {
    path = codes "a";
    has_path = refl;
    gets =
        unsigned-Gets zip lib setting (codes "a") (1 ∷ []) refl
          (many_files-HoldsBytes files 0 (codes "a") (1 ∷ []) refl refl) (omega arith);
  };
  has_logo = record {
    path = codes "b";
    has_path = refl;
    gets =
        unsigned-Gets zip lib setting (codes "b") (2 ∷ []) refl
          (many_files-HoldsBytes files 1 (codes "b") (2 ∷ []) refl refl) (omega arith);
  };
  has_tree = record {
    path = codes "c";
    has_path = refl;
    gets =
        unsigned-Gets zip lib setting (codes "c") (3 ∷ []) refl
          (many_files-HoldsBytes files 2 (codes "c") (3 ∷ []) refl refl) (omega arith);
  };
  has_ramdisk = record {
    path = codes "d";
    has_path = refl;
    gets =
        unsigned-Gets zip lib setting (codes "d") (4 ∷ []) refl
          (many_files-HoldsBytes files 3 (codes "d") (4 ∷ []) refl refl) (omega arith);
  };
  has_kernel = record {
    path = codes "e";
    has_path = refl;
    gets =
        unsigned-Gets zip lib setting (codes "e") (5 ∷ []) refl
          (many_files-HoldsBytes files 4 (codes "e") (5 ∷ []) refl refl) (omega arith);
  };
}

abbrev phone : Phone
phone = record {
  grants = true;
  grants_new = true;
  subscribes = true;
  arrives = λ n. ltb 1 n;
  opens = true;
  client_opens = true;
  answers = true;
}

phone-opens_all : opens_all phone ≡ true
unfolding opens_all connect_loop
phone-opens_all = refl

abbrev handset : Handset
handset = record {
  recovery = some valid;
  opens = λ _. true;
  tries = 0;
  accepts = λ _. true;
  requests = 0;
  log = [];
  grants = true;
  memory = record { grants = λ _. true; calls = 0; live = 0 };
  client = record { restore = none; quit = false; connected = false };
  mode = recovery_mode;
  held = record { devices = 0; clients = 0 };
}

-- A device that never opens: the block that is freed was not written.
recovery_open_fault : recovery_open (record handset { recovery = none; opens = λ _. false }) ≡ fault
unfolding recovery_open recovery_client_new recovery_client_free open_loop
recovery_open_fault = refl

handset-IsReady : IsReady handset
handset-IsReady = record {
  closed = refl;
  connected = refl;
  reopens = λ _. refl;
  takes = λ _. refl;
  plenty = λ _. refl;
}

enter_restore-protocol_example :
    Does
      (λ t. t.mode ≡ restore_mode)
      (enter_restore zip lib setting phone)
      handset
      (protocol zip lib setting (1 ∷ []) (2 ∷ []) (3 ∷ []) (4 ∷ []) (5 ∷ []))
enter_restore-protocol_example =
    enter_restore-protocol zip lib setting phone (1 ∷ []) (2 ∷ []) (3 ∷ []) (4 ∷ []) (5 ∷ [])
      handset setting-HasAll handset-IsReady refl phone-opens_all
