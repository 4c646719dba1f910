-- ===== src/Files/Runs.antt =====
-- A concrete file, and the theorem at it.
use irestore.Prelude.{ℕ, ◌≡◌, ◌<◌, refl, true, false, List, [], ◌∷◌, none, some}
use irestore.Effects.{ok}
use irestore.Memory.{grown}
use irestore.Text.{codes, same_text}
use irestore.Files.{Disk, with_file, write_file, read_file, write_file-read_file}

abbrev disk : Disk
disk = record { holds = λ _. none; memory = record { grants = λ _. true; calls = 0; live = 0 } }

write_file-read_file_run :
    (t : Disk) × (write_file true 2 (codes "f") (7 ∷ 8 ∷ []) disk ≡ ok (some 2) t)
    × (read_file 2 (codes "f") t
        ≡ ok (some (7 ∷ 8 ∷ [])) (record t { memory = grown 1 disk.memory }))
    × ((other : List ℕ) → same_text other (codes "f") ≡ false → t.holds other ≡ none)
    × (1 < 2
        → write_file true 1 (codes "f") (7 ∷ 8 ∷ []) disk
          ≡ ok none (with_file (codes "f") (7 ∷ []) disk))
write_file-read_file_run = write_file-read_file (codes "f") (7 ∷ 8 ∷ []) 1 disk (λ _. refl)
