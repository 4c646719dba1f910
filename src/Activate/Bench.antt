-- ===== src/Activate/Bench.antt =====
-- What ideviceactivate works on: files, memory, and the handles of libimobiledevice; and the texts that
-- its pointers point to.
use irestore.Prelude.{ℕ, Bool, true, false, List, [], ◌∷◌, Option, some, ◌==◌, if◌then◌else◌}
use irestore.Effects.{Run, State, ok, fault, out_of_fuel, pure, ◌>>=◌}
use irestore.Memory.{Mem, M, malloc}
use irestore.Text.{same_text}
use irestore.Devices.{Held}

-- `holds name` is the content of the file with this name, `writable` which files open for writing, and
-- `room` how many bytes a file takes.
pub record Bench : Type 0 where
  pub holds : List ℕ → Option (List ℕ)
  pub writable : List ℕ → Bool
  pub room : ℕ
  pub memory : Mem
  pub held : Held

abbrev pub put_memory : {A : Type 0} → Bench → Run Mem A → Run Bench A
put_memory b (ok a m) = ok a (record b { memory = m })
put_memory b fault = fault
put_memory b out_of_fuel = out_of_fuel

abbrev pub on_memory : {A : Type 0} → M A → State Bench A
on_memory f b = put_memory b (f b.memory)

abbrev pub put_held : {A : Type 0} → Bench → Run Held A → Run Bench A
put_held b (ok a h) = ok a (record b { held = h })
put_held b fault = fault
put_held b out_of_fuel = out_of_fuel

abbrev pub on_held : {A : Type 0} → State Held A → State Bench A
on_held f b = put_held b (f b.held)

-- a block that the code uses without looking whether it was granted
abbrev pub used : Bool → State Bench (Unit {0})
used true = pure tt
used false = λ _. fault

unfoldable pub malloc_used : State Bench (Unit {0})
malloc_used = on_memory malloc >>= used

abbrev pub with_file : List ℕ → List ℕ → Bench → Bench
with_file name bytes b = record b {
  holds = λ n. if same_text n name then some bytes else b.holds n;
}

-- A C string: in a block of its own, among the arguments of the program, or in a buffer of a function
-- that has returned.
pub data Value : Type 0 where
  heap argument : List ℕ → Value
  dead : Value

-- what a call reads of it
abbrev pub text_of : Value → State Bench (List ℕ)
text_of (heap text) = pure text
text_of (argument text) = pure text
text_of dead = λ _. fault

-- `free`
abbrev pub free_value : Value → State Bench (Unit {0})
free_value (heap text) = pure tt
free_value (argument text) = λ _. fault
free_value dead = λ _. fault

-- the bytes of a block up to the first 0
unfoldable pub until_zero : List ℕ → List ℕ
until_zero [] = []
until_zero (b ∷ bs) = if b == 0 then [] else b ∷ until_zero bs
