-- ===== src/Activate/Cache.antt =====
-- ideviceactivate/src/cache.c: the directory that keeps what an activation has sent.
pub mod Kept
use irestore.Prelude.{
  ℕ, zero, suc, ◌+◌, ◌-◌, Bool, true, false, not, List, [], ◌∷◌, ◌++◌, Option, none, some, take,
  drop, length, leb, ◌==◌, if◌then◌else◌,
}
use irestore.Effects.{State, ok, fault, out_of_fuel, pure, demand, ◌>>=◌, ◌>>◌}
use irestore.Text.{codes, same_text}
use irestore.Plists.{Plists}
use irestore.Activate.Bench.{Bench, Value, heap, argument, dead, with_file, until_zero}

-- `cachedir` with `use_cache` and `backup_to_cache`; an option that sets one of these also sets it.
pub record Cache : Type 0 where
  pub cachedir : List ℕ
  pub use_cache : Bool
  pub backup_to_cache : Bool

-- `BUFSIZE`
unfoldable pub bufsize : ℕ
bufsize = 2097152

abbrev pub join : List ℕ → List ℕ → List ℕ
join dir name = dir ++ b'/' ∷ name

-- `write_file`, by whether the result is 0: a file that does not open is closed all the same.
unfoldable pub write_file : List ℕ → List ℕ → State Bench Bool
write_file name text b =
    if not (b.writable name)
    then fault
    else ok true (with_file name (take b.room (until_zero text)) b)

-- The loop of `read_file`: each round reads into the front of the buffer. A round that reads a byte or
-- more leaves less of the file, so its size is enough fuel.
unfoldable pub read_loop : ℕ → List ℕ → List ℕ → List ℕ
read_loop zero file buffer = buffer
read_loop (suc fuel) file buffer =
    let chunk = take bufsize file in
    let rest = read_loop fuel (drop bufsize file) (chunk ++ drop (length chunk) buffer) in
    if length chunk == 0 then buffer else rest

-- `read_file`: what it makes of the buffer; a file that does not open is closed all the same.
unfoldable pub read_file : List ℕ → List ℕ → State Bench (List ℕ)
read_file name buffer = do
  file ← λ b. demand (b.holds name) b
  pure (read_loop (suc (length file)) file buffer)

-- `cache`, by whether the result is 0: the name has a buffer of 512 bytes, and as many as `BUFSIZE` may
-- go there.
unfoldable pub cache : Cache → List ℕ → List ℕ → State Bench Bool
cache c name what =
    if not c.backup_to_cache
    then pure false
    else if leb 512 (length (join c.cachedir name))
    then (λ _. fault)
    else write_file (join c.cachedir name) (take (bufsize - 1) what)

-- `cache_plist`
unfoldable pub cache_plist : (lib : Plists) → Cache → List ℕ → lib.Node → State Bench Bool
cache_plist lib c name node =
    if not c.backup_to_cache then pure false else cache c name (lib.to_xml node)

-- `get_from_cache` returns its own buffer, which is gone then; `junk` is what was in it.
unfoldable pub get_from_cache : Cache → List ℕ → List ℕ → State Bench Value
get_from_cache c junk what = read_file (take 511 (join c.cachedir what)) junk >> pure dead

-- `lockdownd_get_string_value` of util.c: what it finds stays in its own parameter.
unfoldable pub lockdownd_get_string_value :
    {Node : Type 0} → Option Node → Option Value → Option Value
lockdownd_get_string_value _ val = val

-- `strcmp` for equality
abbrev pub compare : Option Value → Option Value → State Bench Bool
compare (some (heap s)) (some (heap t)) = pure (same_text s t)
compare (some (heap s)) (some (argument t)) = pure (same_text s t)
compare (some (argument s)) (some (heap t)) = pure (same_text s t)
compare (some (argument s)) (some (argument t)) = pure (same_text s t)
compare _ _ = λ _. fault

-- `check_cache`, by whether the result is 0; `device` is what lockdownd gives
unfoldable pub check_cache : {Node : Type 0} → Cache → List ℕ → Option Node → State Bench Bool
check_cache c junk device = do
  uuid_from_cache ← get_from_cache c junk (codes "UUID")
  compare (some uuid_from_cache) (lockdownd_get_string_value device none)
