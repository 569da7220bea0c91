-- ===== src/AtomicFile.antt =====
-- internal/atomicfile/atomicfile.go. The directory as the file system shows it: what the path holds,
-- and whether a temporary file of the call lies beside it; what that file holds is left out. The answers
-- of the file system come as a record.
pub mod Tests
use soqucoin_sdk.Prelude.{
  ◌≡◌, ◌≢◌, ◌⊎◌, arith, Bool, true, false, not, ◌&&◌, Option, some, if◌then◌else◌,
}

-- How `WriteFile` ends: nil, an error that is ErrWrittenNotDurable, any other error.
pub data WriteOutcome : Type 0 where
  written not_durable write_failed : WriteOutcome

pub record Directory {ℓ} (A : Type ℓ) : Type ℓ where
  pub target : Option A
  pub temporary : Bool

-- Whether each step succeeds.
pub record Steps : Type 0 where
  pub create_temp : Bool
  pub chmod : Bool
  pub write : Bool
  pub sync : Bool
  pub close : Bool
  pub rename : Bool
  pub remove_temp : Bool
  pub windows : Bool
  pub open_directory : Bool
  pub sync_directory : Bool

-- After the rename: the directory entry is forced out, except on Windows.
after_rename : Steps → WriteOutcome
after_rename s =
    if s.windows
    then written
    else if s.open_directory
    then if s.sync_directory then written else not_durable
    else not_durable

module _ {ℓ} {A : Type ℓ} where
  -- `fail` of the source: the temporary file is removed, and whether that succeeds is not looked at.
  failed : Steps → Directory A → Directory A × WriteOutcome
  failed s d = (record d { temporary = not s.remove_temp }, write_failed)

  -- Each step after the creation of the temporary file fails the same way.
  unfoldable pub write_file : Steps → A → Directory A → Directory A × WriteOutcome
  unfolding after_rename failed
  write_file s content d =
      let made = record d { temporary = true } in
      if s.create_temp
      then if s.chmod && s.write && s.sync && s.close && s.rename
        then (record { target = some content; temporary = false }, after_rename s)
        else failed s made
      else (d, write_failed)

  -- A write replaces the file whole or leaves it whole: when no temporary file lies there, then after
  -- the call none does, unless nothing was written and the removal of it failed; and either the answer is that nothing was written, and
  -- the path holds what it held, or it is another, and the path holds the new content.
  pub write_file_atomic :
      (s : Steps) (content : A) (d : Directory A)
      → d.temporary ≡ false
      → (((write_file s content d).0.temporary ≡ false)
          ⊎ (((write_file s content d).1 ≡ write_failed) × (s.remove_temp ≡ false)))
        × ((((write_file s content d).1 ≡ write_failed)
              × ((write_file s content d).0.target ≡ d.target))
            ⊎ (((write_file s content d).1 ≢ write_failed)
                × ((write_file s content d).0.target ≡ some content)))
  unfolding write_file after_rename failed
  write_file_atomic s content d e = ground arith
