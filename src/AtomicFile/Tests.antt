-- ===== src/AtomicFile/Tests.antt =====
-- A write whose rename fails.
use soqucoin_sdk.Prelude.{ℕ, ◌≡◌, ◌≢◌, ◌⊎◌, refl, true, false, some}
use soqucoin_sdk.AtomicFile.{Steps, Directory, write_failed, write_file, write_file_atomic}

abbrev no_rename : Steps
no_rename = record {
  create_temp = true;
  chmod = true;
  write = true;
  sync = true;
  close = true;
  rename = false;
  remove_temp = true;
  windows = false;
  open_directory = true;
  sync_directory = true;
}

abbrev old : Directory ℕ
old = record { target = some 1; temporary = false }

write_file_atomic_example :
    (((write_file no_rename 2 old).0.temporary ≡ false)
      ⊎ (((write_file no_rename 2 old).1 ≡ write_failed) × (no_rename.remove_temp ≡ false)))
    × ((((write_file no_rename 2 old).1 ≡ write_failed)
          × ((write_file no_rename 2 old).0.target ≡ some 1))
        ⊎ (((write_file no_rename 2 old).1 ≢ write_failed)
            × ((write_file no_rename 2 old).0.target ≡ some 2)))
write_file_atomic_example = write_file_atomic no_rename 2 old refl
