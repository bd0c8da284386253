-- ===== src/Filesys/Stat.antt =====
-- What kind of file a mode of `stat` tells of, and who may do what with it, in lib/spr_filesys.c. The
-- tests and masks of sys/stat.h are parameters.
pub mod Permissions
use Prim.Native.Nat.{bit_or}
use spr.Base.{ℕ, Bool, if◌then◌else◌}
use spr.Mutex.{bit_is_set}

-- `SPR_FILE_TYPE_*`
pub data FileType : Type 0 where
  unkfile file dir chr blk pipe link sock : FileType

-- `S_ISREG` and so on, and `S_ISUID` and so on
pub record StatHeader : Type 0 where
  pub is_reg : ℕ → Bool
  pub is_dir : ℕ → Bool
  pub is_chr : ℕ → Bool
  pub is_blk : ℕ → Bool
  pub is_fifo : ℕ → Bool
  pub is_lnk : ℕ → Bool
  pub is_sock : ℕ → Bool
  pub isuid : ℕ
  pub irusr : ℕ
  pub iwusr : ℕ
  pub ixusr : ℕ
  pub isgid : ℕ
  pub irgrp : ℕ
  pub iwgrp : ℕ
  pub ixgrp : ℕ
  pub isvtx : ℕ
  pub iroth : ℕ
  pub iwoth : ℕ
  pub ixoth : ℕ

-- `spr_stat_get_file_type` (POSIX): the last test that holds decides.
unfoldable pub file_type : StatHeader → ℕ → FileType
file_type header mode =
    let type0 = if header.is_reg mode then file else unkfile in
    let type1 = if header.is_dir mode then dir else type0 in
    let type2 = if header.is_chr mode then chr else type1 in
    let type3 = if header.is_blk mode then blk else type2 in
    let type4 = if header.is_fifo mode then pipe else type3 in
    let type5 = if header.is_lnk mode then link else type4 in
    if header.is_sock mode then sock else type5

-- `if (mode & mask) access |= flag;`
abbrev pub grant : (mode mask flag : ℕ) → ℕ → ℕ
grant mode mask flag access = if bit_is_set mode mask then bit_or access flag else access

abbrev pub owner_access : StatHeader → ℕ → ℕ → ℕ
owner_access header mode access = grant mode header.ixusr 0x0100 (
    grant mode header.iwusr 0x0200
      (grant mode header.irusr 0x0400 (grant mode header.isuid 0x8000 access)))

abbrev pub group_access : StatHeader → ℕ → ℕ → ℕ
group_access header mode access = grant mode header.ixgrp 0x0010 (
    grant mode header.iwgrp 0x0020
      (grant mode header.irgrp 0x0040 (grant mode header.isgid 0x4000 access)))

abbrev pub other_access : StatHeader → ℕ → ℕ → ℕ
other_access header mode access = grant mode header.ixoth 0x0001 (
    grant mode header.iwoth 0x0002
      (grant mode header.iroth 0x0004 (grant mode header.isvtx 0x2000 access)))

-- `spr_stat_get_access`
unfoldable pub file_access : StatHeader → ℕ → ℕ
file_access header mode =
    other_access header mode (group_access header mode (owner_access header mode 0))

-- `spr_stat_get_file_type` of Windows, with FILE_ATTRIBUTE_DIRECTORY
unfoldable pub file_type_windows : (directory attributes : ℕ) → FileType
file_type_windows directory attributes =
    let type0 = if bit_is_set attributes directory then dir else unkfile in
    if bit_is_set attributes directory then type0 else file
