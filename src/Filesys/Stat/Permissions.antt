-- ===== src/Filesys/Stat/Permissions.antt =====
-- What `spr_stat_get_access` of lib/spr_filesys.c makes of the permissions in a mode of POSIX.
use spr.Base.{
  ℕ, zero, suc, ◌+◌, ◌*◌, ◌/◌, ◌%◌, ◌<◌, ◌≡◌, refl, ap, ◌∙◌, ◌==◌, not, if◌then◌else◌, arith,
}
use Prim.Native.Nat.{bit_and}
use spr.Base.Bits.Single.{bit, one_bit, bit-lt-two, bit_and-one_bit, bit_or-one_bit}
use spr.Filesys.Stat.{StatHeader, grant, owner_access, group_access, other_access, file_access}

-- The values that POSIX gives the masks.
pub record IsPosixHeader (header : StatHeader) : Type 0 where
  pub isuid : header.isuid ≡ 2048
  pub isgid : header.isgid ≡ 1024
  pub isvtx : header.isvtx ≡ 512
  pub irusr : header.irusr ≡ 256
  pub iwusr : header.iwusr ≡ 128
  pub ixusr : header.ixusr ≡ 64
  pub irgrp : header.irgrp ≡ 32
  pub iwgrp : header.iwgrp ≡ 16
  pub ixgrp : header.ixgrp ≡ 8
  pub iroth : header.iroth ≡ 4
  pub iwoth : header.iwoth ≡ 2
  pub ixoth : header.ixoth ≡ 1

one_bit-positive : (k : ℕ) → 0 < one_bit k
one_bit-positive zero = omega arith
one_bit-positive (suc k) = omega (arith, one_bit-positive k)

grant_value :
    (b c flag acc one : ℕ)
    → b < 2
    → 0 < one
    → c ≡ b * one
    → (if not (c == 0) then acc + flag else acc) ≡ acc + b * flag
grant_value zero c flag acc one h p e = ground (arith, e)
grant_value (suc zero) c flag acc one h p e = ground (arith, e)
grant_value (suc (suc b)) c flag acc one h p e = absurd (omega arith)

-- A grant of a flag that is not there yet, by one digit of the mode.
grant_lem :
    (mode mask k p acc : ℕ)
    → mask ≡ one_bit k
    → bit p acc ≡ 0
    → grant mode mask (one_bit p) acc ≡ acc + bit k mode * one_bit p
grant_lem mode mask k p acc e free =
    ap (λ m. grant mode m (one_bit p) acc) e
    ∙ ap (λ f. if not (bit_and mode (one_bit k) == 0) then f else acc) (bit_or-one_bit p acc free)
    ∙ grant_value (bit k mode) (bit_and mode (one_bit k)) (one_bit p) acc (one_bit k)
        (bit-lt-two k mode) (one_bit-positive k) (bit_and-one_bit k mode)

-- The flag and the permissions of one class, by the digits `k` and `t` to `t + 2` of a mode.
abbrev class_value : (mode k t flag unit : ℕ) → ℕ
class_value mode k t flag unit =
    bit k mode * flag
    + bit (suc (suc t)) mode * (4 * unit)
    + bit (suc t) mode * (2 * unit)
    + bit t mode * unit

module _ (header : StatHeader) (posix : IsPosixHeader header) (mode : ℕ) where
  b : (k : ℕ) → bit k mode < 2
  b k = bit-lt-two k mode

  owner_lem : owner_access header mode 0 ≡ class_value mode 11 6 0x8000 0x100
  owner_lem =
      let a1 = grant_lem mode header.isuid 11 15 0 posix.isuid refl in
      let a2 =
        ap (grant mode header.irusr 0x400) a1
        ∙ grant_lem mode header.irusr 8 10 _ posix.irusr (omega (arith, b 11)) in
      let a3 =
        ap (grant mode header.iwusr 0x200) a2
        ∙ grant_lem mode header.iwusr 7 9 _ posix.iwusr (omega (arith, b 11, b 8)) in
      ap (grant mode header.ixusr 0x100) a3
      ∙ grant_lem mode header.ixusr 6 8 _ posix.ixusr (omega (arith, b 11, b 8, b 7))
      ∙ omega arith

  group_lem :
      group_access header mode (class_value mode 11 6 0x8000 0x100)
      ≡ class_value mode 11 6 0x8000 0x100 + class_value mode 10 3 0x4000 0x10
  group_lem =
      let a1 =
        grant_lem mode header.isgid 10 14 (class_value mode 11 6 0x8000 0x100) posix.isgid
          (omega (arith, b 11, b 8, b 7, b 6)) in
      let a2 =
        ap (grant mode header.irgrp 0x40) a1
        ∙ grant_lem mode header.irgrp 5 6 _ posix.irgrp
            (omega (arith, b 11, b 8, b 7, b 6, b 10)) in
      let a3 =
        ap (grant mode header.iwgrp 0x20) a2
        ∙ grant_lem mode header.iwgrp 4 5 _ posix.iwgrp
            (omega (arith, b 11, b 8, b 7, b 6, b 10, b 5)) in
      ap (grant mode header.ixgrp 0x10) a3
      ∙ grant_lem mode header.ixgrp 3 4 _ posix.ixgrp
          (omega (arith, b 11, b 8, b 7, b 6, b 10, b 5, b 4))
      ∙ omega arith

  other_lem :
      other_access header mode
        (class_value mode 11 6 0x8000 0x100 + class_value mode 10 3 0x4000 0x10)
      ≡ class_value mode 11 6 0x8000 0x100
        + class_value mode 10 3 0x4000 0x10
        + class_value mode 9 0 0x2000 0x1
  other_lem =
      let a1 =
        grant_lem mode header.isvtx 9 13
          (class_value mode 11 6 0x8000 0x100 + class_value mode 10 3 0x4000 0x10) posix.isvtx
          (omega (arith, b 11, b 8, b 7, b 6, b 10, b 5, b 4, b 3)) in
      let a2 =
        ap (grant mode header.iroth 0x4) a1
        ∙ grant_lem mode header.iroth 2 2 _ posix.iroth
            (omega (arith, b 11, b 8, b 7, b 6, b 10, b 5, b 4, b 3, b 9)) in
      let a3 =
        ap (grant mode header.iwoth 0x2) a2
        ∙ grant_lem mode header.iwoth 1 1 _ posix.iwoth
            (omega (arith, b 11, b 8, b 7, b 6, b 10, b 5, b 4, b 3, b 9, b 2)) in
      ap (grant mode header.ixoth 0x1) a3
      ∙ grant_lem mode header.ixoth 0 0 _ posix.ixoth
          (omega (arith, b 11, b 8, b 7, b 6, b 10, b 5, b 4, b 3, b 9, b 2, b 1))
      ∙ omega arith

  -- `spr_stat_get_access`, where the masks of sys/stat.h have the values that POSIX gives them, is the
  -- mode regrouped: each class of permissions is the next hexadecimal digit, the owner the third, and
  -- the sticky bit and the two of the identity are the upper bits of the fourth.
  pub file_access_lem :
      file_access header mode
      ≡ mode % 8 + mode / 8 % 8 * 0x10 + mode / 64 % 8 * 0x100 + mode / 512 % 8 * 0x2000
  unfolding file_access
  file_access_lem =
      ap (λ a. other_access header mode (group_access header mode a)) owner_lem
      ∙ ap (other_access header mode) group_lem
      ∙ other_lem
      ∙ omega arith
