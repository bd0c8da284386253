-- ===== src/Filesys/Tests.antt =====
-- The theorems on files and paths at small systems and short paths.

use spr.Base.{
  ℕ, ◌≡◌, refl, false, none, some, true, List, [], ◌∷◌, ◌++◌, All, leb, if◌then◌else◌, arith,
  length, take, drop, ◌+◌, ◌/◌, ◌==◌,
}
use spr.Mutex.{success}
use spr.Host.{done}
use spr.Filesys.Utf8.{utf8_decode}
use spr.Filesys.Utf8.RoundTrip.{utf8_encode, utf8_decode-utf8_encode}
use spr.Filesys.WidePath.{path_to_wchar, wide_buffer}
use spr.Filesys.WidePath.RoundTrip.{IsCharacter, utf8, utf16, path_to_wchar-utf8}
use spr.Filesys.WidePath.Overflow.{wide_buffer-overflow}
use spr.Filesys.Path.{full_path}
use spr.Filesys.Path.Laws.{full_path_lem}
use spr.Filesys.File.{Posix, SprFile}
use spr.Filesys.Stat.{StatHeader, file_access}
use spr.Filesys.Stat.Permissions.{IsPosixHeader, file_access_lem}
use spr.Filesys.Glob.{SprGlob, glob_open}
use spr.Filesys.Glob.Reads.{read_all, glob_open-read_all}
use spr.Filesys.Written.Bytes.{overwrite}
use spr.Filesys.Written.Contents.{IsRegular, Reads, kernel, file_write-Reads}
use spr.Filesys.Windows.{Windows}
use spr.Filesys.Windows.Find.{WinGlob, win_glob_read}
use spr.Filesys.Windows.Find.Fits.{Wrote, win_glob_read-Wrote}
use spr.Base.Int.{pos, pos_part}
use spr.Filesys.{Kernel, file_write}
use spr.Filesys.Written
use spr.Filesys.Written.{IsWriting, file_write-Wrote}

abbrev slow : Kernel
slow = record {
  lseek = λ offset. pos offset;
  write = λ done from size. let n = if leb size 3 then size else 3 in (pos n, (from, n) ∷ done);
}

slow-IsWriting : IsWriting slow
slow-IsWriting = record {
  notes = λ done from size. refl;
  seeks = λ offset. refl;
  works = λ done from size. refl;
  some_bytes = λ done from size h. ground arith;
  no_more = λ done from size. ground arith;
}

file_write-Wrote_example : Written.Wrote 100 8 (file_write slow 9 100 8 100 [])
file_write-Wrote_example = file_write-Wrote slow slow-IsWriting 100 8 100 (omega arith)

-- A euro sign.
utf8_decode-utf8_encode_example :
    utf8_decode (utf8_encode 0x20ac ++ 65 ∷ 0 ∷ []) 4 ≡ some (0x20ac, 65 ∷ 0 ∷ [])
utf8_decode-utf8_encode_example =
    utf8_decode-utf8_encode 0x20ac (65 ∷ 0 ∷ []) (omega arith) (omega arith)

-- A letter, a euro sign and a character of two units.
abbrev name : List ℕ
name = 65 ∷ 0x20ac ∷ 0x1f600 ∷ []

abbrev name-IsCharacter : All IsCharacter name
name-IsCharacter =
    ((omega arith, omega arith), ((omega arith, omega arith), ((omega arith, omega arith), tt)))

path_to_wchar-utf8_example :
    path_to_wchar 5 (utf8 name ++ 0 ∷ 7 ∷ []) ≡ some (true, utf16 name ++ 0 ∷ [])
path_to_wchar-utf8_example = path_to_wchar-utf8 5 name (7 ∷ []) name-IsCharacter (omega arith)

-- Four units and the terminator in a buffer of four.
wide_buffer-overflow_example : wide_buffer 4 (utf8 name ++ 0 ∷ []) ≡ none
wide_buffer-overflow_example = wide_buffer-overflow 4 name [] name-IsCharacter (omega arith)

-- "a/" and "b"
full_path_lem_example :
    full_path 47 (97 ∷ 47 ∷ 0 ∷ []) (98 ∷ 0 ∷ [])
    ≡ some (record { copied = 3; buf = 97 ∷ 47 ∷ 98 ∷ 0 ∷ [] })
full_path_lem_example =
    full_path_lem 47 (97 ∷ 47 ∷ []) (98 ∷ []) [] []
      ((omega arith, omega arith), ((omega arith, omega arith), tt))
      ((omega arith, omega arith), tt)

-- A system that does nothing but find two paths.
abbrev finder : Posix ℕ
finder = record {
  errno = λ s. pos 0;
  open_fd = λ path flags access s. (pos 3, s);
  close = λ fd s. (pos 0, s);
  lseek = λ fd offset whence s. (pos 0, s);
  read = λ fd size s. ((pos 0, []), s);
  write = λ fd buf size s. (pos 0, s);
  stat = λ path s. ((pos 0, 0), s);
  fstat = λ fd s. ((pos 0, 0), s);
  opendir = λ path s. (0, s);
  readdir = λ dir s. (none, s);
  closedir = λ dir s. (pos 0, s);
  glob = λ pattern s. ((pos 0, (97 ∷ 0 ∷ []) ∷ (98 ∷ 99 ∷ 0 ∷ []) ∷ []), s);
  globfree = λ paths s. (tt, s);
}

abbrev no_glob : SprGlob
no_glob = record { pathv = []; pattern = none; last = 9 }

glob_open-read_all_example :
    ((glob_open finder no_glob (42 ∷ 0 ∷ []) 0).0.0 ≡ success)
    × (read_all 3 (glob_open finder no_glob (42 ∷ 0 ∷ []) 0).0.1
        ≡ some ((97 ∷ 0 ∷ []) ∷ (98 ∷ 99 ∷ 0 ∷ []) ∷ [], done))
glob_open-read_all_example =
    glob_open-read_all finder no_glob (42 ∷ 0 ∷ []) ((97 ∷ []) ∷ (98 ∷ 99 ∷ []) ∷ []) 0 refl (
      ((omega arith, omega arith), tt),
      (((omega arith, omega arith), ((omega arith, omega arith), tt)), tt),
    )

-- A system that finds the file "b" without end.
abbrev repeating : Windows ℕ
repeating = record {
  get_last_error = λ s. pos 0;
  create_file = λ path mode create s. (pos 3, s);
  close_handle = λ fd s. (1, s);
  read_file = λ fd size at s. (record { worked = 1; count = 0; bytes = [] }, s);
  write_file = λ fd buf size at s. (record { worked = 1; count = size; bytes = [] }, s);
  get_file_size = λ fd s. ((1, pos 0), s);
  get_file_size32 = λ fd s. (0, s);
  get_file_attributes = λ path s. ((1, 16), s);
  get_file_information = λ fd s. ((pos 1, 16), s);
  find_first_file = λ pattern s. ((pos 5, 98 ∷ 0 ∷ []), s);
  find_next_file = λ fd s. ((1, 98 ∷ 0 ∷ []), s);
  find_close = λ fd s. (1, s);
  invalid_handle = pos 99;
  no_more_files = pos 18;
  too_big = pos 7;
  directory = 16;
  max_path = 260;
}

-- The pattern is `a\*`.
abbrev found_b : WinGlob
found_b = record {
  dir = pos 5;
  found = 98 ∷ 0 ∷ [];
  pattern = 97 ∷ 92 ∷ 42 ∷ 0 ∷ [];
  prefix_len = 2;
  finished = false;
}

win_glob_read-Wrote_example :
    Wrote 260 (97 ∷ 92 ∷ 98 ∷ 0 ∷ []) (win_glob_read repeating found_b 0).0
win_glob_read-Wrote_example =
    win_glob_read-Wrote repeating found_b (98 ∷ []) [] 0 refl ((omega arith, omega arith), tt)
      (omega arith)

-- A system with one file, its bytes and the place in it, that writes at most three bytes a call.
abbrev one_file : Posix (List ℕ × ℕ)
one_file = record {
  errno = λ s. pos 0;
  open_fd = λ path flags access s. (pos 3, s);
  close = λ fd s. (pos 0, s);
  lseek = λ fd offset whence s. (offset, (s.0, pos_part offset));
  read = λ fd size s.
      ((pos (length (take size (drop s.1 s.0))), take size (drop s.1 s.0)), (s.0, s.1 + size));
  write = λ fd buf size s.
      let n = if leb size 3 then size else 3 in (pos n, (overwrite s.0 s.1 (take n buf), s.1 + n));
  stat = λ path s. ((pos 0, 0), s);
  fstat = λ fd s. ((pos 0, 0), s);
  opendir = λ path s. (0, s);
  readdir = λ dir s. (none, s);
  closedir = λ dir s. (pos 0, s);
  glob = λ pattern s. ((pos 0, []), s);
  globfree = λ paths s. (tt, s);
}

one_file-IsRegular : IsRegular one_file (pos 3)
one_file-IsRegular = record {
  contents = λ s. s.0;
  place = λ s. s.1;
  taken = λ bytes size s. if leb size 3 then size else 3;
  seeks = λ offset s. refl;
  seeks_place = λ offset s. refl;
  seeks_contents = λ offset s. refl;
  writes = λ bytes size s. refl;
  writes_some = λ bytes size s h. ground arith;
  writes_most = λ bytes size s. ground arith;
  writes_place = λ bytes size s. refl;
  writes_contents = λ bytes size s. refl;
  reads = λ size s. refl;
}

abbrev handle : SprFile
handle = record { fd = pos 3; name = none; offset = 0 }

-- Five bytes behind the end of a file of one byte.
file_write-Reads_example :
    Reads one_file
      (pos 3)
      (1 ∷ 2 ∷ 3 ∷ 4 ∷ 5 ∷ [])
      2
      (9 ∷ [], 0)
      one_file-IsRegular
      handle
      (file_write (kernel one_file (pos 3) (1 ∷ 2 ∷ 3 ∷ 4 ∷ 5 ∷ []) 2 (9 ∷ [], 0)) 6 0 5 2 [])
file_write-Reads_example =
    file_write-Reads one_file (pos 3) one_file-IsRegular (1 ∷ 2 ∷ 3 ∷ 4 ∷ 5 ∷ []) 2 (9 ∷ [], 0)
      handle refl (omega arith)

-- sys/stat.h of Linux
abbrev linux : StatHeader
linux = record {
  is_reg = λ mode. mode / 4096 == 8;
  is_dir = λ mode. mode / 4096 == 4;
  is_chr = λ mode. mode / 4096 == 2;
  is_blk = λ mode. mode / 4096 == 6;
  is_fifo = λ mode. mode / 4096 == 1;
  is_lnk = λ mode. mode / 4096 == 10;
  is_sock = λ mode. mode / 4096 == 12;
  isuid = 2048;
  isgid = 1024;
  isvtx = 512;
  irusr = 256;
  iwusr = 128;
  ixusr = 64;
  irgrp = 32;
  iwgrp = 16;
  ixgrp = 8;
  iroth = 4;
  iwoth = 2;
  ixoth = 1;
}

linux-IsPosixHeader : IsPosixHeader linux
linux-IsPosixHeader = record {
  isuid = refl;
  isgid = refl;
  isvtx = refl;
  irusr = refl;
  iwusr = refl;
  ixusr = refl;
  irgrp = refl;
  iwgrp = refl;
  ixgrp = refl;
  iroth = refl;
  iwoth = refl;
  ixoth = refl;
}

-- A regular file of mode 4755: 35309 is 0104755.
file_access_lem_example : file_access linux 35309 ≡ 0x8755
file_access_lem_example = file_access_lem linux linux-IsPosixHeader 35309
