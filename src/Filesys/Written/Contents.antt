-- ===== src/Filesys/Written/Contents.antt =====
-- What a file holds after `spr_file_write` of lib/spr_filesys.c, and what `spr_file_read` reads then.
use spr.Base.{
  ℕ, ◌+◌, ◌-◌, ◌≤◌, ◌<◌, ◌≡◌, refl, sym, ap, subst, ◌∙◌, List, [], ◌∷◌, length, length-take, take,
  take_add, take_all, drop, arith,
}
use spr.Base.Int.{ℤ, pos, pos_part}
use spr.Base.Word.{word}
use spr.Filesys.{Journal, Kernel, Outcome, ended, no_fuel, file_write}
use spr.Filesys.File.{Posix, SprFile, seek_set, file_read}
use spr.Filesys.Written.Bytes.{overwrite, overwrite-append, read_back}
use spr.Filesys.Written.{IsWriting, Ends, ends, file_write-Ends}

-- A descriptor of a regular file, whose calls do what POSIX says and are not interrupted: what the
-- file holds and where the next call works are told by the state of the system. A call of `write` may
-- take a part of the bytes, but none only if there are none.
pub record IsRegular {S : Type 0} (os : Posix S) (fd : ℤ) : Type 0 where
  pub contents : S → List ℕ
  pub place : S → ℕ
  pub taken : List ℕ → ℕ → S → ℕ
  pub seeks : (offset : ℕ) (s : S) → (os.lseek fd (pos offset) seek_set s).0 ≡ pos offset
  pub seeks_place : (offset : ℕ) (s : S) → place (os.lseek fd (pos offset) seek_set s).1 ≡ offset
  pub seeks_contents :
      (offset : ℕ) (s : S) → contents (os.lseek fd (pos offset) seek_set s).1 ≡ contents s
  pub writes :
      (bytes : List ℕ) (size : ℕ) (s : S) → (os.write fd bytes size s).0 ≡ pos (taken bytes size s)
  pub writes_some : (bytes : List ℕ) (size : ℕ) (s : S) → 0 < size → 0 < taken bytes size s
  pub writes_most : (bytes : List ℕ) (size : ℕ) (s : S) → taken bytes size s ≤ size
  pub writes_place :
      (bytes : List ℕ) (size : ℕ) (s : S)
      → place (os.write fd bytes size s).1 ≡ place s + taken bytes size s
  pub writes_contents :
      (bytes : List ℕ) (size : ℕ) (s : S)
      → contents (os.write fd bytes size s).1
        ≡ overwrite (contents s) (place s) (take (taken bytes size s) bytes)
  pub reads :
      (size : ℕ) (s : S)
      → (os.read fd size s).0 ≡ (
        pos (length (take size (drop (place s) (contents s)))),
        take size (drop (place s) (contents s)),
      )

module _ {S : Type 0} (os : Posix S) (fd : ℤ) (buf : List ℕ) (offset : ℕ) (s : S) where
  -- The state behind the writes of a journal of this buffer, from the call of `lseek` on.
  abbrev pub replay : Journal → S
  replay [] = (os.lseek fd (pos offset) seek_set s).1
  replay ((from, count) ∷ done) = (os.write fd (drop from buf) (length buf - from) (replay done)).1

  -- The calls of `spr_file_write` at this system.
  abbrev pub kernel : Kernel
  kernel = record {
    lseek = λ n. (os.lseek fd (pos n) seek_set s).0;
    write = λ done from size.
        let r = (os.write fd (drop from buf) size (replay done)).0 in
        (r, (from, pos_part r) ∷ done);
  }

  module _ (file : IsRegular os fd) where
    kernel-IsWriting : IsWriting kernel
    kernel-IsWriting = record {
      seeks = λ n. rw (file.seeks n s) refl;
      works = λ done from size. rw (file.writes (drop from buf) size (replay done)) refl;
      some_bytes = λ done from size h.
          rw (file.writes (drop from buf) size (replay done))
            (file.writes_some (drop from buf) size (replay done) h);
      notes = λ done from size. refl;
      no_more = λ done from size.
          rw (file.writes (drop from buf) size (replay done))
            (file.writes_most (drop from buf) size (replay done));
    }

    -- The first `n` bytes of the buffer are in the file, and the next is written behind them.
    abbrev Stored : ℕ → Journal → Type 0
    Stored n done =
        (file.place (replay done) ≡ offset + n)
        × (file.contents (replay done) ≡ overwrite (file.contents s) offset (take n buf))

    Stored-keep :
        (done : Journal) (written size : ℕ)
        → written + size ≡ length buf
        → Stored written done
        → Stored
            (written + pos_part (kernel.write done written size).0)
            ((written, pos_part (kernel.write done written size).0) ∷ done)
    Stored-keep done written size all (here, holds) =
        let bytes = drop written buf in
        let count = file.taken bytes size (replay done) in
        let more : length buf - written ≡ size = omega (arith, all) in
        let len = length-take written buf (omega (arith, all)) in
        let behind : offset + written ≡ offset + length (take written buf) = omega (arith, len) in
        let After : S → Type 0 = λ r.
          (file.place r ≡ offset + (written + count))
          × (file.contents r ≡ overwrite (file.contents s) offset (take (written + count) buf)) in
        let wrote : After (os.write fd bytes size (replay done)).1 = (
          file.writes_place bytes size (replay done) ∙ omega (arith, here),
          file.writes_contents bytes size (replay done)
              ∙ ap (λ m. overwrite (file.contents (replay done)) m (take count bytes))
                  (here ∙ behind)
              ∙ ap (λ c. overwrite c (offset + length (take written buf)) (take count bytes)) holds
              ∙ overwrite-append (file.contents s) offset (take written buf) (take count bytes)
              ∙ ap (overwrite (file.contents s) offset) (take_add written count buf),
        ) in
        let next : Stored (written + count) ((written, count) ∷ done) =
          subst (λ m. After (os.write fd bytes m (replay done)).1) (sym more) wrote in
        subst (λ r. Stored (written + pos_part r) ((written, pos_part r) ∷ done))
          (sym (file.writes bytes size (replay done))) next

    -- The file as it is after the call, and what a call of `spr_file_read` gives then.
    abbrev pub Reads : SprFile → Outcome → Type 0
    Reads handle no_fuel = ⊥
    Reads handle (ended r at done) =
        (r ≡ pos (length buf))
        × (file.contents (replay done) ≡ overwrite (file.contents s) offset buf)
        × ((file_read os handle (length buf) (pos offset) (replay done)).0.0 ≡ pos (length buf))
        × ((file_read os handle (length buf) (pos offset) (replay done)).0.1 ≡ buf)

    read_stored :
        (handle : SprFile) (done : Journal)
        → handle.fd ≡ fd
        → file.contents (replay done) ≡ overwrite (file.contents s) offset buf
        → ((file_read os handle (length buf) (pos offset) (replay done)).0.0 ≡ pos (length buf))
          × ((file_read os handle (length buf) (pos offset) (replay done)).0.1 ≡ buf)
    unfolding file_read
    read_stored handle done same holds =
        let r = (os.lseek fd (pos offset) seek_set (replay done)).1 in
        let bytes : take (length buf) (drop (file.place r) (file.contents r)) ≡ buf =
          ap (λ c. take (length buf) (drop (file.place r) c))
            (file.seeks_contents offset (replay done) ∙ holds)
          ∙ ap (λ n. take (length buf) (drop n (overwrite (file.contents s) offset buf)))
              (file.seeks_place offset (replay done))
          ∙ read_back (file.contents s) offset buf in
        let read : (os.read fd (length buf) r).0 ≡ (pos (length buf), buf) =
          file.reads (length buf) r ∙ ap (λ l. (pos (length l), l)) bytes in
        rw (file_read, same, file.seeks offset (replay done), read) (refl, refl)

    Ends-Reads :
        {o : Outcome} (handle : SprFile) (current : ℕ)
        → handle.fd ≡ fd
        → Ends Stored current (length buf) o
        → Reads handle o
    Ends-Reads handle current same (ends {done = done} e f (here, holds)) =
        let whole : file.contents (replay done) ≡ overwrite (file.contents s) offset buf =
          holds
          ∙ ap (overwrite (file.contents s) offset) (take_all (length buf) buf (omega arith)) in
        let (count, bytes) = read_stored handle done same whole in (ap pos e, whole, count, bytes)

-- `spr_file_write` of a buffer to a regular file, whose calls are not interrupted but may write a part
-- of the bytes, ends and returns the number of bytes; the file then holds the buffer at the offset and
-- is elsewhere as before, with zeros up to the offset if that was behind its end; and
-- `spr_file_read` of as many bytes at the offset returns them.
pub file_write-Reads :
    {S : Type 0} (os : Posix S) (fd : ℤ) (file : IsRegular os fd) (buf : List ℕ) (offset : ℕ)
    (s : S)
    → (handle : SprFile) → handle.fd ≡ fd
    → handle.offset + length buf < word
    → Reads os fd buf offset s file handle (
        file_write
          (kernel os fd buf offset s)
          (length buf + 1)
          handle.offset
          (length buf)
          offset
          [])
file_write-Reads os fd file buf offset s handle same fits =
    Ends-Reads os fd buf offset s file handle handle.offset same (
      file_write-Ends (kernel os fd buf offset s) (kernel-IsWriting os fd buf offset s file)
        (Stored os fd buf offset s file) (length buf) (Stored-keep os fd buf offset s file)
        handle.offset offset fits
        (file.seeks_place offset s ∙ omega arith, file.seeks_contents offset s))
