-- ===== src/Errno/Trimmed/Message.antt =====
-- What `spr_strerror` of lib/spr_errno.c shows of a message of Windows.
use spr.Base.{
  ℕ, ◌-◌, if◌then◌else◌, zero, suc, ◌≤◌, ◌<◌, ◌≡◌, ◌⊎◌, inl, inr, refl, sym, ap, subst, ◌∙◌, true,
  false, some, List, [], ◌∷◌, ◌++◌, length, length-append, get_elem?, get_elem?-left,
  get_elem?-right, Option, none, ◌==◌, ◌&&◌, All, take_all, arith, lt_or_ge,
}
use mathlib.Core.List.{append_assoc}
use spr.Base.Int.{ℤ, pos, ltb_ℤ}
use spr.Memory.Contents.{memmove-take, stored-Reads, stored_elsewhere}
use spr.Memory
use spr.Sys.{Cmd, pure, fault_cmd, ◌>>◌, ok, stored, World, record_event, Returns, returns}
use spr.Errno.{domain_base, list_strerror}
use spr.Errno.Messages.{unknown, unknown_text}
use spr.Errno.Shows.{Shows}
use spr.Errno.Laws.{list_strerror-Shows}
use spr.Errno.Trimmed.{Trims, trims, is_tail, trim-Trims}
use spr.Errno.Windows.{is_trimmed, trim, win_os_strerror, win_strerror}

-- What `FormatMessage` answers in the first of the two languages in which it has a message.
abbrev pub answer_of : (ℤ → ℕ → ℕ → ℕ × List ℕ) → ℤ → ℕ → ℕ × List ℕ
answer_of format_message err bufsize =
    let first = format_message err 0x0409 bufsize in
    if first.0 == 0 then format_message err 0 bufsize else first

-- A full stop, a carriage return or a line feed.
abbrev pub IsEnding : ℕ → Type 0
IsEnding c = (c ≡ 46) ⊎ ((c ≡ 13) ⊎ (c ≡ 10))

-- The answer is a message that fits, which is a text and any full stops and ends of lines behind it; or
-- there is none, and the text is that of an unknown error.
pub data Says (bufsize : ℕ) : List ℕ → ℕ × List ℕ → Type 0 where
  says :
      (front tail : List ℕ) (last : ℕ)
      → 0 < last
      → ¬ IsEnding last
      → All IsEnding tail
      → length (front ++ last ∷ tail) < bufsize
      → Says bufsize
          (front ++ last ∷ [])
          (length (front ++ last ∷ tail), front ++ last ∷ (tail ++ 0 ∷ []))
  says_nothing : (bytes : List ℕ) → Says bufsize unknown_text (0, bytes)

IsEnding-is_trimmed : (c : ℕ) → IsEnding c → is_trimmed c ≡ true
IsEnding-is_trimmed c (inl e) = rw (e) refl
IsEnding-is_trimmed c (inr (inl e)) = rw (e) refl
IsEnding-is_trimmed c (inr (inr e)) = rw (e) refl

is_trimmed_not : (c : ℕ) → 0 < c → ¬ IsEnding c → is_trimmed c ≡ false
is_trimmed_not c p h =
    let stop : ¬ (c ≡ 46) = λ e. h (inl e) in
    let return : ¬ (c ≡ 13) = λ e. h (inr (inl e)) in
    let feed : ¬ (c ≡ 10) = λ e. h (inr (inr e)) in ground arith

tail-is_tail :
    (tail : List ℕ) (i : ℕ)
    → All IsEnding tail
    → i ≤ length tail
    → is_tail (get_elem? (tail ++ 0 ∷ []) i) ≡ true
tail-is_tail [] zero h l = refl
tail-is_tail [] (suc i) h l = absurd (omega (arith, l))
tail-is_tail (c ∷ tail) zero h l = IsEnding-is_trimmed c h.0
tail-is_tail (c ∷ tail) (suc i) h l = tail-is_tail tail i h.1 (omega (arith, l))

-- The trimmed message.
says-Trims :
    (front tail : List ℕ) (last : ℕ)
    → is_trimmed last ≡ false
    → All IsEnding tail
    → Trims
        (length front)
        (length (front ++ last ∷ tail))
        (front ++ last ∷ (tail ++ 0 ∷ []))
        (trim (length (front ++ last ∷ tail)) (front ++ last ∷ (tail ++ 0 ∷ [])))
says-Trims front tail last f h =
    let bytes = front ++ last ∷ (tail ++ 0 ∷ []) in
    let n = length-append front (last ∷ tail) in
    let m = length-append front (last ∷ (tail ++ 0 ∷ [])) in
    let k = length-append tail (0 ∷ []) in
    trim-Trims (length (front ++ last ∷ tail)) (length front) last bytes (omega (arith, n))
      (omega (arith, n, m, k))
      (ap (get_elem? bytes) (omega arith) ∙ get_elem?-right front (last ∷ (tail ++ 0 ∷ [])) 0) f
      λ i a b.
        let j = i - suc (length front) in
        ap (λ x. is_tail (get_elem? bytes x)) (omega (arith, a))
        ∙ ap is_tail (get_elem?-right front (last ∷ (tail ++ 0 ∷ [])) (suc j))
        ∙ tail-is_tail tail j h (omega (arith, a, b, n))

-- The end of `spr_os_strerror`, and what `spr_strerror` does with it.
abbrev os_message : ℕ × List ℕ → Option (Option (List ℕ))
os_message (len, bytes) =
    if len == 0 then some none else elim (trim len bytes) [ none ↦ none | some b ↦ some (some b) ]

abbrev finish : (buf bufsize : ℕ) → Option (Option (List ℕ)) → Cmd ℕ
finish buf bufsize none = fault_cmd
finish buf bufsize (some none) = list_strerror unknown buf bufsize
finish buf bufsize (some (some message)) = do Memory.memmove buf message (length message); pure buf

win_strerror-finish :
    (format_message : ℤ → ℕ → ℕ → ℕ × List ℕ) (err : ℤ) (buf bufsize : ℕ) (w : World)
    → (ltb_ℤ (pos 0) err && ltb_ℤ err domain_base) ≡ true
    → 0 < bufsize
    → finish buf bufsize (os_message (answer_of format_message err bufsize)) w
      ≡ win_strerror format_message err buf bufsize w
unfolding win_strerror win_os_strerror
win_strerror-finish format_message err buf bufsize w own p =
    let nz : (bufsize == 0) ≡ false = ground arith in
    rw (win_strerror, win_os_strerror, own, nz) refl

-- What a trimmed message shows in the buffer.
Trims-Shows :
    (front tail : List ℕ) (last buf bufsize : ℕ) (w : World) {r : Option (List ℕ)}
    → length (front ++ last ∷ tail) < bufsize
    → Trims (length front) (length (front ++ last ∷ tail)) (front ++ last ∷ (tail ++ 0 ∷ [])) r
    → Returns
        (λ r w'. (r ≡ buf) × Shows buf bufsize (front ++ last ∷ []) w w')
        (finish buf bufsize (elim r [ none ↦ none | some b ↦ some (some b) ]) w)
Trims-Shows front tail last buf bufsize w {r = none} l m = elim m [ ]
Trims-Shows front tail last buf bufsize w {r = some b} l (trims m) =
    let text = front ++ last ∷ [] in
    let bytes = front ++ last ∷ (tail ++ 0 ∷ []) in
    let same : bytes ≡ text ++ (tail ++ 0 ∷ []) =
      sym (append_assoc front (last ∷ []) (tail ++ 0 ∷ [])) in
    let n = length-append front (last ∷ tail) in
    let t = length-append front (last ∷ []) in
    let z = length-append text (0 ∷ []) in
    let k = length-append front (last ∷ (tail ++ 0 ∷ [])) in
    let j = length-append tail (0 ∷ []) in
    let e : Memory.memmove buf b (length b) w ≡ ok tt (record_event (stored buf b) w) =
      memmove-take buf b (length b) w (omega arith)
      ∙ ap (λ x. ok tt (record_event (stored buf x) w)) (take_all (length b) b (omega arith)) in
    let shows : Shows buf bufsize text w (record_event (stored buf b) w) = record {
      reads = rw (take_all (bufsize - 1) text (omega (arith, l, n, t))) λ i d.
          stored-Reads w.log buf b i (omega (arith, d, z, t, m.size, k, j))
          ∙ elim (lt_or_ge i (length text)) [
            | inl g ↦
                m.kept i (omega (arith, g, t))
                ∙ ap (λ x. get_elem? x i) same
                ∙ get_elem?-left text (tail ++ 0 ∷ []) i g
                ∙ sym (get_elem?-left text (0 ∷ []) i g)
            | inr g ↦
                m.cleared i (omega (arith, g, t)) (omega (arith, d, z, t, n))
                ∙ sym (get_elem?-right text (0 ∷ []) 0)
                ∙ ap (get_elem? (text ++ 0 ∷ [])) (omega (arith, d, z, g))
          ];
      elsewhere = λ a d.
          stored_elsewhere w.log buf b a
            (elim d [ inl x ↦ inl x | inr x ↦ inr (omega (arith, x, l, n, m.size, k, j)) ]);
    } in
    rw (e) (returns (refl, shows))

finish-Shows :
    (text : List ℕ) (buf bufsize : ℕ) (w : World) (answer : ℕ × List ℕ)
    → 0 < bufsize
    → Says bufsize text answer
    → Returns
        (λ r w'. (r ≡ buf) × Shows buf bufsize text w w')
        (finish buf bufsize (os_message answer) w)
finish-Shows text buf bufsize w answer p (says_nothing bytes) =
    list_strerror-Shows unknown buf bufsize w p
finish-Shows text buf bufsize w answer p (says front tail last z f h l) =
    let n = length-append front (last ∷ tail) in
    let nz : (length (front ++ last ∷ tail) == 0) ≡ false = ground (arith, n) in
    rw (nz) (
      Trims-Shows front tail last buf bufsize w l
        (says-Trims front tail last (is_trimmed_not last z f) h))

-- For an error of the system's own and a buffer of at least one byte, where the system has no message in
-- either language, or one that fits in the buffer and has some byte that is not a full stop, the end of
-- a line or the terminator: `spr_strerror` on Windows returns the buffer, in which stands the message
-- without the full stops and the ends of lines behind it, or the text for an unknown error where there
-- is no message; it is terminated, and nothing but the buffer is written.
pub win_strerror-Shows :
    (format_message : ℤ → ℕ → ℕ → ℕ × List ℕ) (err : ℤ) (text : List ℕ) (buf bufsize : ℕ)
    (w : World)
    → (ltb_ℤ (pos 0) err && ltb_ℤ err domain_base) ≡ true
    → 0 < bufsize
    → Says bufsize text (answer_of format_message err bufsize)
    → Returns
        (λ r w'. (r ≡ buf) × Shows buf bufsize text w w')
        (win_strerror format_message err buf bufsize w)
win_strerror-Shows format_message err text buf bufsize w own p s =
    subst (Returns λ r w'. (r ≡ buf) × Shows buf bufsize text w w')
      (win_strerror-finish format_message err buf bufsize w own p)
      (finish-Shows text buf bufsize w (answer_of format_message err bufsize) p s)
