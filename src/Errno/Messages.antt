-- ===== src/Errno/Messages.antt =====
-- The messages of lib/spr_errno.c as bytes, without their terminators.
use spr.Base.{ℕ, List, [], ◌∷◌, ◌++◌, map}
use spr.Base.Int.{ℤ, pos, negsuc}

-- `SPR_ERR_UNKNOW`
abbrev pub unknown : ℤ
unknown = pos 2147483647

-- "OK"
abbrev ok_text : List ℕ
ok_text = 79 ∷ 75 ∷ []

-- "Internal error"
abbrev internal_text : List ℕ
internal_text = 73 ∷ 110 ∷ 116 ∷ 101 ∷ 114 ∷ 110 ∷ 97 ∷ 108 ∷ 32 ∷ 101 ∷ 114 ∷ 114 ∷ 111 ∷ 114 ∷ []

-- "Resource is busy"
abbrev busy_text : List ℕ
busy_text =
    82 ∷ 101 ∷ 115 ∷ 111 ∷ 117 ∷ 114 ∷ 99 ∷ 101 ∷ 32 ∷ 105 ∷ 115 ∷ 32 ∷ 98 ∷ 117 ∷ 115 ∷ 121 ∷ []

-- "Operation is done"
abbrev done_text : List ℕ
done_text =
    79 ∷ 112 ∷ 101 ∷ 114 ∷ 97 ∷ 116 ∷ 105 ∷ 111 ∷ 110 ∷ 32 ∷ 105 ∷ 115 ∷ 32 ∷ 100 ∷ 111 ∷ 110 ∷ 101
    ∷ []

-- "Operation aborted"
abbrev aborted_text : List ℕ
aborted_text =
    79 ∷ 112 ∷ 101 ∷ 114 ∷ 97 ∷ 116 ∷ 105 ∷ 111 ∷ 110 ∷ 32 ∷ 97 ∷ 98 ∷ 111 ∷ 114 ∷ 116 ∷ 101 ∷ 100
    ∷ []

-- "Operation declined"
abbrev declined_text : List ℕ
declined_text =
    79 ∷ 112 ∷ 101 ∷ 114 ∷ 97 ∷ 116 ∷ 105 ∷ 111 ∷ 110 ∷ 32 ∷ 100 ∷ 101 ∷ 99 ∷ 108 ∷ 105 ∷ 110 ∷ 101
    ∷ 100 ∷ []

-- "Resource not found"
abbrev not_found_text : List ℕ
not_found_text =
    82 ∷ 101 ∷ 115 ∷ 111 ∷ 117 ∷ 114 ∷ 99 ∷ 101 ∷ 32 ∷ 110 ∷ 111 ∷ 116 ∷ 32 ∷ 102 ∷ 111 ∷ 117 ∷ 110
    ∷ 100 ∷ []

-- "Specified path is not absolute"
abbrev abs_path_text : List ℕ
abs_path_text =
    83 ∷ 112 ∷ 101 ∷ 99 ∷ 105 ∷ 102 ∷ 105 ∷ 101 ∷ 100 ∷ 32 ∷ 112 ∷ 97 ∷ 116 ∷ 104 ∷ 32 ∷ 105 ∷ 115
    ∷ 32 ∷ 110 ∷ 111 ∷ 116 ∷ 32 ∷ 97 ∷ 98 ∷ 115 ∷ 111 ∷ 108 ∷ 117 ∷ 116 ∷ 101 ∷ []

-- "Result path is too long"
abbrev long_path_text : List ℕ
long_path_text =
    82 ∷ 101 ∷ 115 ∷ 117 ∷ 108 ∷ 116 ∷ 32 ∷ 112 ∷ 97 ∷ 116 ∷ 104 ∷ 32 ∷ 105 ∷ 115 ∷ 32 ∷ 116 ∷ 111
    ∷ 111 ∷ 32 ∷ 108 ∷ 111 ∷ 110 ∷ 103 ∷ []

-- "Unknown error code"
abbrev pub unknown_text : List ℕ
unknown_text =
    85 ∷ 110 ∷ 107 ∷ 110 ∷ 111 ∷ 119 ∷ 110 ∷ 32 ∷ 101 ∷ 114 ∷ 114 ∷ 111 ∷ 114 ∷ 32 ∷ 99 ∷ 111 ∷ 100
    ∷ 101 ∷ []

-- The entries of `error_list` before the last one.
abbrev pub entries : List (ℤ × List ℕ)
entries =
    (pos 0, ok_text)
    ∷ (negsuc 0, internal_text)
    ∷ (negsuc 1, busy_text)
    ∷ (negsuc 2, done_text)
    ∷ (negsuc 3, aborted_text)
    ∷ (negsuc 4, declined_text)
    ∷ (negsuc 5, not_found_text)
    ∷ (pos 20101, abs_path_text)
    ∷ (pos 20102, long_path_text)
    ∷ []

abbrev pub terminate : ℤ × List ℕ → ℤ × List ℕ
terminate (code, text) = (code, text ++ 0 ∷ [])

-- `error_list`
abbrev pub error_list : List (ℤ × List ℕ)
error_list = map terminate entries ++ terminate (unknown, unknown_text) ∷ []
