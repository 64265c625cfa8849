-- ===== src/CString/Tests.antt =====
-- Runs of kernel/src/lib/string.c on a memory that holds the strings "abc" and "abd".
use k_os.Base.{
  ℕ, ◌%◌, ◌^◌, ◌<◌, ◌≡◌, refl, ◌↔◌, inr, true, false, some, List, [], ◌∷◌, get_or, arith,
  if◌then◌else◌,
}
use k_os.Base.Memory.{Memory, bytes}
use k_os.Base.Int.{pos, negsuc}
use k_os.CString.{
  isdigit, memset, memcpy, memmove, memcmp, memchr, strlen, strchr, strcmp, strcpy, strdup, atoi,
  itoa, memmove_down, charset, itoa_digits,
}
use k_os.CString.Blocks.{inside, copied, memset_lem, memcpy_lem, memmove_lem}
use k_os.CString.Compare.{IsFirst, memcmp_iff, memchr-IsFirst}
use k_os.CString.Strings.{
  IsCString, Compares, Copied, find_char, strlen_lem, strcmp_iff, strcpy_lem, strdup_lem,
  strchr_lem,
}
use k_os.CString.Decimal.{atoi-itoa}

-- "abc" at 0, "abd" at 4.
abbrev mem : Memory
mem a = get_or (b'a' ∷ b'b' ∷ b'c' ∷ 0 ∷ b'a' ∷ b'b' ∷ b'd' ∷ 0 ∷ []) a 0

abbrev abc : List ℕ
abc = b'a' ∷ b'b' ∷ b'c' ∷ []

abbrev abd : List ℕ
abd = b'a' ∷ b'b' ∷ b'd' ∷ []

mem-byte : (a : ℕ) → mem a < 2 ^ 8
mem-byte a = ground arith

abc-IsCString : IsCString mem 0 abc
abc-IsCString = ground arith

abd-IsCString : IsCString mem 4 abd
abd-IsCString = ground arith

overlap : bytes (memmove 1 0 3 mem) 0 5 ≡ b'a' ∷ b'a' ∷ b'b' ∷ b'c' ∷ b'a' ∷ []
unfolding memmove memmove_down
overlap = refl

hexadecimal : itoa_digits 65 255 16 0 [] ≡ some (b'f' ∷ b'f' ∷ [])
unfolding itoa_digits charset
hexadecimal = refl

digit : isdigit b'7' ≡ true
unfolding isdigit
digit = refl

memset_example : memset 1 300 2 mem 2 ≡ (if inside 1 2 2 then 300 % 2 ^ 8 else mem 2)
memset_example = memset_lem 1 300 2 mem 2

memcpy_example : memcpy 10 0 4 mem 12 ≡ copied 10 0 4 mem 12
memcpy_example = memcpy_lem 10 0 4 mem 12 (inr (omega arith))

memmove_example : memmove 1 0 3 mem 2 ≡ copied 1 0 3 mem 2
memmove_example = memmove_lem 1 0 3 mem 2

memcmp_example : (memcmp 0 4 2 mem ≡ pos 0) ↔ (bytes mem 0 2 ≡ bytes mem 4 2)
memcmp_example = memcmp_iff 0 4 2 mem mem-byte

memchr_example : IsFirst 0 8 (b'd' % 2 ^ 8) mem (memchr 0 b'd' 8 mem)
memchr_example = memchr-IsFirst 0 b'd' 8 mem

strlen_example : strlen 4 0 mem ≡ some 3
strlen_example = strlen_lem abc 4 0 mem abc-IsCString (omega arith) (omega arith)

strcmp_example : Compares (strcmp 4 0 4 mem) abc abd
strcmp_example = strcmp_iff abc abd 4 0 4 mem mem-byte abc-IsCString abd-IsCString (omega arith)

strcpy_example : Copied (strcpy 4 20 0 mem) 20 abc mem
strcpy_example = strcpy_lem abc 4 20 0 mem abc-IsCString (omega arith) (inr (omega arith))

strdup_example :
    (m' : Memory) × (strdup 4 20 0 mem ≡ some (20, m'))
    × IsCString m' 20 abc
    × ((a : ℕ) → inside 20 4 a ≡ false → m' a ≡ mem a)
strdup_example =
    strdup_lem abc 4 20 0 mem abc-IsCString (omega arith) (omega arith) (inr (omega arith))

strchr_example : strchr 4 0 (pos b'a') mem ≡ some (find_char 1 (b'b' ∷ b'c' ∷ []) (pos b'a'))
strchr_example = strchr_lem b'a' (b'b' ∷ b'c' ∷ []) 4 0 (pos b'a') mem abc-IsCString (omega arith)

atoi-itoa_example :
    (m' : Memory) × (itoa (negsuc 41) 100 10 mem ≡ some m') × (atoi 33 100 m' ≡ some (negsuc 41))
atoi-itoa_example = atoi-itoa (negsuc 41) 33 100 mem (omega arith) (omega arith) (omega arith)
