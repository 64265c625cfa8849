-- ===== src/CString.antt =====
-- kernel/src/lib/string.c over the byte memory of `Base.Memory`. A pointer is an address, a
-- function that writes returns the new memory. A loop that runs to a NUL byte takes fuel, and is
-- `none` when the fuel ends first; `Base.Memory.bytes` and `IsCString` say what memory holds.
pub mod Blocks
pub mod Compare
pub mod Strings
pub mod Decimal
mod Tests
use k_os.Base.{
  ℕ, zero, suc, ◌+◌, ◌-◌, ◌*◌, ◌/◌, ◌%◌, ◌^◌, Bool, true, false, ◌&&◌, ◌||◌, not, Option, none,
  some, List, [], ◌∷◌, ltb, leb, ◌==◌, if◌then◌else◌, get_or,
}
use k_os.Base.Memory.{Memory, store}
use k_os.Base.Word.{add32}
use k_os.Base.Int.{ℤ, pos, negsuc, neg, ◌-ℤ◌, ◌==ℤ◌, signed_char}

-- `isdigit`
unfoldable pub isdigit : ℕ → Bool
isdigit c = leb b'0' c && leb c b'9'

-- `memset`: the loop has `left` rounds to go at index `i`; the stored `char` is `c` modulo 256.
unfoldable pub memset_loop : ℕ → ℕ → ℕ → ℕ → Memory → Memory
memset_loop zero i p c m = m
memset_loop (suc left) i p c m = memset_loop left (suc i) p c (store m (p + i) (c % 2 ^ 8))

unfoldable pub memset : ℕ → ℕ → ℕ → Memory → Memory
unfolding memset_loop
memset p c n m = memset_loop n 0 p c m

-- `memcpy`
unfoldable pub memcpy_loop : ℕ → ℕ → ℕ → ℕ → Memory → Memory
memcpy_loop zero i d s m = m
memcpy_loop (suc left) i d s m = memcpy_loop left (suc i) d s (store m (d + i) (m (s + i)))

unfoldable pub memcpy : ℕ → ℕ → ℕ → Memory → Memory
unfolding memcpy_loop
memcpy d s n m = memcpy_loop n 0 d s m

-- `for(i = bytes; i > 0; i--) d[i - 1] = s[i - 1];`
unfoldable pub memmove_down : ℕ → ℕ → ℕ → Memory → Memory
memmove_down zero d s m = m
memmove_down (suc i) d s m = memmove_down i d s (store m (d + i) (m (s + i)))

-- `memmove`
unfoldable pub memmove : ℕ → ℕ → ℕ → Memory → Memory
unfolding memcpy_loop memmove_down
memmove d s n m = if ltb d s then memcpy_loop n 0 d s m else memmove_down n d s m

-- `memcmp`
unfoldable pub memcmp_loop : ℕ → ℕ → ℕ → ℕ → Memory → ℤ
memcmp_loop zero i a b m = pos 0
memcmp_loop (suc left) i a b m =
    let rest = memcmp_loop left (suc i) a b m in
    if not (m (a + i) == m (b + i))
    then signed_char (m (a + i)) -ℤ signed_char (m (b + i))
    else rest

unfoldable pub memcmp : ℕ → ℕ → ℕ → Memory → ℤ
unfolding memcmp_loop
memcmp a b n m = memcmp_loop n 0 a b m

-- `memchr`; `none` is NULL.
unfoldable pub memchr_loop : ℕ → ℕ → ℕ → Memory → Option ℕ
memchr_loop zero p c m = none
memchr_loop (suc left) p c m =
    let rest = memchr_loop left (suc p) c m in if m p == c then some p else rest

unfoldable pub memchr : ℕ → ℕ → ℕ → Memory → Option ℕ
unfolding memchr_loop
memchr p value n m = memchr_loop n p (value % 2 ^ 8) m

-- `strlen`
unfoldable pub strlen_loop : ℕ → ℕ → ℕ → Memory → Option ℕ
strlen_loop zero p len m = none
strlen_loop (suc f) p len m =
    let rest = strlen_loop f (suc p) (add32 len 1) m in if m p == 0 then some len else rest

unfoldable pub strlen : ℕ → ℕ → Memory → Option ℕ
unfolding strlen_loop
strlen fuel p m = strlen_loop fuel p 0 m

-- `strchr`: the outer `none` is the fuel's end, the inner one NULL.
unfoldable pub strchr : ℕ → ℕ → ℤ → Memory → Option (Option ℕ)
strchr zero p c m = none
strchr (suc f) p c m =
    let rest = strchr f (suc p) c m in
    if m p == 0
    then some none
    else if signed_char (m (suc p)) ==ℤ c
    then some (some (suc p))
    else rest

-- `strcmp`
unfoldable pub strcmp : ℕ → ℕ → ℕ → Memory → Option ℤ
strcmp zero a b m = none
strcmp (suc f) a b m =
    let rest = strcmp f (suc a) (suc b) m in
    if (m a == 0) && (m b == 0)
    then some (pos 0)
    else if not (m a == m b)
    then some (signed_char (m a) -ℤ signed_char (m b))
    else rest

-- `strcpy`; it returns `dest`, and here the memory.
unfoldable pub strcpy : ℕ → ℕ → ℕ → Memory → Option Memory
strcpy zero d s m = none
strcpy (suc f) d s m =
    let m' = store m d (m s) in
    let rest = strcpy f (suc d) (suc s) m' in if m s == 0 then some m' else rest

-- `strdup`, where `fresh` is the block that `kmalloc` returns for `strlen(orig) + 1` bytes.
unfoldable pub strdup : ℕ → ℕ → ℕ → Memory → Option (ℕ × Memory)
unfolding strlen strcpy
strdup fuel fresh s m = elim (strlen fuel s m) [
  | none ↦ none
  | some len ↦ elim (strcpy fuel fresh s m) [ none ↦ none | some m' ↦ some (fresh, m') ]
]

-- The loop of `atoi`. `i` is not negative until the sign is put on; `none` is the fuel's end, or
-- an `int` that overflows, which C leaves undefined.
unfoldable pub atoi_loop : ℕ → ℕ → ℕ → Memory → Option ℕ
atoi_loop zero p i m = none
atoi_loop (suc f) p i m =
    let next = i * 10 + (m p - b'0') in
    let rest = atoi_loop f (suc p) next m in
    if m p == 0
    then some i
    else if ltb (m p) b'0' || ltb b'9' (m p)
    then some i
    else if ltb next (2 ^ 31)
    then rest
    else none

-- `if(*str == '+') str++;`
unfoldable pub skip_plus : ℕ → Memory → ℕ
skip_plus p m = if m p == b'+' then suc p else p

-- `atoi`
unfoldable pub atoi : ℕ → ℕ → Memory → Option ℤ
atoi fuel p m =
    if m p == b'-'
    then elim (atoi_loop fuel (skip_plus (suc p) m) 0 m) [
      | none ↦ none
      | some i ↦ some (neg (pos i))
    ]
    else elim (atoi_loop fuel (skip_plus p m) 0 m) [ none ↦ none | some i ↦ some (pos i) ]

-- The `charset` of `itoa`, by index: the ten digits, then the lower-case letters.
unfoldable pub charset : ℕ → ℕ
charset k = if ltb k 10 then b'0' + k else b'a' + (k - 10)

-- `while(value > 0) { scratch[idx++] = charset[value % base]; value /= base; }`
-- `scratch[0 .. idx)` is the list, the last entry first; `none` is an overrun of its 64 places, or
-- the fuel's end.
unfoldable pub itoa_digits : ℕ → ℕ → ℕ → ℕ → List ℕ → Option (List ℕ)
itoa_digits zero value base idx scratch = none
itoa_digits (suc f) value base idx scratch =
    let rest = itoa_digits f (value / base) base (suc idx) (charset (value % base) ∷ scratch) in
    if value == 0 then some scratch else if ltb idx 64 then rest else none

-- `while(idx > 0) *buff++ = scratch[--idx]; *buff = 0;`
unfoldable pub itoa_put : List ℕ → ℕ → Memory → Memory
itoa_put [] p m = store m p 0
itoa_put (c ∷ cs) p m = itoa_put cs (suc p) (store m p c)

-- `itoa` for a value that is not negative.
unfoldable pub itoa_nat : ℕ → ℕ → ℕ → Memory → Option Memory
unfolding itoa_digits itoa_put charset
itoa_nat value p base m =
    if value == 0
    then some (store (store m p b'0') (suc p) 0)
    else elim (itoa_digits 65 value base 0 []) [ none ↦ none | some cs ↦ some (itoa_put cs p m) ]

-- `itoa`. `none` is undefined behaviour: `-value` overflows at the least `int`.
unfoldable pub itoa : ℤ → ℕ → ℕ → Memory → Option Memory
unfolding itoa_nat
itoa (pos n) p base m = itoa_nat n p base m
itoa (negsuc n) p base m =
    if ltb (suc n) (2 ^ 31) then itoa_nat (suc n) (suc p) base (store m p b'-') else none
