-- ===== src/Vram/Escape.antt =====
-- The escape sequences of kernel/src/driver/console/vram.c: their arguments, what they do, and the
-- states of the console. An argument that is -1 is `none`.
use k_os.Base.{
  ℕ, ◌+◌, ◌-◌, ◌*◌, ◌^◌, Bool, true, false, ◌&&◌, not, Option, none, some, List, [], ◌∷◌, ◌++◌, ltb,
  leb, ◌==◌, if◌then◌else◌, length,
}
use k_os.CString.{isdigit}
use k_os.Vram.{
  do_refresh_cursor, TermState, term_normal, term_escseq, term_expect_csi_partb, Console, do_clear,
  do_erase, cursor_up, cursor_down, cursor_forward, cursor_back, cursor_position, process_char,
}

-- `ESCSEQ_BUFF_SIZE`
abbrev pub escseq_buff_size : ℕ
escseq_buff_size = 128

-- `CSI_SINGLE`, `CSI_DOUBLE_PARTA` and `CSI_DOUBLE_PARTB`
abbrev pub csi_single : ℕ
csi_single = 155

abbrev pub csi_double_parta : ℕ
csi_double_parta = 27

abbrev pub csi_double_partb : ℕ
csi_double_partb = b'['

-- The arguments and the command of a sequence; without a command it is `none`.
pub record Args : Type 0 where
  pub n : Option ℕ
  pub m : Option ℕ
  pub cmd : Option ℕ

-- `if(tmp != -1) *v = tmp`, where `v` is `&m` behind the first semicolon.
unfoldable pub set_arg : Bool → Option ℕ → Args → Args
set_arg second none a = a
set_arg second (some v) a = if second then record a { m = some v } else record a { n = some v }

-- A further digit; the sum has to fit into an `int`.
unfoldable pub add_digit : Option ℕ → ℕ → Option ℕ
add_digit none d = some (d - b'0')
add_digit (some tmp) d =
    let tmp' = tmp * 10 + (d - b'0') in if ltb tmp' (2 ^ 31) then some tmp' else none

-- The loop of `read_escseq_args`; `none` is an overflow.
unfoldable pub read_args : List ℕ → Option ℕ → Bool → Args → Option Args
read_args [] tmp second a = some a
read_args (d ∷ ds) tmp second a =
    let more : Option ℕ → Option Args =
      λ t. elim t [ none ↦ none | some v ↦ read_args ds (some v) second a ] in
    let next = read_args ds none true (set_arg second tmp a) in
    if isdigit d
    then more (add_digit tmp d)
    else if d == b';' && not second
    then next
    else some (record (set_arg second tmp a) { cmd = some d })

-- `read_escseq_args`
unfoldable pub read_escseq_args : List ℕ → Option Args
read_escseq_args buff = read_args buff none false (record { n = none; m = none; cmd = none })

-- An argument, or what stands for it.
unfoldable pub arg_or : ℕ → Option ℕ → ℕ
arg_or d none = d
arg_or d (some v) = v

-- The command J.
unfoldable pub erase_display : Console → ℕ → Console
erase_display c v =
    if v == 1 then do_erase c false else if v == 2 then do_clear c else do_erase c true

-- `execute_escseq` of a command.
unfoldable pub execute_escseq : Console → ℕ → Option ℕ → Option ℕ → Console
execute_escseq c cmd n m =
    if cmd == b'A'
    then cursor_up c (arg_or 1 n)
    else if cmd == b'B'
    then cursor_down c (arg_or 1 n)
    else if cmd == b'C'
    then cursor_forward c (arg_or 1 n)
    else if cmd == b'D'
    then cursor_back c (arg_or 1 n)
    else if cmd == b'H'
    then cursor_position c (arg_or 0 n) (arg_or 0 m)
    else if cmd == b'J'
    then erase_display c (arg_or 0 n)
    else c

-- `if(!c) return`, for the command that was read.
unfoldable pub execute_args : Console → Args → Console
execute_args c a = elim a.cmd [
  | none ↦ c
  | some cmd ↦ if cmd == 0 then c else execute_escseq c cmd a.n a.m
]

-- `interpret_escseq`
unfoldable pub interpret_escseq : Console → Option Console
interpret_escseq c = elim (read_escseq_args c.escseq_buff) [
  | none ↦ none
  | some a ↦ some (execute_args c a)
]

-- `is_terminating_char`
unfoldable pub is_terminating_char : ℕ → Bool
is_terminating_char ch = leb b'@' ch && leb ch b'~'

-- The console at the end of a sequence.
abbrev pub end_escseq : Console → Console
end_escseq c = record c { escseq_buff = []; state = term_normal }

-- `put_escseq_buff`, behind `vram_init`, which gives the console its buffer.
unfoldable pub put_escseq_buff : Console → ℕ → Option Console
put_escseq_buff c ch =
    let c' : Console = record c { escseq_buff = c.escseq_buff ++ (ch ∷ []) } in
    if is_terminating_char ch
    then elim (interpret_escseq c') [ none ↦ none | some c'' ↦ some (end_escseq c'') ]
    else if length c'.escseq_buff == escseq_buff_size
    then some (end_escseq c')
    else some c'

-- The `switch` of `vram_handle`.
unfoldable pub handle_in_state : TermState → Console → ℕ → Option Console
handle_in_state term_normal c ch =
    if ch == csi_single
    then some (record c { state = term_escseq })
    else if ch == csi_double_parta
    then some (record c { state = term_expect_csi_partb })
    else process_char c ch
handle_in_state term_expect_csi_partb c ch =
    if ch == csi_double_partb
    then some (record c { state = term_escseq })
    else elim (process_char (record c { state = term_normal }) csi_double_parta) [
      | none ↦ none
      | some c' ↦ process_char c' ch
    ]
handle_in_state term_escseq c ch = put_escseq_buff c ch

-- `vram_handle`
unfoldable pub vram_handle : Console → ℕ → Option Console
vram_handle c ch = handle_in_state c.state c ch

-- The loop of `vram_write`.
unfoldable pub write_chars : Console → List ℕ → Option Console
write_chars c [] = some c
write_chars c (ch ∷ str) = elim (vram_handle c ch) [ none ↦ none | some c' ↦ write_chars c' str ]

-- `vram_write`
unfoldable pub vram_write : Console → List ℕ → Option Console
vram_write c str = elim (write_chars c str) [ none ↦ none | some c' ↦ some (do_refresh_cursor c') ]
