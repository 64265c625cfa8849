-- ===== src/Tty/Keys.antt =====
-- The keys that are down, as kernel/src/driver/console/tty.c keeps them, against the codes that came.
use k_os.Base.{
  ℕ, zero, suc, ◌+◌, ◌*◌, ◌%◌, ◌<◌, ◌≡◌, refl, Bool, true, false, Option, none, some, List, [], ◌∷◌,
  ltb, ◌==◌, if◌then◌else◌, All, get_elem?, length, arith,
}
use k_os.Tty.Keymap.{keymap}
use k_os.Tty.{Tty, set_key, is_capital, translate_keycode, handle_key, handle_keystate}

-- `handle_keystate` of codes in a row.
unfoldable pub handle_codes : List ℕ → Tty → Option Tty
handle_codes [] tty = some tty
handle_codes (c ∷ cs) tty = elim (handle_keystate tty c) [
  | none ↦ none
  | some (_, tty') ↦ handle_codes cs tty'
]

-- Whether a key is down behind codes: the last of its codes tells, or else how it was.
unfoldable pub is_held : ℕ → List ℕ → Bool → Bool
is_held k [] before = before
is_held k (c ∷ cs) before = is_held k cs (if k == c % 128 then ltb c 128 else before)

-- A code that the table has an entry for when its key is pressed.
abbrev pub IsKnown : ℕ → Type 0
IsKnown c = c % 128 < 85

get_elem?_inside : (xs : List ℕ) (i : ℕ) → i < length xs → (x : ℕ) × (get_elem? xs i ≡ some x)
get_elem?_inside [] i h = absurd (omega arith)
get_elem?_inside (x ∷ xs) zero h = (x, refl)
get_elem?_inside (x ∷ xs) (suc i) h = get_elem?_inside xs i (omega arith)

pub translate_keycode_known :
    (keys : ℕ → Bool) (code : ℕ) → code < 85 → (ch : ℕ) × (translate_keycode keys code ≡ some ch)
unfolding translate_keycode
translate_keycode_known keys code h =
    get_elem?_inside keymap (code * 2 + (if is_capital keys then 1 else 0)) (ground (arith, h))

handle_key_known :
    (tty : Tty) (code : ℕ) (press : Bool)
    → code < 85
    → (ch : ℕ) × (handle_key tty code press
        ≡ some (ch, record tty { keystate = set_key tty.keystate code press }))
unfolding handle_key
handle_key_known tty code true h =
    let (ch, e) = translate_keycode_known (set_key tty.keystate code true) code h in (ch, rw e refl)
handle_key_known tty code false h = (0, refl)

handle_keystate_known :
    (tty : Tty) (c : ℕ)
    → IsKnown c
    → (ch : ℕ) × (handle_keystate tty c
        ≡ some (ch, record tty { keystate = set_key tty.keystate (c % 128) (ltb c 128) }))
unfolding handle_keystate
handle_keystate_known tty c h = handle_key_known tty (c % 128) (ltb c 128) h

-- Key codes that the table knows: `handle_keystate` takes them all, and a key is down behind them if
-- the last code of that key was a press, or if none came and it was down before. Nothing else of the
-- terminal changes.
pub handle_codes-is_held :
    (cs : List ℕ) (tty : Tty)
    → All IsKnown cs
    → (keys : ℕ → Bool) × (handle_codes cs tty ≡ some (record tty { keystate = keys }))
      × ((k : ℕ) → keys k ≡ is_held k cs (tty.keystate k))
unfolding handle_codes is_held set_key
handle_codes-is_held [] tty v = (tty.keystate, refl, λ k. refl)
handle_codes-is_held (c ∷ cs) tty (v, vs) =
    let (ch, e) = handle_keystate_known tty c v in
    let (keys, e', same) =
      handle_codes-is_held cs (record tty { keystate = set_key tty.keystate (c % 128) (ltb c 128) })
        vs in
    (keys, simp (handle_codes, e) e', same)
