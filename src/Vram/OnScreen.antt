-- ===== src/Vram/OnScreen.antt =====
-- `vram_handle` keeps the cursor of kernel/src/driver/console/vram.c on the screen, in every state of the
-- console, and writes no other memory than the screen's.
use k_os.Base.{ℕ, ◌≡◌, Option, none, some, [], ◌∷◌, ◌++◌}
use k_os.Base.Memory.{Memory}
use k_os.Vram.{Console}
use k_os.Vram.Escape.{Args, read_escseq_args}
use k_os.Vram.Bounds.{IsHarmless}

-- The command that was read, if there is one.
abbrev IsHarmlessArgs : Option ℕ → Type 0
IsHarmlessArgs none = Unit
IsHarmlessArgs (some cmd) = IsHarmless cmd

-- What a byte of a sequence needs: it is harmless, and the arguments up to it fit into an `int`.
abbrev pub IsEscByte : Console → ℕ → Type 0
IsEscByte c ch =
    IsHarmless ch × (a : Args) × (read_escseq_args (c.escseq_buff ++ (ch ∷ [])) ≡ some a)
