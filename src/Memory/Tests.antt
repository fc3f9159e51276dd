-- ===== src/Memory/Tests.antt =====
-- The theorems on the memory routines at small memories.
use james_m.Base.{◌≡◌, [], ◌∷◌, if◌then◌else◌, u8}
use james_m.Memory.{Mem, memset}
use james_m.Memory.Blocks.{in_block, memset_lem}
use james_m.Memory.Text.{with_text}

-- `dev` at 16, `de` at 32.
abbrev names : Mem
names = with_text (with_text (λ _. 0) 16 (b'd' ∷ b'e' ∷ b'v' ∷ [])) 32 (b'd' ∷ b'e' ∷ [])

memset_lem_example : memset names 16 0x1FF 2 17 ≡ (if in_block 16 2 17 then u8 0x1FF else names 17)
memset_lem_example = memset_lem names 16 0x1FF 2 17
