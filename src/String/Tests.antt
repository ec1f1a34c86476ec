-- ===== src/String/Tests.antt =====
-- The memory and string functions on small memories.
use risc_v_operating_system.Base.{
  ℕ, ◌-◌, ◌<◌, ◌≡◌, refl, inl, some, [], ◌∷◌, arith, ◌==◌, if◌then◌else◌, update,
}
use risc_v_operating_system.String.{copy_and_pad, pad, Memory, memmove, safestrcpy, strlen, strncpy}
use risc_v_operating_system.String.Move.{moved, memmove_lem}
use risc_v_operating_system.String.Strings.{
  IsCopy, OnlyIn, copy_length, safestrcpy-IsCopy, strlen_lem,
}

-- "abc" and a 0 at 10, and "ab" at 20
abbrev text : Memory
text a =
    if a == 10
    then 97
    else if a == 11
    then 98
    else if a == 12
    then 99
    else if a == 20
    then 97
    else if a == 21
    then 98
    else 0

text-bytes : (a : ℕ) → text a < 256
text-bytes a = ground arith

memmove_lem_example : memmove 11 10 3 text 13 ≡ moved 11 10 3 text 13
memmove_lem_example = memmove_lem 11 10 3 text 13

safestrcpy-IsCopy_example :
    IsCopy 30 10 (copy_length (3 - 1) 10 text) text (safestrcpy 30 10 3 text)
    × (copy_length (3 - 1) 10 text < 3)
    × OnlyIn 30 3 text (safestrcpy 30 10 3 text)
safestrcpy-IsCopy_example = safestrcpy-IsCopy 30 10 3 text refl (omega arith) (inl (omega arith))

strlen_lem_example : strlen 9 10 text ≡ some 3
strlen_lem_example = strlen_lem 9 10 3 text refl (λ i h. ground arith) (omega arith)

-- `strncpy` fills its range up with zeros.
strncpy_pads :
    (let m = strncpy 10 20 4 text in m 10 ∷ m 11 ∷ m 12 ∷ m 13 ∷ []) ≡ 97 ∷ 98 ∷ 0 ∷ 0 ∷ []
unfolding strncpy update copy_and_pad pad
strncpy_pads = refl
