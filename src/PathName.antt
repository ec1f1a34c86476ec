-- ===== src/PathName.antt =====
-- kernel/fs.c: skipelem, which takes a path name apart. A string is the list of its characters before
-- the 0 that ends it, and a pointer into it is the rest of this list.
pub mod Element
mod Tests
use risc_v_operating_system.Base.{
  ℕ, ◌+◌, ◌-◌, Bool, ◌&&◌, Option, none, some, List, [], ◌∷◌, ltb, leb, ◌==◌, if◌then◌else◌, length,
  get_or, update,
}
use risc_v_operating_system.Contents.{copied}

-- `'/'`
abbrev pub slash : ℕ
slash = 47

-- `DIRSIZ`
abbrev pub dirsiz : ℕ
dirsiz = 14

-- The first and the last loop of `skipelem`.
unfoldable pub skip_slashes : List ℕ → List ℕ
skip_slashes [] = []
skip_slashes (c ∷ path) = let rest = skip_slashes path in if c == slash then rest else c ∷ path

-- The second loop: where it ends, and what it passes over.
unfoldable pub element_end : List ℕ → List ℕ
element_end [] = []
element_end (c ∷ path) = let rest = element_end path in if c == slash then c ∷ path else rest

unfoldable pub element : List ℕ → List ℕ
element [] = []
element (c ∷ path) = let rest = element path in if c == slash then [] else c ∷ rest

-- How `skipelem` fills `name` from the `len` characters of the element.
unfoldable pub put_name : List ℕ → (ℕ → ℕ) → ℕ → ℕ
put_name s name =
    let len = length s in
    if leb dirsiz len
    then copied 0 (λ i. get_or s i 0) dirsiz name
    else update (copied 0 (λ i. get_or s i 0) len name) len 0

unfoldable pub element_found : List ℕ → (ℕ → ℕ) → Option (List ℕ × (ℕ → ℕ))
element_found [] name = none
element_found (c ∷ path) name =
    some (skip_slashes (element_end (c ∷ path)), put_name (element (c ∷ path)) name)

-- `none` is the null pointer.
unfoldable pub skipelem : List ℕ → (name : ℕ → ℕ) → Option (List ℕ × (ℕ → ℕ))
skipelem path name = element_found (skip_slashes path) name
