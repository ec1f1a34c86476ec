-- ===== src/String.antt =====
-- kernel/string.c: the memory and string functions, over memory as a function from addresses to
-- bytes. Pointers move inside one object, so that their arithmetic does not wrap around.
pub mod Move
pub mod Compare
pub mod Strings
pub mod Padded
mod Tests
use risc_v_operating_system.Base.{
  ℕ, zero, suc, ◌+◌, ◌-◌, ◌%◌, ◌^◌, ◌≤◌, ◌<◌, Bool, true, false, ◌&&◌, ◌||◌, not, Option, none,
  some, ltb, leb, ◌==◌, if◌then◌else◌, update,
}
use risc_v_operating_system.Base.Word.{u32, is_negative}

-- the byte at each address
abbrev pub Memory : Type 0
Memory = ℕ → ℕ

unfoldable pub set_loop : (rounds : ℕ) → (cdst i c : ℕ) → Memory → Memory
set_loop zero cdst i c m = m
set_loop (suc rounds) cdst i c m = set_loop rounds cdst (i + 1) c (update m (cdst + i) (c % 256))

unfoldable pub memset : (dst c n : ℕ) → Memory → Memory
memset dst c n m = set_loop n dst 0 c m

-- `while(n-- > 0) *d++ = *s++;`
unfoldable pub move_up : (n d s : ℕ) → Memory → Memory
move_up zero d s m = m
move_up (suc n) d s m = move_up n (d + 1) (s + 1) (update m d (m s))

-- `while(n-- > 0) *--d = *--s;`
unfoldable pub move_down : (n d s : ℕ) → Memory → Memory
move_down zero d s m = m
move_down (suc n) d s m = move_down n (d - 1) (s - 1) (update m (d - 1) (m (s - 1)))

unfoldable pub memmove : (dst src n : ℕ) → Memory → Memory
memmove dst src n m =
    if ltb src dst && ltb dst (src + n)
    then move_down n (dst + n) (src + n) m
    else move_up n dst src m

unfoldable pub memcpy : (dst src n : ℕ) → Memory → Memory
memcpy dst src n m = memmove dst src n m

-- the `int` difference of two bytes
abbrev pub byte_difference : ℕ → ℕ → ℕ
byte_difference x y = u32 (x + 2 ^ 32 - y)

unfoldable pub memcmp : (s1 s2 n : ℕ) → Memory → ℕ
memcmp s1 s2 zero m = 0
memcmp s1 s2 (suc n) m =
    let rest = memcmp (s1 + 1) (s2 + 1) n m in
    if m s1 == m s2 then rest else byte_difference (m s1) (m s2)

unfoldable pub strncmp : (p q n : ℕ) → Memory → ℕ
strncmp p q zero m = 0
strncmp p q (suc n) m =
    let rest = strncmp (p + 1) (q + 1) n m in
    if not (m p == 0) && m p == m q then rest else byte_difference (m p) (m q)

-- `while(n-- > 0) *s++ = 0;`
unfoldable pub pad : (n s : ℕ) → Memory → Memory
pad zero s m = m
pad (suc n) s m = pad n (s + 1) (update m s 0)

-- the first loop of `strncpy` and then the second, for an `n` that is not negative
unfoldable pub copy_and_pad : (n s t : ℕ) → Memory → Memory
copy_and_pad zero s t m = m
copy_and_pad (suc n) s t m =
    let m' = update m s (m t) in
    let rest = copy_and_pad n (s + 1) (t + 1) m' in if m' s == 0 then pad n (s + 1) m' else rest

unfoldable pub strncpy : (s t n : ℕ) → Memory → Memory
strncpy s t n m = if is_negative n then m else copy_and_pad n s t m

-- the loop of `safestrcpy` after its `--n`, and the last store
unfoldable pub safe_loop : (n s t : ℕ) → Memory → Memory
safe_loop zero s t m = update m s 0
safe_loop (suc n) s t m =
    let m' = update m s (m t) in
    let rest = safe_loop n (s + 1) (t + 1) m' in if m' s == 0 then update m' (s + 1) 0 else rest

unfoldable pub safestrcpy : (s t n : ℕ) → Memory → Memory
safestrcpy s t n m = if is_negative n || n == 0 then m else safe_loop (n - 1) s t m

-- The loop of `strlen`; `none` where it outlasts its fuel.
unfoldable pub length_loop : (fuel s n : ℕ) → Memory → Option ℕ
length_loop zero s n m = none
length_loop (suc fuel) s n m =
    let rest = length_loop fuel s (n + 1) m in if m (s + n) == 0 then some n else rest

unfoldable pub strlen : (fuel s : ℕ) → Memory → Option ℕ
strlen fuel s m = length_loop fuel s 0 m
