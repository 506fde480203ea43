-- ===== src/Strings/Defs.antt =====
-- The loops of lib/string.c. A byte is a number below 256; the loops that end at a 0 byte run on fuel.
use fos_fcis_operating_syste.Prelude.{
  ℕ, zero, suc, ◌%◌, ◌^◌, Bool, not, ◌&&◌, ◌==◌, ltb, leb, if◌then◌else◌, add32, sub32, Run, ok,
  out_of_fuel,
}
use fos_fcis_operating_syste.Memory.{Mem}

-- `*a = byte`
abbrev pub put : Mem → ℕ → ℕ → Mem
put m a byte x = if x == a then byte else m x

-- The loop of `strlen` with its counter.
unfoldable pub count_bytes : ℕ → Mem → ℕ → ℕ → Run ℕ
count_bytes zero m s n = out_of_fuel
count_bytes (suc fuel) m s n =
    let rest = count_bytes fuel m (add32 s 1) (add32 n 1) in if m s == 0 then ok n else rest

unfoldable pub strlen : ℕ → Mem → ℕ → Run ℕ
strlen fuel m s = count_bytes fuel m s 0

-- strnlen
unfoldable pub strnlen : Mem → ℕ → ℕ → ℕ
strnlen m s zero = 0
strnlen m s (suc size) =
    let rest = strnlen m (add32 s 1) size in if m s == 0 then 0 else add32 rest 1

-- strcpy
unfoldable pub strcpy : ℕ → ℕ → ℕ → Mem → Run Mem
strcpy zero dst src m = out_of_fuel
strcpy (suc fuel) dst src m =
    let m1 = put m dst (m src) in
    let rest = strcpy fuel (add32 dst 1) (add32 src 1) m1 in if m src == 0 then ok m1 else rest

-- strncpy
unfoldable pub strncpy : ℕ → ℕ → ℕ → Mem → Mem
strncpy zero dst src m = m
strncpy (suc n) dst src m =
    let m1 = put m dst (m src) in
    strncpy n (add32 dst 1) (if m1 src == 0 then src else add32 src 1) m1

-- The loop of `strlcpy`, with `n` bytes of room left before the 0: the memory and the end.
unfoldable pub copy_room : ℕ → ℕ → ℕ → Mem → Mem × ℕ
copy_room zero dst src m = (put m dst 0, dst)
copy_room (suc n) dst src m =
    let rest = copy_room n (add32 dst 1) (add32 src 1) (put m dst (m src)) in
    if m src == 0 then (put m dst 0, dst) else rest

-- strlcpy
unfoldable pub strlcpy : ℕ → ℕ → ℕ → Mem → Mem × ℕ
strlcpy dst src zero m = (m, 0)
strlcpy dst src (suc n) m = let (m1, end) = copy_room n dst src m in (m1, sub32 end dst)

-- strcmp; the difference is a word.
unfoldable pub strcmp : ℕ → Mem → ℕ → ℕ → Run ℕ
strcmp zero m p q = out_of_fuel
strcmp (suc fuel) m p q =
    let rest = strcmp fuel m (add32 p 1) (add32 q 1) in
    if not (m p == 0) && (m p == m q) then rest else ok (sub32 (m p) (m q))

-- strncmp
unfoldable pub strncmp : Mem → ℕ → ℕ → ℕ → ℕ
strncmp m p q zero = 0
strncmp m p q (suc n) =
    let rest = strncmp m (add32 p 1) (add32 q 1) n in
    if not (m p == 0) && (m p == m q) then rest else sub32 (m p) (m q)

-- strchr
unfoldable pub strchr : ℕ → Mem → ℕ → ℕ → Run ℕ
strchr zero m s c = out_of_fuel
strchr (suc fuel) m s c =
    let rest = strchr fuel m (add32 s 1) c in
    if m s == 0 then ok 0 else if m s == c then ok s else rest

-- strfind
unfoldable pub strfind : ℕ → Mem → ℕ → ℕ → Run ℕ
strfind zero m s c = out_of_fuel
strfind (suc fuel) m s c =
    let rest = strfind fuel m (add32 s 1) c in
    if m s == 0 then ok s else if m s == c then ok s else rest

-- The loop of `memset`; a `char` keeps the low byte of `c`.
unfoldable pub fill : ℕ → ℕ → ℕ → Mem → Mem
fill zero p c m = m
fill (suc n) p c m = fill n (add32 p 1) c (put m p (c % 256))

-- The word as an `int` is negative.
abbrev is_negative_int : ℕ → Bool
is_negative_int n = leb (2 ^ 31) n

-- memset; the counter is the word `n` as an `int`, which wraps around where it is counted down. Where
-- the first count is negative nothing is set, else one byte in each of the `n` rounds.
unfoldable pub memset : ℕ → ℕ → ℕ → Mem → Mem
unfolding fill sub32
memset v c n m = if is_negative_int (sub32 n 1) then m else fill n v c m

-- memcpy, and the loop of `memmove` that goes up
unfoldable pub memcpy : ℕ → ℕ → ℕ → Mem → Mem
memcpy dst src zero m = m
memcpy dst src (suc n) m = memcpy (add32 dst 1) (add32 src 1) n (put m dst (m src))

-- The loop of `memmove` that goes down from the ends.
unfoldable pub copy_down : ℕ → ℕ → ℕ → Mem → Mem
copy_down d s zero m = m
copy_down d s (suc n) m = copy_down (sub32 d 1) (sub32 s 1) n (put m (sub32 d 1) (m (sub32 s 1)))

-- memmove
unfoldable pub memmove : ℕ → ℕ → ℕ → Mem → Mem
memmove dst src n m =
    if ltb src dst && ltb dst (add32 src n)
    then copy_down (add32 dst n) (add32 src n) n m
    else memcpy dst src n m

-- memcmp
unfoldable pub memcmp : Mem → ℕ → ℕ → ℕ → ℕ
memcmp m p q zero = 0
memcmp m p q (suc n) =
    let rest = memcmp m (add32 p 1) (add32 q 1) n in if m p == m q then rest else sub32 (m p) (m q)

-- memfind, from `s` to the end `n` bytes on
unfoldable pub memfind : Mem → ℕ → ℕ → ℕ → ℕ
memfind m s c zero = s
memfind m s c (suc n) = let rest = memfind m (add32 s 1) c n in if m s == c then s else rest
