-- ===== src/Xstr/Copy.antt =====
-- The bounded copies of src/libxstr/xstr.c: `xstrlcpy`, `xstrlcat`, `xsubstr`, and `xstrfilify`.
-- A call returns what the destination holds before its NUL, and the function's result.
use g7ctrl.Common.{
  Bool, Bytes, Option, Rc, [], ap, append-nil, arith, drop, drop-eq-cons, eq-nil, failure, get_or,
  if◌then◌else◌, leb, length, length-append, length-take, ltb, min, none, refl, some, suc, success,
  take, take-length, zero, ℕ, ◌%◌, ◌++◌, ◌+◌, ◌-◌, ◌<◌, ◌==◌, ◌^◌, ◌||◌, ◌∙◌, ◌∷◌, ◌≡◌, ◌≤◌,
}

-- `strnlen`
abbrev pub strnlen : Bytes → ℕ → ℕ
strnlen s n = min (length s) n

-- The final `strnlen(dst, size)` reads the copy back.
unfoldable pub xstrlcpy : Bytes → ℕ → Bytes × ℕ
xstrlcpy src size =
    if size == 0
    then ([], 0)
    else let size2 = strnlen src size + 1 in
      if size2 == 1
      then ([], 0)
      else let dst = take ((if ltb size size2 then size else size2) - 1) src in
        (dst, strnlen dst size)

-- `strncat(dst, src, size - 1 - strlen(dst)); dst[size - 1] = '\0'`
unfoldable pub append_bounded : Bytes → Bytes → ℕ → Bytes
append_bounded dst src size = take (size - 1) (dst ++ take (size - 1 - length dst) src)

unfoldable pub xstrlcat : Bytes → Bytes → ℕ → Bytes × ℕ
xstrlcat dst src size =
    if size == 0
    then (dst, 0)
    else if strnlen dst (size - 1) == size - 1
    then (dst, size - 1)
    else let dst' =
        if ltb (length src + length dst) size then append_bounded dst src size else dst in
      (dst', strnlen dst' size)

-- What a `size` that is not 0 leaves in the destination is the longest prefix that fits with its
-- NUL, and its length is the result.
pub xstrlcpy_prefix :
    (src : Bytes) (size : ℕ)
    → 0 < size
    → xstrlcpy src size ≡ (take (size - 1) src, min (length src) (size - 1))
unfolding xstrlcpy
xstrlcpy_prefix src size h = ground (
  arith,
  take-length (size - 1) src,
  take-length (min (length src) size + 1 - 1) src,
  length-take (size - 1) src,
  length-take (min (length src) size + 1 - 1) src,
)

append_bounded_fits :
    (dst src : Bytes) (size : ℕ)
    → length src + length dst < size
    → append_bounded dst src size ≡ dst ++ src
unfolding append_bounded
append_bounded_fits dst src size h =
    rw (take-length (size - 1 - length dst) src (omega arith))
      (take-length (size - 1) (dst ++ src) (omega (arith, length-append dst src)))

pub xstrlcat_fits :
    (dst src : Bytes) (size : ℕ)
    → length src + length dst < size
    → xstrlcat dst src size ≡ (dst ++ src, length dst + length src)
unfolding xstrlcat
xstrlcat_fits dst src size h =
    ground
      (arith, append_bounded_fits dst src size, length-append dst src, eq-nil src, append-nil dst)

xstrlcat_keeps :
    (dst src : Bytes) (size : ℕ)
    → length dst < size
    → size ≤ length src + length dst
    → xstrlcat dst src size ≡ (dst, length dst)
unfolding xstrlcat
xstrlcat_keeps dst src size h le = ground arith

-- To a destination below `size` bytes the source is appended whole where it fits with the NUL,
-- and else the destination is unchanged; in both cases the result is the new length.
pub xstrlcat_all_or_nothing :
    (dst src : Bytes) (size : ℕ)
    → length dst < size
    → xstrlcat dst src size ≡ (
        if ltb (length src + length dst) size
        then (dst ++ src, length dst + length src)
        else (dst, length dst))
xstrlcat_all_or_nothing dst src size h =
    ground (arith, xstrlcat_fits dst src size, xstrlcat_keeps dst src size)

-- The byte that is written at a position which no file name should hold.
abbrev is_unsafe : ℕ → Bool
is_unsafe c =
    c == b' '
    || c == b'&'
    || c == b':'
    || c == b'!'
    || c == b'#'
    || c == b'?'
    || c == b'/'
    || c == b'\\'
    || c == b'@'
    || c == b','

-- `xstrfilify`
unfoldable pub xstrfilify : Bytes → ℕ → Bytes
xstrfilify [] replace = []
xstrfilify (c ∷ s) replace = (if is_unsafe c then replace else c) ∷ xstrfilify s replace

-- `to[i++] = from[s++]` for `len` rounds; a byte past the string is the NUL.
copy_range : Bytes → ℕ → ℕ → Bytes
copy_range from s zero = []
copy_range from s (suc len) = get_or from s 0 ∷ copy_range from (s + 1) len

-- `e` is `none` for the argument `(size_t)-1`, the end of the string. With an empty string the
-- source computes `strlen(from) - 1`, which is `(size_t)-1` again, and `len` wraps to 0 at `s = 0`.
abbrev last_of : Bytes → Option ℕ → ℕ
last_of from none = (length from + 2 ^ 64 - 1) % 2 ^ 64
last_of from (some e) = e

unfoldable pub xsubstr : ℕ → Bytes → ℕ → Option ℕ → Rc × Bytes
unfolding copy_range
xsubstr maxlen from s e =
    let e' = last_of from e in
    if ltb e' s
    then (failure, [])
    else let len = (e' - s + 1) % 2 ^ 64 in
      if leb maxlen len then (failure, []) else (success, copy_range from s len)

copy_range-take :
    (from : Bytes) (s len : ℕ)
    → s + len ≤ length from
    → copy_range from s len ≡ take len (drop s from)
unfolding copy_range
copy_range-take from s zero h = refl
copy_range-take from s (suc len) h = rw (drop-eq-cons s from 0 (omega arith)) (
    ap (λ l. get_or from s 0 ∷ l)
      (copy_range-take from (s + 1) len (omega arith)
        ∙ ap (λ k. take len (drop k from)) {x = s + 1} {y = suc s} (omega arith)))

-- For `s` at most `e` and `e` inside a string below 2 ^ 64 bytes, `xsubstr` succeeds exactly when
-- the range fits `maxlen` with its NUL, and then the buffer holds the bytes from `s` to `e`, both
-- included.
pub xsubstr_range :
    (maxlen : ℕ) (from : Bytes) (s e : ℕ)
    → s ≤ e
    → e < length from
    → length from < 2 ^ 64
    → xsubstr maxlen from s (some e) ≡ (
        if ltb (e - s + 1) maxlen then (success, take (e - s + 1) (drop s from)) else (failure, []))
unfolding xsubstr
xsubstr_range maxlen from s e h he hl = ground (arith, copy_range-take from s (e - s + 1))
