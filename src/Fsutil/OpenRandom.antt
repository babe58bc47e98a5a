-- ===== src/Fsutil/OpenRandom.antt =====
-- fsutil/safe_write.go: `openRandom`, `OpenFileRandom` and `MkdirRandom`, which try random names until
-- one does not exist. The random numbers are a stream, `random i` at the attempt `i`.
pub mod Attempts
use Prim.Native.Nat.{bit_or}
use musicbox.Prelude.{
  ℕ, zero, suc, ◌+◌, ◌-◌, ◌*◌, ◌/◌, ◌%◌, ◌^◌, ◌≤◌, ◌<◌, ◌≡◌, refl, Bool, true, false, ◌||◌, Option,
  none, some, List, [], ◌∷◌, ◌++◌, arith, ltb, ◌==◌, if◌then◌else◌, length, length-append, ap, ◌∙◌,
  Bool-cases, inl, inr,
}
use musicbox.Prelude.Codes.{codes}
use musicbox.Fsutil.Error.{Error, wrap, sentinel, Sentinel, bad_pattern, max_retry, exist}
use musicbox.Fsutil.Action.{Action}
use musicbox.Fsutil.Fs.{FilePath, same_path, Opened, opened, not_opened, Fs, perm_bits}
use musicbox.Fsutil.Path.{slash, join}
use musicbox.Fsutil.Text.{star, contains, split_at_last}

-- `strconv.FormatUint(n, 10)`: its digits, on fuel that bounds their number.
unfoldable pub decimal : ℕ → ℕ → List ℕ
decimal zero n = []
decimal (suc fuel) n =
    let front = decimal fuel (n / 10) in
    if ltb n 10 then (b'0' + n) ∷ [] else front ++ ((b'0' + n % 10) ∷ [])

unfoldable pub zeros : ℕ → List ℕ
zeros zero = []
zeros (suc n) = b'0' ∷ zeros n

-- `randomUint32Padded`; FormatUint takes a uint64, which has twenty digits at most.
unfoldable pub random_uint32_padded : ℕ → FilePath
unfolding decimal zeros
random_uint32_padded n =
    let s = decimal 20 (n % 2 ^ 32) in zeros (length (codes "4294967295") - length s) ++ s

-- `os.IsExist`
abbrev pub is_exist : Error → Bool
is_exist (sentinel exist) = true
is_exist _ = false

abbrev pub max_attempts : ℕ
max_attempts = 10000

-- The name at an attempt.
pub random_name : (ℕ → ℕ) → FilePath → FilePath → FilePath → ℕ → FilePath
random_name random d prefix suffix i =
    join d (prefix ++ (random_uint32_padded (random i) ++ suffix))

-- The pattern before its last star and behind it.
abbrev pattern_parts : Option (FilePath × FilePath) → FilePath → FilePath × FilePath
pattern_parts none pattern_text = (pattern_text, [])
pattern_parts (some parts) pattern_text = parts

module _ {W H : Type 0} where
  -- The loop, on fuel; `none` is out of fuel.
  pub open_random_loop :
      ℕ → (FilePath → W → Opened H × W) → (ℕ → FilePath) → ℕ → W → Option (Opened H × W)
  open_random_loop zero open_at name attempt w = none
  open_random_loop (suc fuel) open_at name attempt w =
      let (got, w') = open_at (name attempt) w in
      let again = open_random_loop fuel open_at name (attempt + 1) w' in
      elim got [
        | opened f ↦ some (opened f, w')
        | not_opened e ↦
            if is_exist e
            then (if ltb (attempt + 1) max_attempts
                then again
                else some (not_opened (wrap "max retry exceeded" (sentinel max_retry)), w'))
            else some (not_opened e, w')
      ]

  -- What `MkdirRandom` and `openTmpDir` do to open a new directory.
  unfoldable pub mkdir_then_open : Fs W H → ℕ → FilePath → W → Opened H × W
  mkdir_then_open fs mode name w =
      let (err, w') = fs.mkdir name mode w in
      elim err [ some e ↦ (not_opened e, w') | none ↦ fs.open_name name w' ]

module _ {W H : Type 0} (random : ℕ → ℕ) where
  -- `openRandom`; the fuel is the number of attempts that it makes at most.
  pub open_random : (FilePath → W → Opened H × W) → FilePath → FilePath → W → Option (Opened H × W)
  open_random open_at d pattern_text w =
      let d' = if same_path d [] then codes "tmp" else d in
      if contains pattern_text slash
      then some (not_opened (wrap "pattern contains path separators" (sentinel bad_pattern)), w)
      else let (prefix, suffix) = pattern_parts (split_at_last pattern_text star) pattern_text in
        open_random_loop max_attempts open_at (random_name random d' prefix suffix) 0 w

  -- `OpenFileRandom`; `create_excl` stands for the flags O_RDWR, O_CREATE and O_EXCL.
  pub open_file_random : Fs W H → ℕ → FilePath → FilePath → ℕ → W → Option (Opened H × W)
  open_file_random fs create_excl d pattern_text perm =
      open_random (λ name. fs.open_file name create_excl (bit_or (perm_bits perm) 0o200)) d
        pattern_text

  -- `MkdirRandom`
  pub mkdir_random : Fs W H → FilePath → FilePath → ℕ → W → Option (Opened H × W)
  mkdir_random fs d pattern_text perm =
      open_random (mkdir_then_open fs (perm_bits perm)) d pattern_text

-- The powers of ten.
abbrev ten_to : ℕ → ℕ
ten_to zero = 1
ten_to (suc k) = 10 * ten_to k

-- A number below a power of ten has as many digits at most.
length-decimal : (k fuel n : ℕ) → n < ten_to (suc k) → length (decimal fuel n) ≤ suc k
unfolding decimal
length-decimal k zero n h = omega arith
length-decimal zero (suc fuel) n h = ground (arith, h)
length-decimal (suc k) (suc fuel) n h =
    let shorter = length-decimal k fuel (n / 10) (omega (arith, h)) in
    ground (arith, shorter, length-append (decimal fuel (n / 10)) ((b'0' + n % 10) ∷ []))

length-zeros : (n : ℕ) → length (zeros n) ≡ n
unfolding zeros
length-zeros zero = refl
length-zeros (suc n) = ap suc (length-zeros n)

-- A random part has ten bytes, whatever the number.
pub length-random_uint32_padded : (n : ℕ) → length (random_uint32_padded n) ≡ 10
unfolding random_uint32_padded
length-random_uint32_padded n =
    let digits = decimal 20 (n % 2 ^ 32) in
    length-append (zeros (10 - length digits)) digits
    ∙ omega
        (arith, length-decimal 9 20 (n % 2 ^ 32) (omega arith), length-zeros (10 - length digits))
