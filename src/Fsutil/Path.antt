-- ===== src/Fsutil/Path.antt =====
-- Names of files: what fsutil/safe_write.go uses of Go's path packages, on a system whose separator
-- is the slash and which has no volume names (there `filepath.ToSlash` and `FromSlash` change
-- nothing), and `normalizePath`.
use Prim.Native.Nat.{ℕ}
pub mod Normal
pub mod Parts
use mathlib.Core.List.{reverse}
use musicbox.Prelude.{
  zero, suc, ◌≡◌, refl, Bool, true, false, not, ◌&&◌, ◌||◌, Option, none, some, List, [], ◌∷◌, ◌++◌,
  ◌==◌, if◌then◌else◌,
}
use musicbox.Fsutil.Fs.{FilePath, same_path}

abbrev pub slash : ℕ
slash = b'/'

abbrev pub dot : FilePath
dot = b'.' ∷ []

abbrev pub dot_dot : FilePath
dot_dot = b'.' ∷ b'.' ∷ []

abbrev pub root : FilePath
root = slash ∷ []

abbrev pub is_rooted : FilePath → Bool
is_rooted [] = false
is_rooted (c ∷ p) = c == slash

-- The elements between slashes, in order; `acc` is the element being read, reversed.
abbrev snoc : FilePath → ℕ → FilePath
snoc p c = p ++ (c ∷ [])

unfoldable pub split_slash : FilePath → FilePath → List FilePath
split_slash acc [] = acc ∷ []
split_slash acc (c ∷ p) =
    let next = split_slash [] p in
    let more = split_slash (snoc acc c) p in if c == slash then acc ∷ next else more

unfoldable pub join_slash : List FilePath → FilePath
join_slash [] = []
join_slash (e ∷ []) = e
join_slash (e ∷ e' ∷ es) = e ++ (slash ∷ join_slash (e' ∷ es))

-- ".." takes back the last element, unless that is ".." itself; at the root it is dropped.
unfoldable pub go_up : Bool → List FilePath → List FilePath
go_up true [] = []
go_up false [] = dot_dot ∷ []
go_up rooted (k ∷ kept) = if same_path k dot_dot then dot_dot ∷ k ∷ kept else kept

-- One element of `path.Clean`, on the elements kept so far, the last one first.
unfoldable pub clean_step : Bool → List FilePath → FilePath → List FilePath
clean_step rooted kept e =
    if same_path e [] || same_path e dot
    then kept
    else if same_path e dot_dot
    then go_up rooted kept
    else e ∷ kept

unfoldable pub clean_elements : Bool → List FilePath → List FilePath → List FilePath
clean_elements rooted kept [] = kept
clean_elements rooted kept (e ∷ es) = clean_elements rooted (clean_step rooted kept e) es

abbrev or_dot : FilePath → FilePath
or_dot [] = dot
or_dot (c ∷ p) = c ∷ p

-- `path.Clean`, as its documentation describes it, and `filepath.Clean`.
unfoldable pub clean : FilePath → FilePath
unfolding split_slash join_slash go_up clean_step clean_elements
clean p = or_dot (
    (if is_rooted p then root else [])
    ++ join_slash (reverse (clean_elements (is_rooted p) [] (split_slash [] p))))

-- `strings.TrimPrefix(p, "/")`
abbrev pub trim_slash : FilePath → FilePath
trim_slash [] = []
trim_slash (c ∷ p) = if c == slash then p else c ∷ p

-- `normalizePath`
unfoldable pub normalize_path : FilePath → FilePath
normalize_path p =
    let cleaned = clean p in
    if same_path cleaned dot then root else clean (root ++ trim_slash cleaned)

-- The part of a name up to its last slash, that slash included, and the part behind it.
pub split_last : FilePath → FilePath × FilePath
split_last [] = ([], [])
split_last (c ∷ p) =
    let (dir, base) = split_last p in
    if is_empty_path dir && not (c == slash) then ([], c ∷ base) else (c ∷ dir, base)
  where
    is_empty_path : FilePath → Bool
    is_empty_path [] = true
    is_empty_path (c ∷ p) = false

-- `path.Dir`
unfoldable pub dir : FilePath → FilePath
unfolding split_last
dir p = clean (split_last p).0

pub trim_slashes : FilePath → FilePath
trim_slashes [] = []
trim_slashes (c ∷ p) =
    let rest = trim_slashes p in
    elim rest [ [] ↦ (if c == slash then [] else c ∷ []) | d ∷ q ↦ c ∷ d ∷ q ]

-- `path.Base`
unfoldable pub base : FilePath → FilePath
unfolding trim_slashes split_last
base [] = dot
base (c ∷ p) = elim (trim_slashes (c ∷ p)) [ [] ↦ root | d ∷ q ↦ (split_last (d ∷ q)).1 ]

-- `path.Join` of two elements.
unfoldable pub join : FilePath → FilePath → FilePath
join [] [] = []
join [] (c ∷ q) = clean (c ∷ q)
join (c ∷ p) [] = clean (c ∷ p)
join (c ∷ p) (d ∷ q) = clean ((c ∷ p) ++ (slash ∷ d ∷ q))
