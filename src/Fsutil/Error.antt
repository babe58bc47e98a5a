-- ===== src/Fsutil/Error.antt =====
-- fsutil/error.go: the package's errors. `other` is an error of a file system or a callback.
use Prim.Native.String.{String}
use musicbox.Prelude.{ℕ, ◌≡◌, ◌↔◌, ◌⊎◌, Bool, true, false, ◌||◌, List, [], ◌∷◌, arith}

-- The errors that the package and Go's io/fs name.
pub data Sentinel : Type 0 where
  bad_input bad_name bad_pattern max_retry hash_sum_mismatch : Sentinel
  not_exist exist unexpected_eof other_sentinel : Sentinel

-- `wrap m e` is `fmt.Errorf` with one %w, for `e`; `other` is an error that names no sentinel. Errors
-- that wrap two others, such as that of WithPrefixSuffix, are not modelled.
pub data Error : Type 0 where
  sentinel : Sentinel → Error
  other : ℕ → Error
  wrap : String → Error → Error

pub same_sentinel : Sentinel → Sentinel → Bool
same_sentinel bad_input bad_input = true
same_sentinel bad_name bad_name = true
same_sentinel bad_pattern bad_pattern = true
same_sentinel max_retry max_retry = true
same_sentinel hash_sum_mismatch hash_sum_mismatch = true
same_sentinel not_exist not_exist = true
same_sentinel exist exist = true
same_sentinel unexpected_eof unexpected_eof = true
same_sentinel other_sentinel other_sentinel = true
same_sentinel _ _ = false

-- Go's `errors.Is(err, target)` for a sentinel.
unfoldable pub is : Error → Sentinel → Bool
unfolding same_sentinel
is (sentinel s) target = same_sentinel s target
is (other n) target = false
is (wrap m e) target = is e target

is_any : Error → List Sentinel → Bool
unfolding is
is_any err [] = false
is_any err (e ∷ es) = is err e || is_any err es

-- `IsPackageErr`
pub is_package_err : Error → Bool
unfolding is_any
is_package_err err =
    is_any err (bad_input ∷ bad_name ∷ bad_pattern ∷ max_retry ∷ hash_sum_mismatch ∷ [])

-- The sentinel that a chain of wrapped errors ends in.
abbrev pub Names : Error → Sentinel → Type 0
Names (sentinel s) target = s ≡ target
Names (other n) target = ⊥
Names (wrap m e) target = Names e target

-- A package error is one that wraps one of the five sentinels, at any depth.
pub is_package_err_iff :
    (err : Error)
    → (is_package_err err ≡ true) ↔ (
        Names err bad_input
        ⊎ Names err bad_name
        ⊎ Names err bad_pattern
        ⊎ Names err max_retry
        ⊎ Names err hash_sum_mismatch)
unfolding is_package_err
is_package_err_iff (sentinel bad_input) = ground arith
is_package_err_iff (sentinel s) = ground arith
is_package_err_iff (other n) = ground arith
is_package_err_iff (wrap m e) = is_package_err_iff e
