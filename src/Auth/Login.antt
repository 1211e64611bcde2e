-- ===== src/Auth/Login.antt =====
-- internal/auth/auth.go: the rules for logins and passwords. The hash functions are parameters.
use alertloop.Base.{
  ℕ, ltb, leb, ◌*◌, Bool, false, ◌&&◌, ◌||◌, Option, none, some, [], ◌∷◌, Text, length, is_empty,
  if◌then◌else◌,
}
use alertloop.Store.Users.Tables.{User}
use alertloop.Strings.{is_space, trim_space, to_lower}

abbrev pub min_password_len : ℕ
min_password_len = 12

abbrev pub max_password_len : ℕ
max_password_len = 256

abbrev pub max_login_len : ℕ
max_login_len = 64

-- the lifetimes of a session, in nanoseconds
abbrev pub idle_timeout : ℕ
idle_timeout = 604800 * 1000000000

abbrev pub max_lifetime : ℕ
max_lifetime = 2592000 * 1000000000

-- unicode.IsControl
unfoldable pub is_control : ℕ → Bool
is_control c = leb c 31 || (leb 127 c && leb c 159)

unfoldable pub blank_or_control : Text → Bool
unfolding is_space is_control
blank_or_control [] = false
blank_or_control (c ∷ s) = is_space c || is_control c || blank_or_control s

unfoldable pub password_fits : Text → Bool
password_fits p = leb min_password_len (length p) && leb (length p) max_password_len

-- an error that the user can fix, or one of the random source, or the value
pub data Checked (A : Type 0) : Type 0 where
  invalid broken : Checked A
  fine : A → Checked A

-- HashPassword; `derive` is the hash in PHC format, with a new salt
unfoldable pub hash_password : (Text → Option Text) → Text → Checked Text
unfolding password_fits
hash_password derive p =
    if password_fits p then elim (derive p) [ none ↦ broken | some hash ↦ fine hash ] else invalid

unfoldable pub user_of : Text → ℕ → Text → Checked Text → Checked User
user_of id now login invalid = invalid
user_of id now login broken = broken
user_of id now login (fine hash) = fine (record {
  id = id;
  login = login;
  password_hash = hash;
  created_at = now;
  disabled_at = none;
  last_login_at = none;
})

module _ (table : ℕ → ℕ) where
  -- NormalizeLogin; `none` is ErrInvalid
  unfoldable pub normalize_login : Text → Option Text
  unfolding to_lower trim_space blank_or_control is_empty
  normalize_login login =
      let l = to_lower table (trim_space login) in
      if is_empty l || ltb max_login_len (length l) || blank_or_control l then none else some l

  -- NewUser, with the id that uuid.NewString gives
  unfoldable pub new_user : (Text → Option Text) → Text → ℕ → Text → Text → Checked User
  unfolding normalize_login hash_password user_of
  new_user derive id now login password = elim (normalize_login login) [
    | none ↦ invalid
    | some l ↦ user_of id now l (hash_password derive password)
  ]

-- `check` is checkPHC, which a hash that no user has is checked with too
unfoldable pub check_password : (Text → Text → Bool) → Text → Text → Bool
unfolding is_empty
check_password check hash password = if is_empty hash then false else check hash password
