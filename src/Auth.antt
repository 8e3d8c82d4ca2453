-- ===== src/Auth.antt =====
-- ClientServer/src/AuthManager.cpp. SQLite, SHA-256 and /dev/urandom are parameters: the engine runs
-- the statements, whose conditions, assignments and defaults are those of the source's SQL texts.
pub mod Login
pub mod Accounts
pub mod Opening
use device_app.Base.{
  ℕ, zero, suc, ◌/◌, ◌%◌, ◌≡◌, String, List, [], ◌∷◌, ◌++◌, Option, none, some, Bool, true, false,
  ◌&&◌, ◌||◌, map, ◌==◌, text_key, if◌then◌else◌, nat_eq, filter, length, elem,
}
use device_app.Wire.{Bytes}
use device_app.Json.{JsonLib}
use Prim.Native.Char.{code}
use Prim.Native.String.{◌++◌ as append}

-- A row of `users`; `id` and `is_active` are never read.
pub record User : Type 0 where
  pub username : String
  pub email : String
  pub password : String
  pub salt : String
  pub role : String
  pub created : String

-- sqlite3_step of an INSERT: SQLITE_DONE, or an error whose message names UNIQUE or does not.
pub data InsertResult : Type 0 where
  done : InsertResult
  unique_violation : InsertResult
  other_error : InsertResult

pub record Sqlite (D : Type 0) : Type 0 where
  -- sqlite3_prepare_v2 of a statement on `users` returns SQLITE_OK
  pub prepare : D → Bool
  -- CURRENT_TIMESTAMP
  pub current_timestamp : D → String
  pub insert : D → User → InsertResult × D
  -- the rows that the steps of SELECT … WHERE yield
  pub select : D → (User → Bool) → List User
  -- UPDATE … SET … WHERE: `none` if the step is not SQLITE_DONE, else sqlite3_changes
  pub update : D → (User → Bool) → (User → User) → Option ℕ × D

-- Only as much is used of `insert` and `update` failing as that they leave the table alone.
pub record SqliteLaws {D : Type 0} (sql : Sqlite D) : Type 0 where
  pub rows : D → List User
  pub select_rows : (d : D) (p : User → Bool) → sql.select d p ≡ filter p (rows d)
  pub insert_rows :
      (d : D) (u : User)
      → rows (sql.insert d u).1
        ≡ elim (sql.insert d u).0 [ InsertResult.done ↦ rows d ++ (u ∷ []) | _ ↦ rows d ]
  -- UNIQUE(username), UNIQUE(email)
  pub insert_unique :
      (d : D) (u : User)
      → (sql.insert d u).0 ≡ InsertResult.done
      → filter (λ r. r.username == u.username || r.email == u.email) (rows d) ≡ []
  pub update_rows :
      (d : D) (p : User → Bool) (f : User → User)
      → rows (sql.update d p f).1 ≡ elim (sql.update d p f).0 [
        | none ↦ rows d
        | some n ↦ map (λ r. if p r then f r else r) (rows d)
      ]
  pub update_changes :
      (d : D) (p : User → Bool) (f : User → User) (n : ℕ)
      → (sql.update d p f).0 ≡ some n
      → n ≡ length (filter p (rows d))

unfoldable pub hex_digit : ℕ → String
hex_digit n =
    if nat_eq n 0
    then "0"
    else if nat_eq n 1
    then "1"
    else if nat_eq n 2
    then "2"
    else if nat_eq n 3
    then "3"
    else if nat_eq n 4
    then "4"
    else if nat_eq n 5
    then "5"
    else if nat_eq n 6
    then "6"
    else if nat_eq n 7
    then "7"
    else if nat_eq n 8
    then "8"
    else if nat_eq n 9
    then "9"
    else if nat_eq n 10
    then "a"
    else if nat_eq n 11
    then "b"
    else if nat_eq n 12
    then "c"
    else if nat_eq n 13
    then "d"
    else if nat_eq n 14
    then "e"
    else "f"

-- `oss << std::hex << std::setw(2) << std::setfill('0')` of each byte
unfoldable pub hex_text : Bytes → String
unfolding hex_digit
hex_text [] = ""
hex_text (b ∷ bs) = append (hex_digit (b / 16)) (append (hex_digit (b % 16)) (hex_text bs))

-- The bytes are what /dev/urandom gave.
unfoldable pub generate_salt : Bytes → String
generate_salt random = hex_text random

unfoldable pub hash_password : (String → Bytes) → String → String → String
hash_password sha256 password salt = hex_text (sha256 (append password salt))

-- A text bound by c_str() with length -1: up to the first NUL.
unfoldable pub c_str : String → String
c_str String.[] = ""
c_str (String.◌∷◌ c s) = let rest = c_str s in if nat_eq (code c) 0 then "" else String.◌∷◌ c rest

abbrev pub names : String → User → Bool
names username u = u.username == username

abbrev pub is_pending : User → Bool
is_pending u = u.role == "pending"

abbrev pub promote : User → User
promote u = record u { role = "user" }

module _ {J : Type 0} (js : JsonLib J) where
  -- {{"success", false}, {"error", message}}
  abbrev pub failure : String → J
  failure message = js.object_of (("success", js.boolean false) ∷ ("error", js.string message) ∷ [])

  abbrev pub success : String → J
  success message =
      js.object_of (("success", js.boolean true) ∷ ("message", js.string message) ∷ [])

module _ {J D : Type 0} (js : JsonLib J) (sql : Sqlite D) (sha256 : String → Bytes) where
  unfoldable pub new_user : D → String → String → String → String → User
  unfolding c_str
  new_user d username email password salt = record {
    username = c_str username;
    email = c_str email;
    password = hash_password sha256 password salt;
    salt = salt;
    role = "pending";
    created = sql.current_timestamp d;
  }

  register_reply : InsertResult → J
  register_reply InsertResult.done = success js "회원가입 완료. 관리자 승인을 기다려주세요."
  register_reply InsertResult.unique_violation = failure js "이미 사용 중인 아이디 또는 이메일입니다."
  register_reply InsertResult.other_error = failure js "회원가입 실패"

  unfoldable pub register_user : Bytes → String → String → String → D → J × D
  unfolding new_user register_reply
  register_user random username email password d =
      if username == "" || email == "" || password == ""
      then (failure js "모든 필드를 입력해주세요.", d)
      else if sql.prepare d
      then (let (r, d') =
            sql.insert d (new_user d username email password (generate_salt random)) in
          (register_reply r, d'))
      else (failure js "DB 오류", d)

  -- The password first, then the role.
  unfoldable pub check_login : String → String → User → J
  check_login username password u =
      if hash_password sha256 password u.salt == u.password
      then (if is_pending u
          then failure js "관리자 승인 대기 중입니다."
          else js.object_of (
              ("success", js.boolean true)
              ∷ ("state", js.string u.role)
              ∷ ("username", js.string username)
              ∷ []))
      else failure js "비밀번호가 일치하지 않습니다."

  -- The first step of the SELECT.
  unfoldable pub login_row : String → String → List User → J
  unfolding check_login
  login_row username password [] = failure js "존재하지 않는 아이디입니다."
  login_row username password (u ∷ us) = check_login username password u

  unfoldable pub login_user : String → String → D → J
  unfolding login_row c_str
  login_user username password d =
      if username == "" || password == ""
      then failure js "아이디와 비밀번호를 입력해주세요."
      else if sql.prepare d
      then login_row username password (sql.select d (names (c_str username)))
      else failure js "DB 오류"

  pending_entry : User → J
  pending_entry u = js.object_of (
      ("username", js.string u.username)
      ∷ ("email", js.string u.email)
      ∷ ("created", js.string u.created)
      ∷ [])

  pub list_pending_users : D → J
  unfolding pending_entry
  list_pending_users d =
      if sql.prepare d
      then js.object_of (
          ("success", js.boolean true)
          ∷ ("users", js.array_of (map pending_entry (sql.select d is_pending)))
          ∷ [])
      else failure js "DB 오류"

  unfoldable pub approve_reply : String → Option ℕ → J
  approve_reply username none = failure js "승인 실패"
  approve_reply username (some zero) = failure js "해당 유저가 없거나 이미 승인되었습니다."
  approve_reply username (some (suc n)) = success js (append username " 승인 완료")

  unfoldable pub approve_user : String → D → J × D
  unfolding approve_reply c_str
  approve_user username d =
      if sql.prepare d
      then (let (changes, d') =
            sql.update d (λ u. names (c_str username) u && is_pending u) promote in
          (approve_reply username changes, d'))
      else (failure js "DB 오류", d)
