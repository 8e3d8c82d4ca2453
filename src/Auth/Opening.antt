-- ===== src/Auth/Opening.antt =====
-- AuthManager::init of ClientServer/src/AuthManager.cpp: the database is opened, its table made, and
-- an empty table filled with the test accounts.
use device_app.Base.{ℕ, String, [], ◌∷◌, Option, some, Bool, true, false}
use device_app.Wire.{Bytes}
use device_app.Auth.{Sqlite, hash_password, generate_salt}

module _ {D : Type 0} (sql : Sqlite D) (sha256 : String → Bytes) where
  -- The helper of `seedTestData`, whose statement's result is not looked at.
  seed_user : String → String → String → String → Bytes → D → D
  seed_user username email password role random d =
      let salt = generate_salt random in
      (sql.insert d (record {
        username = username;
        email = email;
        password = hash_password sha256 password salt;
        salt = salt;
        role = role;
        created = sql.current_timestamp d;
      })).1

  -- `random n` is what /dev/urandom gives for the nth row.
  pub seed_test_data : (ℕ → Bytes) → D → D
  unfolding seed_user
  seed_test_data random d = elim (sql.select d (λ u. true)) [
    | u ∷ us ↦ d
    | [] ↦
        (let d₁ =
            seed_user "admin_alpha" "admin_alpha@google.com" "pass_admin_alpha" "admin" (random 0)
              d in
          let d₂ =
            seed_user "user_alpha" "user_alpha@alpha.com" "pass_user_alpha" "user" (random 1) d₁ in
          let d₃ =
            seed_user "user_beta" "user_beta@google.com" "pass_user_beta" "user" (random 2) d₂ in
          let d₄ =
            seed_user "user_gamma" "user_gamma@google.com" "pass_user_gamma" "user" (random 3) d₃ in
          let d₅ =
            seed_user "wait_alpha" "wait_alpha@google.com" "pass_wait_alpha" "pending" (random 4)
              d₄ in
          let d₆ =
            seed_user "wait_beta" "wait_beta@google.com" "pass_wait_beta" "pending" (random 5) d₅ in
          seed_user "wait_gamma" "wait_gamma@google.com" "pass_wait_gamma" "pending" (random 6) d₆)
  ]

-- What sqlite3_open leaves: an open database, or no success and perhaps a handle all the same.
pub data Opened (D : Type 0) : Type 0 where
  opened : D → Opened D
  failed : Option D → Opened D

-- SQLite before it has a database.
pub record Opener (D : Type 0) : Type 0 where
  pub open_database : String → Opened D
  -- sqlite3_exec of the CREATE TABLE: whether it is SQLITE_OK
  pub create_table : D → Bool × D

module _ {D : Type 0} (opener : Opener D) (sql : Sqlite D) (sha256 : String → Bytes) where
  table_made : (ℕ → Bytes) → Bool × D → Bool × Option D
  table_made random (false, d) = (false, some d)
  table_made random (true, d) = (true, some (seed_test_data sql sha256 random d))

  -- The result, and the handle that db_ holds after it.
  pub init : (ℕ → Bytes) → String → Bool × Option D
  unfolding table_made
  init random db_path = elim (opener.open_database db_path) [
    | failed db ↦ (false, db)
    | opened d ↦ table_made random (opener.create_table d)
  ]
