-- ===== src/Auth/Accounts.antt =====
-- What the account operations leave alone in the table.
use device_app.Base.{
  ◌≡◌, ◌≢◌, refl, sym, ap, ◌∙◌, String, List, [], ◌∷◌, ◌++◌, none, some, Bool, true, false, ◌&&◌,
  ◌||◌, map, ◌==◌, text_key, if◌then◌else◌, filter, filter-append, append-nil, eq_iff, arith,
  Bool-cases, if_cases, All, inl, inr,
}
use mathlib.Core.Path.{subst}
use device_app.Wire.{Bytes}
use device_app.Json.{JsonLib}
use device_app.Auth.{
  c_str, User, InsertResult, Sqlite, SqliteLaws, names, is_pending, promote, new_user,
  register_user, approve_user, generate_salt,
}

abbrev pub is_admin : User → Bool
is_admin u = u.role == "admin"

not_pending_admin : (r : User) → is_pending r ≡ true → is_admin r ≡ false
not_pending_admin r h =
    subst (λ x. (x == "admin") ≡ false) (sym ((eq_iff r.role "pending").0 h)) refl

filter_admin-promote :
    (username : String) (us : List User)
    → filter is_admin (map (λ r. if names username r && is_pending r then promote r else r) us)
      ≡ filter is_admin us
filter_admin-promote username [] = refl
filter_admin-promote username (u ∷ us) = elim (Bool-cases (names username u && is_pending u)) [
  | inl e ↦ rw e (ground (arith, filter_admin-promote username us, not_pending_admin u))
  | inr e ↦ rw e (ground (arith, filter_admin-promote username us))
]

others-promote :
    (username other : String) (us : List User)
    → username ≢ other
    → filter (names other) (map (λ r. if names username r && is_pending r then promote r else r) us)
      ≡ filter (names other) us
others-promote username other [] h = refl
others-promote username other (u ∷ us) h =
    ground (
      arith,
      others-promote username other us h,
      eq_iff u.username username,
      eq_iff u.username other,
    )

-- A request to the account manager that may write the table.
pub data Request : Type 0 where
  register : Bytes → String → String → String → Request
  approve : String → Request

-- The name that the statement of a request is about.
abbrev pub subject : Request → String
subject (register random username email password) = c_str username
subject (approve username) = c_str username

module _ {J D : Type 0} (js : JsonLib J) (sql : Sqlite D) (sha256 : String → Bytes) where
  pub after_request : D → Request → D
  after_request d (register random username email password) =
      (register_user js sql sha256 random username email password d).1
  after_request d (approve username) = (approve_user js sql sha256 username d).1

  pub after_requests : D → List Request → D
  after_requests d [] = d
  after_requests d (r ∷ rs) = after_requests (after_request d r) rs

module _ {J D : Type 0} (js : JsonLib J) (sql : Sqlite D) (law : SqliteLaws sql)
    (sha256 : String → Bytes) where
  insert_keeps :
      (u : User) (d : D) (p : User → Bool)
      → p u ≡ false
      → filter p (law.rows (sql.insert d u).1) ≡ filter p (law.rows d)
  insert_keeps u d p off =
      ap (filter p) (law.insert_rows d u)
      ∙ elim (sql.insert d u).0
          as (λ r.
            filter p (elim r [ InsertResult.done ↦ law.rows d ++ (u ∷ []) | _ ↦ law.rows d ])
            ≡ filter p (law.rows d)) [
              | InsertResult.done ↦ filter-append p (law.rows d) (u ∷ []) ∙ rw off (append-nil _)
              | _ ↦ refl
            ]

  update_keeps :
      (d : D) (q p : User → Bool) (f : User → User)
      → filter p (map (λ r. if q r then f r else r) (law.rows d)) ≡ filter p (law.rows d)
      → filter p (law.rows (sql.update d q f).1) ≡ filter p (law.rows d)
  update_keeps d q p f same =
      ap (filter p) (law.update_rows d q f)
      ∙ elim (sql.update d q f).0
          as (λ r.
            filter p (elim r [
              | none ↦ law.rows d
              | some n ↦ map (λ r. if q r then f r else r) (law.rows d)
            ])
            ≡ filter p (law.rows d)) [ none ↦ refl | some n ↦ same ]

  register_rows :
      (random : Bytes) (username email password : String) (d : D) (p : User → Bool)
      → p (new_user js sql sha256 d username email password (generate_salt random)) ≡ false
      → filter p (law.rows (register_user js sql sha256 random username email password d).1)
        ≡ filter p (law.rows d)
  unfolding register_user
  register_rows random username email password d p off =
      let Keeps = λ (r : J × D). filter p (law.rows r.1) ≡ filter p (law.rows d) in
      if_cases Keeps (username == "" || email == "" || password == "") _ _ (λ _. refl)
        (λ _. if_cases Keeps (sql.prepare d) _ _ (λ _. insert_keeps _ d p off) (λ _. refl))

  approve_rows :
      (username : String) (d : D) (p : User → Bool)
      → filter p (
          map (λ r. if names (c_str username) r && is_pending r then promote r else r) (law.rows d))
        ≡ filter p (law.rows d)
      → filter p (law.rows (approve_user js sql sha256 username d).1) ≡ filter p (law.rows d)
  unfolding approve_user
  approve_rows username d p same =
      let Keeps = λ (r : J × D). filter p (law.rows r.1) ≡ filter p (law.rows d) in
      if_cases Keeps (sql.prepare d) _ _ (λ _. update_keeps d _ p promote same) (λ _. refl)

  after_request_keeps :
      (d : D) (r : Request) (other : String)
      → subject r ≢ other
      → (filter is_admin (law.rows (after_request js sql sha256 d r))
          ≡ filter is_admin (law.rows d))
        × (filter (names other) (law.rows (after_request js sql sha256 d r))
            ≡ filter (names other) (law.rows d))
  unfolding after_request new_user
  after_request_keeps d (register random username email password) other h = (
    register_rows random username email password d is_admin refl,
    register_rows random username email password d (names other)
        (ground (arith, eq_iff (c_str username) other)),
  )
  after_request_keeps d (approve username) other h = (
    approve_rows username d is_admin (filter_admin-promote (c_str username) (law.rows d)),
    approve_rows username d (names other) (others-promote (c_str username) other (law.rows d) h),
  )

  -- Whatever registrations and approvals are asked for, by whom and with whatever result, the
  -- accounts with the role admin stay as they were, and so do all accounts of a name that no
  -- request was about, where a request is about its name as far as the first NUL character.
  pub after_requests_keep :
      (d : D) (rs : List Request) (other : String)
      → All (λ r. subject r ≢ other) rs
      → (filter is_admin (law.rows (after_requests js sql sha256 d rs))
          ≡ filter is_admin (law.rows d))
        × (filter (names other) (law.rows (after_requests js sql sha256 d rs))
            ≡ filter (names other) (law.rows d))
  unfolding after_requests
  after_requests_keep d [] other h = (refl, refl)
  after_requests_keep d (r ∷ rs) other h =
      let one = after_request_keeps d r other h.0 in
      let more = after_requests_keep (after_request js sql sha256 d r) rs other h.1 in
      (more.0 ∙ one.0, more.1 ∙ one.1)
