-- ===== src/Auth/Login.antt =====
-- Who can log in: `loginUser`, and its interplay with `registerUser` and `approveUser`.
use device_app.Base.{
  ℕ, ◌≡◌, refl, ap, ◌∙◌, String, List, [], ◌∷◌, ◌++◌, some, Bool, true, false, ◌&&◌, ◌||◌, not, map,
  ◌==◌, text_key, if◌then◌else◌, filter, filter-append, filter-or-nil, length, eq_iff, arith,
  Bool-cases, inl, inr,
}
use device_app.Base.Map.{find}
use Prim.Native.String.{◌++◌ as append}
use text.Mathlib.TextPositions.{eq_refl}
use device_app.Wire.{Bytes}
use device_app.Json.{JsonLib, JsonLaws}
use device_app.Auth.{
  User, c_str, InsertResult, Sqlite, SqliteLaws, names, is_pending, promote, hash_password,
  generate_salt, failure, success, new_user, check_login, login_row, login_user, register_user,
  approve_user, approve_reply,
}

module _ {J D : Type 0} (js : JsonLib J) (sql : Sqlite D) (sha256 : String → Bytes) where
  -- The answer that carries the account's role.
  abbrev pub granted : String → String → J
  granted role username = js.object_of (
      ("success", js.boolean true)
      ∷ ("state", js.string role)
      ∷ ("username", js.string username)
      ∷ [])

  -- The account, among the rows with the name, that a password opens.
  abbrev pub opens : String → List User → Bool
  opens password [] = false
  opens password (u ∷ us) = hash_password sha256 password u.salt == u.password && not (is_pending u)

  module _ (json_law : JsonLaws js) (law : SqliteLaws sql) where
    says :
        (b : Bool) (fs : List (String × J))
        → js.value_bool (js.object_of (("success", js.boolean b) ∷ fs)) "success" false ≡ some b
    unfolding find
    says b fs =
        json_law.value_bool-object_of (("success", js.boolean b) ∷ fs) "success" b false refl

    abbrev Says : J → Bool → Type 0
    Says j b = js.value_bool j "success" false ≡ some b

    check_login-opens :
        (username password : String) (u : User)
        → Says
            (check_login js sql sha256 username password u)
            (hash_password sha256 password u.salt == u.password && not (is_pending u))
    unfolding check_login
    check_login-opens username password u =
        elim (Bool-cases (hash_password sha256 password u.salt == u.password)) [
          | inl e ↦ rw e (elim (Bool-cases (is_pending u)) [
            | inl f ↦ rw f (says false _)
            | inr f ↦ rw f (says true _)
          ])
          | inr e ↦ rw e (says false _)
        ]

    login_row-opens :
        (username password : String) (us : List User)
        → Says (login_row js sql sha256 username password us) (opens password us)
    unfolding login_row
    login_row-opens username password [] = says false _
    login_row-opens username password (u ∷ us) = check_login-opens username password u

    -- A login is answered with success exactly when both fields are filled in, the statement could
    -- be prepared, and the first row with the name, as far as its first NUL character, has the
    -- salted hash of the whole password and is not pending.
    pub login_exact :
        (username password : String) (d : D)
        → js.value_bool (login_user js sql sha256 username password d) "success" false
          ≡ some (
              not (username == "" || password == "")
              && (sql.prepare d && opens password (filter (names (c_str username)) (law.rows d))))
    unfolding login_user
    login_exact username password d = elim (Bool-cases (username == "" || password == "")) [
      | inl e ↦ rw e (says false _)
      | inr e ↦ rw e (elim (Bool-cases (sql.prepare d)) [
        | inl f ↦
            rw (f, law.select_rows d (names (c_str username))) (login_row-opens username password _)
        | inr f ↦ rw f (says false _)
      ])
    ]

-- What a filter by one name keeps of a table into which an unused name went.
names-append :
    (username : String) (us : List User) (u : User)
    → u.username ≡ username
    → filter (names username) us ≡ []
    → filter (names username) (us ++ (u ∷ [])) ≡ u ∷ []
names-append username us u e h =
    filter-append (names username) us (u ∷ []) ∙ rw h (ground (arith, eq_iff u.username username))

names-promote :
    (username : String) (us : List User)
    → filter
        (names username)
        (map (λ r. if names username r && is_pending r then promote r else r) us)
      ≡ map (λ r. if is_pending r then promote r else r) (filter (names username) us)
names-promote username [] = refl
names-promote username (u ∷ us) = ground (arith, names-promote username us)

pending-names :
    (username : String) (us : List User)
    → filter (λ r. names username r && is_pending r) us
      ≡ filter is_pending (filter (names username) us)
pending-names username [] = refl
pending-names username (u ∷ us) = ground (arith, pending-names username us)

module _ {J D : Type 0} (js : JsonLib J) (sql : Sqlite D) (law : SqliteLaws sql)
    (sha256 : String → Bytes) where
  abbrev pub login : String → String → D → J
  login = login_user js sql sha256

  -- With one row of the name, a login reads that row.
  login_one :
      (username password : String) (d : D) (u : User)
      → (username == "" || password == "") ≡ false
      → sql.prepare d ≡ true
      → filter (names (c_str username)) (law.rows d) ≡ u ∷ []
      → login username password d ≡ check_login js sql sha256 username password u
  unfolding login_user login_row
  login_one username password d u filled ready one =
      rw (filled, ready, law.select_rows d (names (c_str username)), one)

  rows-register :
      (random : Bytes) (username email password : String) (d : D)
      → (username == "" || email == "" || password == "") ≡ false
      → sql.prepare d ≡ true
      → let u = new_user js sql sha256 d username email password (generate_salt random) in
        (sql.insert d u).0 ≡ InsertResult.done
        → filter
            (names (c_str username))
            (law.rows (register_user js sql sha256 random username email password d).1)
          ≡ u ∷ []
  unfolding register_user
  rows-register random username email password d filled ready stored =
      let u = new_user js sql sha256 d username email password (generate_salt random) in
      rw (filled, ready, law.insert_rows d u, stored)
        (names-append (c_str username) (law.rows d) u refl (
          filter-or-nil (names (c_str username)) (λ r. r.email == c_str email) (law.rows d)
            (law.insert_unique d u stored)))

  rows-approve :
      (username : String) (d : D) (n : ℕ)
      → sql.prepare d ≡ true
      → (sql.update d (λ u. names (c_str username) u && is_pending u) promote).0 ≡ some n
      → filter (names (c_str username)) (law.rows (approve_user js sql sha256 username d).1)
        ≡ map
            (λ r. if is_pending r then promote r else r)
            (filter (names (c_str username)) (law.rows d))
  unfolding approve_user
  rows-approve username d n ready changed =
      rw (ready, law.update_rows d (λ u. names (c_str username) u && is_pending u) promote, changed)
        (names-promote (c_str username) (law.rows d))

  approve_reply-one :
      (username : String) (d : D) (n : ℕ) (u : User)
      → sql.prepare d ≡ true
      → (sql.update d (λ u. names (c_str username) u && is_pending u) promote).0 ≡ some n
      → filter (names (c_str username)) (law.rows d) ≡ u ∷ []
      → is_pending u ≡ true
      → (approve_user js sql sha256 username d).0 ≡ success js (append username " 승인 완료")
  unfolding approve_user approve_reply
  approve_reply-one username d n u ready changed one pending =
      let single : filter is_pending (u ∷ []) ≡ u ∷ [] = rw pending refl in
      let matched : filter (λ r. names (c_str username) r && is_pending r) (law.rows d) ≡ u ∷ [] =
        pending-names (c_str username) (law.rows d) ∙ ap (filter is_pending) one ∙ single in
      let counted : n ≡ 1 = law.update_changes d _ _ n changed ∙ ap length matched in
      rw (ready, changed, counted, approve_reply)

  -- When the statements succeed: right after registerUser stored a new account, a login with its
  -- password is refused as waiting for approval; approveUser on the name answers success; and from
  -- then on the same login is granted with the role user.
  pub registration_workflow :
      (random : Bytes) (username email password : String) (d : D) (n : ℕ)
      → (username == "" || email == "" || password == "") ≡ false
      → ((d : D) → sql.prepare d ≡ true)
      → (sql.insert d (new_user js sql sha256 d username email password (generate_salt random))).0
        ≡ InsertResult.done
      → let d₁ = (register_user js sql sha256 random username email password d).1 in
        (sql.update d₁ (λ u. names (c_str username) u && is_pending u) promote).0 ≡ some n
        → let (reply, d₂) = approve_user js sql sha256 username d₁ in
          (login username password d₁ ≡ failure js "관리자 승인 대기 중입니다.")
          × (reply ≡ success js (append username " 승인 완료"))
          × (login username password d₂ ≡ granted js sql sha256 "user" username)
  unfolding check_login new_user
  registration_workflow random username email password d n filled ready stored changed =
      let u = new_user js sql sha256 d username email password (generate_salt random) in
      let d₁ = (register_user js sql sha256 random username email password d).1 in
      let one = rows-register random username email password d filled (ready d) stored in
      let named : (username == "" || password == "") ≡ false = ground arith in
      let right : (hash_password sha256 password (generate_salt random)
            == hash_password sha256 password (generate_salt random))
          ≡ true =
        eq_refl _ in
      (
        login_one username password d₁ u named (ready d₁) one ∙ rw right refl,
        approve_reply-one username d₁ n u (ready d₁) changed one refl,
        login_one username password _ (promote u) named (ready _)
              (rows-approve username d₁ n (ready d₁) changed ∙ rw one refl)
            ∙ rw right refl,
      )
