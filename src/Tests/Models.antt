-- ===== src/Tests/Models.antt =====
-- Concrete stand-ins for what the program does not implement, with proofs that they meet the laws.
use device_app.Base.{◌∙◌, arith, eq_iff}
use device_app.Base.{
  ℕ, zero, suc, ◌+◌, ◌≡◌, ◌≤◌, refl, sym, ap, String, List, [], ◌∷◌, ◌++◌, Option, none, some, Bool,
  true, false, ◌||◌, map, filter, length, take, drop, take-append-drop, is_empty, ◌==◌, text_key,
  nat_eq, if◌then◌else◌, arith, inl, inr, Bool-cases,
}
use device_app.Base.Map.{find, insert, find-insert}
use device_app.Wire.{Bytes}
use device_app.Net.{Net, NetLaws}
use device_app.Json.{JsonLib, JsonLaws, JsonTextLaws, JsonSetLaws}
use device_app.Net.Reliable.{IsHealthy, IsFed}
use device_app.Auth.{User, Sqlite, SqliteLaws, InsertResult}
use device_app.Qt.{SecureSession}
use device_app.DeviceManager.Monitor.{Health, Answer}
use Prim.Native.String.{len}
use mathlib.Core.Option.{some-injective}

-- A kernel that takes at most four bytes in one call.
pub record Wires : Type 0 where
  pub taken : ℕ → Bytes
  pub inbox : ℕ → Bytes

abbrev pub update : (ℕ → Bytes) → ℕ → Bytes → ℕ → Bytes
update f fd bs g = if nat_eq fd g then bs else f g

abbrev pub wires : Net Wires
wires = record {
  send = λ w fd bs.
      let n = length (take 4 bs) in
      (some n, record w { taken = λ g. if nat_eq fd g then w.taken g ++ take n bs else w.taken g });
  recv = λ w fd n.
      (some (take n (w.inbox fd)), record w { inbox = update w.inbox fd (drop n (w.inbox fd)) });
  close = λ w fd. w;
}

pub length-take-le : (n : ℕ) (bs : Bytes) → length (take n bs) ≤ n
length-take-le zero bs = omega arith
length-take-le (suc n) [] = omega arith
length-take-le (suc n) (b ∷ bs) = omega (arith, length-take-le n bs)

pub nat_eq_refl : (n : ℕ) → nat_eq n n ≡ true
nat_eq_refl n = ground arith

unfoldable pub wires-laws : NetLaws wires
wires-laws = record {
  sent = λ w fd. w.taken fd;
  incoming = λ w fd. w.inbox fd;
  sent-send = λ w fd g bs. refl;
  recv_le = λ w fd n bs h. rw (← some-injective _ _ h) (length-take-le n (w.inbox fd));
  incoming-recv = λ w fd n. rw (nat_eq_refl fd) (sym (take-append-drop n (w.inbox fd)));
  sent-recv = λ w fd n g. refl;
}

abbrev pub quiet : Wires
quiet = record { taken = λ fd. []; inbox = λ fd. [] }

-- JSON values one level deep.
pub data Leaf : Type 0 where
  text : String → Leaf
  flag : Bool → Leaf
  opaque : Leaf

pub data Value : Type 0 where
  leaf : Leaf → Value
  object : List (String × Leaf) → Value

abbrev pub leaf_of : Value → Leaf
leaf_of (leaf l) = l
leaf_of (object fs) = opaque

abbrev pub leaves : List (String × Value) → List (String × Leaf)
leaves [] = []
leaves ((k, v) ∷ fs) = (k, leaf_of v) ∷ leaves fs

abbrev pub bool_of : Option Leaf → Bool → Option Bool
bool_of none d = some d
bool_of (some (flag b)) d = some b
bool_of (some (text t)) d = none
bool_of (some opaque) d = none

abbrev pub text_of : Option Leaf → String → Option String
text_of none d = some d
text_of (some (text t)) d = some t
text_of (some (flag b)) d = none
text_of (some opaque) d = none

abbrev pub field : Value → String → Option (Option Leaf)
field (leaf l) k = none
field (object fs) k = some (find k fs)

abbrev pub values : JsonLib Value
values = record {
  parse = λ bs. some (object []);
  dump = λ j. 123 ∷ 125 ∷ [];
  object_of = λ fs. object (leaves fs);
  array_of = λ vs. leaf opaque;
  string = λ t. leaf (text t);
  boolean = λ b. leaf (flag b);
  set = λ j k v. elim j [ leaf l ↦ none | object fs ↦ some (object (insert k (leaf_of v) fs)) ];
  value_string = λ j k d. elim (field j k) [ none ↦ none | some o ↦ text_of o d ];
  value_bool = λ j k d. elim (field j k) [ none ↦ none | some o ↦ bool_of o d ];
  value_number = λ j k. elim (field j k) [ none ↦ none | some o ↦ some tt ];
  value_u32 = λ j k d. elim (field j k) [ none ↦ none | some o ↦ some d ];
}

pub find-leaves :
    (fs : List (String × Value)) (k : String) (v : Value)
    → find k fs ≡ some v
    → find k (leaves fs) ≡ some (leaf_of v)
unfolding find
find-leaves [] k v h = cc
find-leaves ((j, u) ∷ fs) k v h = elim (Bool-cases (j == k)) [
  | inl e ↦ rw e (ap (λ x. some (leaf_of x)) (some-injective _ _ (rw e at h)))
  | inr e ↦ rw e (find-leaves fs k v (rw e at h))
]

pub values-laws : JsonLaws values
values-laws = record {
  value_bool-object_of = λ fs k b d h. rw (find-leaves fs k (leaf (flag b)) h);
  value_string-object_of = λ fs k s d h. rw (find-leaves fs k (leaf (text s)) h);
}

-- A table in memory.
abbrev pub conflict : User → User → Bool
conflict u r = r.username == u.username || r.email == u.email

abbrev pub table : Sqlite (List User)
table = record {
  prepare = λ d. true;
  current_timestamp = λ d. "2026-03-19 00:00:00";
  insert = λ d u.
      if is_empty (filter (conflict u) d)
      then (InsertResult.done, d ++ (u ∷ []))
      else (InsertResult.unique_violation, d);
  select = λ d p. filter p d;
  update = λ d p f. (some (length (filter p d)), map (λ r. if p r then f r else r) d);
}

pub is_empty-nil : (us : List User) → is_empty us ≡ true → us ≡ []
is_empty-nil [] h = refl
is_empty-nil (u ∷ us) h = cc

pub insert_appends :
    (d : List User) (u : User)
    → (table.insert d u).1 ≡ elim (table.insert d u).0 [ InsertResult.done ↦ d ++ (u ∷ []) | _ ↦ d ]
insert_appends d u = ground arith

pub no_conflict :
    (d : List User) (u : User)
    → (table.insert d u).0 ≡ InsertResult.done
    → filter (conflict u) d ≡ []
no_conflict d u h = is_empty-nil _ (ground arith)

unfoldable pub table-laws : SqliteLaws table
table-laws = record {
  rows = λ d. d;
  select_rows = λ d p. refl;
  insert_rows = insert_appends;
  insert_unique = no_conflict;
  update_rows = λ d p f. refl;
  update_changes = λ d p f n h. some-injective _ _ (sym h);
}

-- Sessions whose handshake is done from the start, or never.
abbrev pub sessions : SecureSession Bool
sessions = record {
  create = λ n. false;
  is_valid = λ s. true;
  is_handshake_done = λ s. s;
  encrypt = λ s bs. (0 ∷ bs, s);
  decrypt = λ s bs. (bs, s);
  get_handshake_data = λ s. ([], s);
}

abbrev pub digest : String → Bytes
digest s = len s ∷ []

-- A network in which nothing answers.
abbrev pub dead : Health ℕ
dead = record {
  is_discovering = λ w. (true, w);
  peek = λ w fd. (Answer.count 0, w);
  probe = λ w fd. (Answer.error, w);
  socket = λ w. (some 9, w);
  connect = λ w fd ip port. (false, w + 1);
  close = λ w fd. w;
}

-- JSON values that are one byte of text.
abbrev pub byte_of : Bytes → Option ℕ
byte_of [] = none
byte_of (n ∷ []) = some n
byte_of (n ∷ m ∷ ms) = none

abbrev pub bytes_lib : JsonLib ℕ
bytes_lib = record {
  parse = byte_of;
  dump = λ j. j ∷ [];
  object_of = λ fs. 0;
  array_of = λ vs. 1;
  string = λ t. 2;
  boolean = λ b. 3;
  set = λ j k v. none;
  value_string = λ j k d. none;
  value_bool = λ j k d. none;
  value_number = λ j k. none;
  value_u32 = λ j k d. none;
}

pub bytes_text-laws : JsonTextLaws bytes_lib
bytes_text-laws = record { parse-dump = λ j. refl; dump-ne-nil = λ j h. cc }

value_string-set_values :
    (j j' : Value) (k c s d : String)
    → values.set j k (leaf (text s)) ≡ some j'
    → values.value_string j' c d ≡ (if k == c then some s else values.value_string j c d)
value_string-set_values (leaf l) j' k c s d h = cc
value_string-set_values (object fs) j' k c s d h = rw (← some-injective _ _ h) (
    rw (find-insert k c (text s) fs)
      (elim (Bool-cases (k == c)) [ inl e ↦ rw e refl | inr e ↦ rw e refl ]))

same_key : (k : String) (x y : Option String) → (if k == k then x else y) ≡ x
same_key k x y = ground (arith, eq_iff k k)

if_some :
    (b : Bool) (s t : String)
    → ◌≡◌ {A = Option String} (if b then some s else some t) (some (if b then s else t))
if_some true s t = refl
if_some false s t = refl

pub values_set-laws : JsonSetLaws values
values_set-laws = record {
  value_string-set = λ j j' k s d h. value_string-set_values j j' k k s d h ∙ same_key k _ _;
  value_string-set_other =
      λ j j' k c s t d e h. value_string-set_values j j' k c s d h ∙ rw e (if_some (k == c) s t);
}

pub wires-IsHealthy : (fd : ℕ) → IsHealthy wires-laws fd
wires-IsHealthy fd w b bs = (length (take 3 bs), refl)

pub wires-IsFed : (fd : ℕ) → IsFed wires-laws fd
unfolding wires-laws
wires-IsFed fd w n b bs e = (b, take n bs, rw e refl)
