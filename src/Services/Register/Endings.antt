-- ===== src/Services/Register/Endings.antt =====
-- How `RegisterUser` of register.go ends.
use task_management_api.Shared.{
  true, ◌≡◌, refl, ap, ◌∙◌, Option, none, some, Option-cases, List, [], ◌∷◌, Bytes, bytes, inl, inr,
}
use task_management_api.Shared.Int.{Time}
use task_management_api.Models.{Uuid}
use task_management_api.Services.Database.{Answer, answer, failure, Found, found, not_found, broken}
use task_management_api.Services.Auth.{Result, success, error, panicked}
use task_management_api.Services.Register.{
  RegistrationRequest, NewUser, UserRole, DefaultAttribute, RegisterTable, Clock, new_user,
  assignment, account_type, clearance_level, loaded, committed, with_attributes, role_assigned,
  role_found, user_created, begun, hashed, username_checked, email_checked, register_user,
}

-- What the database promises of transactions: each is over the state in which it began, a rollback
-- leaves that state, and so does a commit that fails.
pub record TransactionLaws {S T U : Type 0} (table : RegisterTable S T U) (origin : T → S)
    : Type 0 where
  pub begins : (db : S) (tx : T) → table.begin db ≡ answer tx → origin tx ≡ db
  pub keeps_user : (tx : T) (user : NewUser) → origin ((table.create_user tx user).0) ≡ origin tx
  pub keeps_role :
      (tx : T) (role : UserRole) → origin ((table.create_user_role tx role).0) ≡ origin tx
  pub keeps_attribute :
      (tx : T) (attribute : DefaultAttribute)
      → origin ((table.create_attribute tx attribute).0) ≡ origin tx
  pub rolls_back : (tx : T) → table.rollback tx ≡ origin tx
  pub fails_commit : (tx : T) (db : S) (e : Bytes) → table.commit tx ≡ (db, some e) → db ≡ origin tx

module _ {S T U : Type 0} (table : RegisterTable S T U) where
  -- The attributes are created one after the other, each without an error.
  abbrev pub Writes : T → List DefaultAttribute → T → Type 0
  Writes tx [] last = tx ≡ last
  Writes tx (attribute ∷ rest) last =
      (next : T) × (table.create_attribute tx attribute ≡ (next, none)) × Writes next rest last

  -- The one way to a commit: name and address are free, the row of the user holds what was asked for and
  -- the hash, the role `user` is assigned, and both attributes are there.
  pub record Committed (db : S) (req : RegistrationRequest) (given : Option Uuid) (clock : Clock)
      (id : Uuid) (db' : S) : Type 0 where
    pub free_email : table.find_email db req.email ≡ not_found
    pub free_username : table.find_username db req.username ≡ not_found
    pub fresh_id : given ≡ some id
    pub password : Bytes
    pub hash : table.generate_hash req.password ≡ answer password
    pub opened : T
    pub with_user : T
    pub with_role : T
    pub ready : T
    pub begins : table.begin db ≡ answer opened
    pub user :
        table.create_user opened (record {
          id = id;
          username = req.username;
          email = req.email;
          password = password;
          first_name = req.first_name;
          last_name = req.last_name;
          department = req.department;
          position = req.position;
          is_active = true;
          created_at = clock.created;
          updated_at = clock.updated;
        })
        ≡ (with_user, none)
    pub role : Uuid
    pub role_there : table.find_role with_user (bytes "user") ≡ found role
    pub assigned :
        table.create_user_role with_user (record {
          user_id = id;
          role_id = role;
          assigned_at = clock.now;
          created_at = clock.now;
          updated_at = clock.now;
        })
        ≡ (with_role, none)
    pub attributes :
        Writes with_role
          (record {
            user_id = id;
            name = bytes "account_type";
            value = bytes "standard";
            data_type = bytes "string";
          }
            ∷ record {
              user_id = id;
              name = bytes "clearance_level";
              value = bytes "basic";
              data_type = bytes "string";
            }
            ∷ [])
          ready
    pub commits : table.commit ready ≡ (db', none)

  -- An error or a panic that leaves the database as it was; or a commit, and then the row that is read
  -- back, or the error of reading it.
  pub data Ending (C : Uuid → S → Type 0) (db : S) : S × Result U → Type 0 where
    refused : (e : Bytes) → Ending C db (db, error e)
    no_id : Ending C db (db, panicked)
    registered :
        (id : Uuid) (db' : S) (user : U)
        → C id db'
        → table.load db' id ≡ answer user
        → Ending C db (db', success user)
    unread :
        (id : Uuid) (db' : S) (e : Bytes)
        → C id db'
        → table.load db' id ≡ failure e
        → Ending C db (db', error e)

  module _ (origin : T → S) (laws : TransactionLaws table origin) (C : Uuid → S → Type 0)
      (db : S) where
    loaded-Ending :
        (id : Uuid) (db' : S) (r : Answer U)
        → C id db'
        → table.load db' id ≡ r
        → Ending C db (loaded db' r)
    unfolding loaded
    loaded-Ending id db' (answer user) c e = registered id db' user c e
    loaded-Ending id db' (failure x) c e = unread id db' x c e

    refused-at : (db' : S) (e : Bytes) → db' ≡ db → Ending C db (db', error e)
    refused-at db' e h = rw h (refused e)

    rolled_back : (tx : T) (e : Bytes) → origin tx ≡ db → Ending C db (table.rollback tx, error e)
    rolled_back tx e h = refused-at (table.rollback tx) e (laws.rolls_back tx ∙ h)

    committed-Ending :
        (id : Uuid) (tx : T) (x : S × Option Bytes)
        → origin tx ≡ db
        → table.commit tx ≡ x
        → ((db' : S) → table.commit tx ≡ (db', none) → C id db')
        → Ending C db (committed table id x)
    unfolding committed
    committed-Ending id tx (db', none) o e f = loaded-Ending id db' _ (f db' e) refl
    committed-Ending id tx (db', some x) o e f = refused-at db' x (laws.fails_commit tx db' x e ∙ o)

    with_attributes-Ending :
        (id : Uuid) (tx : T) (attributes : List DefaultAttribute)
        → origin tx ≡ db
        → ((last : T)
            → Writes tx attributes last
            → (db' : S) → table.commit last ≡ (db', none)
            → C id db')
        → Ending C db (with_attributes table id tx attributes)
    unfolding with_attributes
    with_attributes-Ending id tx [] o f = committed-Ending id tx _ o refl (f tx refl)
    with_attributes-Ending id tx (a ∷ rest) o f =
        let x = table.create_attribute tx a in
        let o' = laws.keeps_attribute tx a ∙ o in
        elim (Option-cases (x.1)) [
          | inl e ↦
              rw (with_attributes, e)
                (with_attributes-Ending id (x.0) rest o'
                  (λ last w. f last (x.0, ap (λ (r : Option Bytes). (x.0, r)) e, w)))
          | inr (b, e) ↦ rw (with_attributes, e) (rolled_back (x.0) b o')
        ]

    role_assigned-Ending :
        (id : Uuid) (x : T × Option Bytes)
        → origin (x.0) ≡ db
        → ((tx last : T)
            → x ≡ (tx, none)
            → Writes tx (account_type id ∷ clearance_level id ∷ []) last
            → (db' : S) → table.commit last ≡ (db', none)
            → C id db')
        → Ending C db (role_assigned table id x)
    unfolding role_assigned
    role_assigned-Ending id (tx, none) o f =
        with_attributes-Ending id tx (account_type id ∷ clearance_level id ∷ []) o
          (λ last w. f tx last refl w)
    role_assigned-Ending id (tx, some e) o f = rolled_back tx e o

    role_found-Ending :
        (id : Uuid) (now : Time) (tx : T) (r : Found Uuid)
        → origin tx ≡ db
        → ((role : Uuid) (next last : T)
            → r ≡ found role
            → table.create_user_role tx (assignment id role now) ≡ (next, none)
            → Writes next (account_type id ∷ clearance_level id ∷ []) last
            → (db' : S) → table.commit last ≡ (db', none)
            → C id db')
        → Ending C db (role_found table id now tx r)
    unfolding role_found
    role_found-Ending id now tx not_found o f = rolled_back tx _ o
    role_found-Ending id now tx (broken e) o f = rolled_back tx e o
    role_found-Ending id now tx (found role) o f =
        role_assigned-Ending id _ (laws.keeps_role tx (assignment id role now) ∙ o)
          (λ next last e. f role next last refl e)

    user_created-Ending :
        (id : Uuid) (now : Time) (x : T × Option Bytes)
        → origin (x.0) ≡ db
        → ((tx next last : T) (role : Uuid)
            → x ≡ (tx, none)
            → table.find_role tx (bytes "user") ≡ found role
            → table.create_user_role tx (assignment id role now) ≡ (next, none)
            → Writes next (account_type id ∷ clearance_level id ∷ []) last
            → (db' : S) → table.commit last ≡ (db', none)
            → C id db')
        → Ending C db (user_created table id now x)
    unfolding user_created
    user_created-Ending id now (tx, none) o f =
        role_found-Ending id now tx _ o (λ role next last. f tx next last role refl)
    user_created-Ending id now (tx, some e) o f = rolled_back tx e o

module _ {S T U : Type 0} (table : RegisterTable S T U) (origin : T → S)
    (laws : TransactionLaws table origin) where
  begun-Ending :
      (db : S) (req : RegistrationRequest) (id : Uuid) (password : Bytes) (clock : Clock)
      (r : Answer T)
      → table.begin db ≡ r
      → table.find_email db req.email ≡ not_found
      → table.find_username db req.username ≡ not_found
      → table.generate_hash req.password ≡ answer password
      → Ending table
          (Committed table db req (some id) clock)
          db
          (begun table db (new_user req id password clock) clock.now r)
  unfolding begun new_user assignment
  begun-Ending db req id password clock (failure e) h a b c = refused e
  begun-Ending db req id password clock (answer tx) h a b c =
      user_created-Ending table origin laws (Committed table db req (some id) clock) db id clock.now
        _ (laws.keeps_user tx (new_user req id password clock) ∙ laws.begins db tx h)
        (λ t next last role e f g w db' k. record {
          free_email = a;
          free_username = b;
          fresh_id = refl;
          password = password;
          hash = c;
          opened = tx;
          with_user = t;
          with_role = next;
          ready = last;
          begins = h;
          user = e;
          role = role;
          role_there = f;
          assigned = g;
          attributes = w;
          commits = k;
        })

  hashed-Ending :
      (db : S) (req : RegistrationRequest) (id : Option Uuid) (clock : Clock) (r : Answer Bytes)
      → table.generate_hash req.password ≡ r
      → table.find_email db req.email ≡ not_found
      → table.find_username db req.username ≡ not_found
      → Ending table (Committed table db req id clock) db (hashed table db req id clock r)
  unfolding hashed
  hashed-Ending db req id clock (failure e) h a b = refused e
  hashed-Ending db req none clock (answer p) h a b = no_id
  hashed-Ending db req (some id) clock (answer p) h a b =
      begun-Ending db req id p clock _ refl a b h

  username-Ending :
      (db : S) (req : RegistrationRequest) (id : Option Uuid) (clock : Clock) (r : Found U)
      → table.find_username db req.username ≡ r
      → table.find_email db req.email ≡ not_found
      → Ending table (Committed table db req id clock) db (username_checked table db req id clock r)
  unfolding username_checked
  username-Ending db req id clock (found user) h a = refused _
  username-Ending db req id clock (broken e) h a = refused e
  username-Ending db req id clock not_found h a = hashed-Ending db req id clock _ refl a h

  email-Ending :
      (db : S) (req : RegistrationRequest) (id : Option Uuid) (clock : Clock) (r : Found U)
      → table.find_email db req.email ≡ r
      → Ending table (Committed table db req id clock) db (email_checked table db req id clock r)
  unfolding email_checked
  email-Ending db req id clock (found user) h = refused _
  email-Ending db req id clock (broken e) h = refused e
  email-Ending db req id clock not_found h = username-Ending db req id clock _ refl h

  -- `RegisterUser` leaves the database as it was and comes back with an error or a panic; or it has
  -- committed, where the address and the name were free, a user with what the request says and, for a
  -- password, its hash, the role `user`, and the attributes `account_type` with the value `standard` and
  -- `clearance_level` with the value `basic`, and then comes back with the row read again or with the error of reading it.
  pub register_user-Ending :
      (db : S) (req : RegistrationRequest) (id : Option Uuid) (clock : Clock)
      → Ending table (Committed table db req id clock) db (register_user table db req id clock)
  unfolding register_user
  register_user-Ending db req id clock = email-Ending db req id clock _ refl
