-- ===== src/Store/Gorm/Users.antt =====
-- CreateUser to DeleteUser of pkg/store/gorm_store.go. A call gets the clock's answers as arguments.
use wireguard_babeld_igp.Base.{
  ℕ, String, Bool, Option, some, ltb, ite, true, false, ◌=?◌, string_key,
}
use wireguard_babeld_igp.Base.Int.{ℤ, int_key}
use wireguard_babeld_igp.Errors.{Error, Result, ok, err, wrapped, missing}
use wireguard_babeld_igp.Types.{Time, User}
use wireguard_babeld_igp.Store.Memory.Connections.{eq_ℤ}
use wireguard_babeld_igp.Store.Gorm.{Database, written, deleted, found}

abbrev pub has_id : ℤ → User → Bool
has_id id u = eq_ℤ u.id id

abbrev pub has_name : String → User → Bool
has_name name u = ite (u.username =? name) true false

module _ {D : Type 0} (db : Database D) where
  created : User × (Option Error × D) → User × (Result (Unit {0}) × D)
  created (u, r) = (u, written "creating user" r)

  unfoldable pub create_user : Time → Time → User → D → User × (Result (Unit {0}) × D)
  unfolding created
  create_user now later u d =
      created (db.users.create (record u { created_at = now; updated_at = later }) d)

  unfoldable pub get_user : ℤ → D → Result User
  get_user id d = found "getting user" missing (db.users.query.first (has_id id) d)

  some_user : Result User → Result (Option User)
  some_user (ok u) = ok (some u)
  some_user (err e) = err e

  -- A user that is found is not nil.
  unfoldable pub get_user_by_username : String → D → Result (Option User)
  unfolding some_user
  get_user_by_username name d =
      some_user (found "getting user by username" missing (db.users.query.first (has_name name) d))

  is_positive : Result ℕ → Result Bool
  is_positive (err e) = err e
  is_positive (ok n) = ok (ltb 0 n)

  unfoldable pub check_user_exists : String → D → Result Bool
  unfolding is_positive
  check_user_exists name d =
      is_positive (wrapped "checking user existence" (db.users.count (has_name name) d))

  unfoldable pub update_user : Time → User → D → Result (Unit {0}) × D
  update_user now u d = written "updating user" (db.users.save (record u { updated_at = now }) d)

  unfoldable pub delete_user : ℤ → D → Result (Unit {0}) × D
  delete_user id d = deleted "deleting user" (db.users.delete (has_id id) d)
