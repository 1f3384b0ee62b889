-- ===== src/Store/Memory/Users.antt =====
-- CreateUser, GetUser, GetUserByUsername, CheckUserExists, UpdateUser and DeleteUser of
-- pkg/store/memory_store.go. `now` and `later` are the clock's answers, in the order of the calls. The
-- map holds pointers that callers share: a caller's write to a shared record is `write_user`, and a call
-- finds the store as the writes before it have left it. One record does not stand under two identifiers.
pub mod Index
pub mod Registry
pub mod Calls
pub mod Shared
use wireguard_babeld_igp.Base.{String, Bool, true, false, Option, none, some, ite, ◌=?◌, string_key}
use wireguard_babeld_igp.Base.Int.{ℤ, inc, int_key}
use wireguard_babeld_igp.Data.Map.{get, put, delete}
use wireguard_babeld_igp.Errors.{Result, ok, err, missing, username_exists}
use wireguard_babeld_igp.Types.{Time, User}
use wireguard_babeld_igp.Store.Memory.{MemoryStore}

insert_user : User → MemoryStore → MemoryStore
insert_user user s = record s {
  users = put s.users user.id user;
  usernames = put s.usernames user.username user.id;
  last_user_id = user.id;
}

create_if_free :
    Time → Time → User → MemoryStore → Option ℤ → User × (Result (Unit {0}) × MemoryStore)
unfolding insert_user
create_if_free now later user s (some _) = (user, (err (username_exists user.username), s))
create_if_free now later user s none =
    let numbered = record user { id = inc s.last_user_id; created_at = now; updated_at = later } in
    (numbered, (ok tt, insert_user numbered s))

-- The first part is the caller's user, whose identifier and times the call sets.
unfoldable pub create_user :
    Time → Time → User → MemoryStore → User × (Result (Unit {0}) × MemoryStore)
unfolding create_if_free
create_user now later user s = create_if_free now later user s (get s.usernames user.username)

or_missing : Option User → Result User
or_missing none = err missing
or_missing (some user) = ok user

unfoldable pub get_user : ℤ → MemoryStore → Result User
unfolding or_missing
get_user id s = or_missing (get s.users id)

-- `ok none` is the nil pointer of `return s.users[userID], nil`.
unfoldable pub get_user_by_username : String → MemoryStore → Result (Option User)
get_user_by_username username s = elim (get s.usernames username) [
  | none ↦ err missing
  | some id ↦ ok (get s.users id)
]

unfoldable pub check_user_exists : String → MemoryStore → Result Bool
check_user_exists username s = elim (get s.usernames username) [
  | none ↦ ok false
  | some _ ↦ ok true
]

-- The last two statements of UpdateUser.
save_user : Time → User → MemoryStore → Result (Unit {0}) × MemoryStore
save_user now user s =
    (ok tt, record s { users = put s.users user.id (record user { updated_at = now }) })

rename_user : Time → String → User → MemoryStore → Option ℤ → Result (Unit {0}) × MemoryStore
unfolding save_user
rename_user now old user s (some _) = (err (username_exists user.username), s)
rename_user now old user s none =
    save_user now user (record s { usernames = put (delete s.usernames old) user.username user.id })

update_if_found : Time → User → MemoryStore → Option User → Result (Unit {0}) × MemoryStore
unfolding rename_user
update_if_found now user s none = (err missing, s)
update_if_found now user s (some old) =
    ite (old.username =? user.username) (save_user now user s)
      (rename_user now old.username user s (get s.usernames user.username))

unfoldable pub update_user : Time → User → MemoryStore → Result (Unit {0}) × MemoryStore
unfolding update_if_found
update_user now user s = update_if_found now user s (get s.users user.id)

delete_if_found : ℤ → MemoryStore → Option User → Result (Unit {0}) × MemoryStore
delete_if_found id s none = (err missing, s)
delete_if_found id s (some user) =
    (ok tt, record s { usernames = delete s.usernames user.username; users = delete s.users id })

unfoldable pub delete_user : ℤ → MemoryStore → Result (Unit {0}) × MemoryStore
unfolding delete_if_found
delete_user id s = delete_if_found id s (get s.users id)

write_if_found : ℤ → (User → User) → MemoryStore → Option User → MemoryStore
write_if_found id f s none = s
write_if_found id f s (some user) = record s { users = put s.users id (f user) }

-- A caller's write to the record that GetUser, GetUserByUsername, CreateUser or UpdateUser has left it
-- sharing with the store.
unfoldable pub write_user : ℤ → (User → User) → MemoryStore → MemoryStore
unfolding write_if_found
write_user id f s = write_if_found id f s (get s.users id)

-- GetUser, a write to the record that it answers with, and UpdateUser on that record, which the call
-- finds in the map.
unfoldable pub update_fetched :
    Time → ℤ → (User → User) → MemoryStore → Result (Unit {0}) × MemoryStore
unfolding get_user write_user update_user
update_fetched now id f s = elim (get_user id s) [
  | err e ↦ (err e, s)
  | ok user ↦ update_user now (f user) (write_user id f s)
]
