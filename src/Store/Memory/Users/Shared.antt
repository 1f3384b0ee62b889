-- ===== src/Store/Memory/Users/Shared.antt =====
-- A rename of a user by way of the record that MemoryStore's GetUser shares.
use wireguard_babeld_igp.Base.{◌≡◌, ◌≢◌, refl, arith, String, none, some, string_key}
use wireguard_babeld_igp.Base.Int.{ℤ, int_key}
use wireguard_babeld_igp.Data.Map.{get, put, get-put}
use wireguard_babeld_igp.Errors.{ok, err, missing}
use wireguard_babeld_igp.Types.{Time, User}
use wireguard_babeld_igp.Store.Memory.{MemoryStore}
use wireguard_babeld_igp.Store.Memory.Users.{
  get_user, get_user_by_username, update_user, update_if_found, save_user, write_user,
  write_if_found, update_fetched,
}
use wireguard_babeld_igp.Store.Memory.Users.Index.{IsIndexed}

abbrev pub renamed : String → User → User
renamed name u = record u { username = name }

module _ (s : MemoryStore) (v : IsIndexed s) (now : Time) (id : ℤ) (name : String) (u : User)
    (stored : get s.users id ≡ some u) where
  abbrev pub kept : User
  kept = record u { username = name; updated_at = now }

  -- UpdateUser on a record that was fetched and renamed in place succeeds without a test of the new
  -- name, and leaves the index of names as it was.
  update_fetched-renamed :
      update_fetched now id (renamed name) s
      ≡ (ok tt, record s { users = put (put s.users id (renamed name u)) id kept })
  unfolding update_fetched get_user update_user write_user write_if_found update_if_found save_user
  update_fetched-renamed =
      ground (arith, stored, v.named id u stored, get-put s.users id id (renamed name u))

  -- Who renames a user in the record that GetUser answers with, and passes that record to UpdateUser, is
  -- told that it succeeded, but the index keeps the old name: the new one is not found, even where no
  -- one had it before, and the old one finds the renamed user.
  pub update_fetched_stale :
      name ≢ u.username
      → get s.usernames name ≡ none
      → let (r, s') = update_fetched now id (renamed name) s in
        (r ≡ ok tt)
        × (get_user id s' ≡ ok kept)
        × (get_user_by_username name s' ≡ err missing)
        × (get_user_by_username u.username s' ≡ ok (some kept))
  unfolding get_user get_user_by_username
  update_fetched_stale differs free = rw update_fetched-renamed (
    refl,
    ground (arith, get-put (put s.users id (renamed name u)) id id kept),
    ground (arith, free),
    ground (arith, v.named id u stored, get-put (put s.users id (renamed name u)) id id kept),
  )
