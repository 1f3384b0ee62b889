-- ===== src/Store/Memory/Users/Calls.antt =====
-- Any calls of the users' methods of pkg/store/memory_store.go, one after the other.
use wireguard_babeld_igp.Base.{
  ◌≡◌, ◌↔◌, ◌≤◌, ◌+◌, refl, arith, ℕ, suc, String, Option, none, some, List, [], ◌∷◌, string_key,
  ite_ind, ◌=?◌,
}
use wireguard_babeld_igp.Base.Int.{ℤ, pos, int_key, inc_parts, max_int, pos_part, ◌<ℤ◌}
use wireguard_babeld_igp.Data.Map.{get}
use wireguard_babeld_igp.Data.Map.Range.{length}
use wireguard_babeld_igp.Errors.{Result, ok}
use wireguard_babeld_igp.Types.{Time, User}
use wireguard_babeld_igp.Store.Memory.{MemoryStore, new_memory_store}
use wireguard_babeld_igp.Store.Memory.Users.{
  create_user, create_if_free, insert_user, update_user, update_if_found, rename_user, save_user,
  delete_user, delete_if_found, write_if_found, get_user_by_username, write_user,
}
use wireguard_babeld_igp.Store.Memory.Users.Index.{IsIndexed, new-IsIndexed}
use wireguard_babeld_igp.Store.Memory.Users.Registry.{
  UserCall, create, update, delete_by, write_to, GrantsAll, registry, call, call_all, call-Granted,
  call-IsIndexed,
}

-- How many more users there is room for.
HasRoom : ℕ → MemoryStore → Type 0
HasRoom n s = pos_part s.last_user_id + n ≤ max_int

renamed_last :
    (now : Time) (old : String) (u : User) (s : MemoryStore) (o : Option ℤ)
    → (rename_user now old u s o).1.last_user_id ≡ s.last_user_id
unfolding rename_user save_user
renamed_last now old u s none = refl
renamed_last now old u s (some id) = refl

found_last :
    (now : Time) (u : User) (s : MemoryStore) (o : Option User)
    → (update_if_found now u s o).1.last_user_id ≡ s.last_user_id
unfolding update_if_found save_user
found_last now u s none = refl
found_last now u s (some old) =
    ite_ind (λ (x : Result (Unit {0}) × MemoryStore). x.1.last_user_id ≡ s.last_user_id)
      (old.username =? u.username) _ _ (λ e. refl)
      (λ n. renamed_last now old.username u s (get s.usernames u.username))

created-HasRoom :
    (now later : Time) (u : User) (n : ℕ) (s : MemoryStore) (o : Option ℤ)
    → IsIndexed s
    → HasRoom (suc n) s
    → HasRoom n (create_if_free now later u s o).1.1
unfolding HasRoom create_if_free insert_user
created-HasRoom now later u n s none v h =
    ground (arith, h, v.nonneg, v.int, inc_parts s.last_user_id v.int)
created-HasRoom now later u n s (some id) v h = omega (arith, h)

deleted_last :
    (id : ℤ) (s : MemoryStore) (o : Option User)
    → (delete_if_found id s o).1.last_user_id ≡ s.last_user_id
unfolding delete_if_found
deleted_last id s none = refl
deleted_last id s (some u) = refl

written_last :
    (id : ℤ) (f : User → User) (s : MemoryStore) (o : Option User)
    → (write_if_found id f s o).last_user_id ≡ s.last_user_id
unfolding write_if_found
written_last id f s none = refl
written_last id f s (some u) = refl

call-HasRoom :
    (c : UserCall) (n : ℕ) (s : MemoryStore)
    → IsIndexed s
    → HasRoom (suc n) s
    → HasRoom n (call c s).1
unfolding HasRoom call create_user update_user delete_user write_user
call-HasRoom (create now later u) n s v h =
    created-HasRoom now later u n s (get s.usernames u.username) v h
call-HasRoom (update now u) n s v h = ground (arith, h, found_last now u s (get s.users u.id))
call-HasRoom (delete_by id) n s v h = ground (arith, h, deleted_last id s (get s.users id))
call-HasRoom (write_to id f keeps) n s v h = ground (arith, h, written_last id f s (get s.users id))

below_max :
    (n : ℕ) (s : MemoryStore) → IsIndexed s → HasRoom (suc n) s → s.last_user_id <ℤ pos max_int
unfolding HasRoom
below_max n s v h = ground (arith, h, v.nonneg)

call_all_lem :
    (l : List UserCall) (s : MemoryStore)
    → IsIndexed s
    → HasRoom (length l) s
    → let (xs, t) = call_all l s in GrantsAll (registry s) l xs (registry t) × IsIndexed t
unfolding call_all
call_all_lem [] s v h = (GrantsAll.done, v)
call_all_lem (c ∷ l) s v h =
    let w = call-IsIndexed s v c (below_max (length l) s v h) in
    let (g, u) = call_all_lem l (call c s).1 w (call-HasRoom c (length l) s v h) in
    (GrantsAll.then (call-Granted s v c) g, u)

looked_up :
    (s : MemoryStore)
    → IsIndexed s
    → (name : String) (u : User) (o : Option ℤ) → get s.usernames name ≡ o
    → get_user_by_username name s ≡ ok (some u)
    → (id : ℤ) × (get s.users id ≡ some u) × (u.username ≡ name)
unfolding get_user_by_username
looked_up s v name u none e h = absurd (ground (arith, e, h))
looked_up s v name u (some id) e h =
    (id, ground (arith, e, h), ground (arith, e, h, v.owned name id e))

-- The lookup by name finds the account of that name, under whatever identifier it is.
lookup_lem :
    (s : MemoryStore)
    → IsIndexed s
    → (name : String) (u : User)
    → (get_user_by_username name s ≡ ok (some u))
      ↔ ((id : ℤ) × ((registry s).account id ≡ some u) × (u.username ≡ name))
unfolding get_user_by_username
lookup_lem s v name u = (
  looked_up s v name u (get s.usernames name) refl,
  λ (id, e, f). ground (arith, e, f, v.named id u e),
)

new-HasRoom : (n : ℕ) → n ≤ max_int → HasRoom n new_memory_store
unfolding HasRoom
new-HasRoom n h = omega (arith, h)

-- In a new store, any calls of CreateUser, UpdateUser and DeleteUser, and any writes in between of
-- callers to records that they share with the store, as long as these keep the identifier and the name,
-- are answered as a registry answers them in which no two accounts have one name: a name that is taken
-- is refused, a user that is not there is missing, and all else succeeds. Afterwards GetUserByUsername
-- finds exactly the registry's accounts. No record stands under two identifiers, and there are at most
-- as many calls and writes as identifiers.
pub call_all-GrantsAll :
    (l : List UserCall)
    → length l ≤ max_int
    → let (xs, s) = call_all l new_memory_store in
      GrantsAll (registry new_memory_store) l xs (registry s)
      × ((name : String) (u : User)
          → (get_user_by_username name s ≡ ok (some u))
            ↔ ((id : ℤ) × ((registry s).account id ≡ some u) × (u.username ≡ name)))
call_all-GrantsAll l h =
    let (g, v) = call_all_lem l new_memory_store new-IsIndexed (new-HasRoom (length l) h) in
    (g, lookup_lem (call_all l new_memory_store).1 v)
